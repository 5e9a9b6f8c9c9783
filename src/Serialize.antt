-- ===== src/Serialize.antt =====
-- src/serialize.rs: the bytes of a store, and a store from bytes.
pub mod Writer
pub mod Reader
pub mod Decode
pub mod Reads
pub mod Fields
pub mod Keys
pub mod RoundTrip
pub mod Safe
