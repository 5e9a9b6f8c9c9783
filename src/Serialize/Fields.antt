-- ===== src/Serialize/Fields.antt =====
-- The parts of a node are read back as they were written.
use graphed_core_mvp.Base.{
  ◌==◌, ℕ, suc, ◌^◌, ◌<◌, ◌≡◌, refl, true, false, List, [], ◌∷◌, arith, length, flat_map, All,
  All-imp, if◌then◌else◌, ℤ, pos, negsuc, IsI64,
}
use graphed_core_mvp.Param
use graphed_core_mvp.Param.{ParamValue, int, float, boolean, str, Entry, ParamMap}
use graphed_core_mvp.Param.Sorted.{IsSorted, new_of_IsSorted}
use graphed_core_mvp.Node.{NodeId, StageRef, input, member, StageOp}
use graphed_core_mvp.Serialize.Writer.{
  Bytes, put_u32, put_u64, as_u32, put_str, int_bits, put_value, put_entry, put_list, put_params,
  put_inputs, put_ref, put_member,
}
use graphed_core_mvp.Serialize.Reader.{
  pure, ◌>>=◌, read_u8, read_u32, read_u64, read_string, read_many, bits_int, read_value,
  read_entry, read_params, read_input, read_inputs,
}
use graphed_core_mvp.Serialize.Decode.{read_ref, read_member, read_members}
use graphed_core_mvp.Serialize.Reads.{
  Reads, Reads-bind, Reads-map, Reads-u8, Reads-u64, Reads-count, IsStr, Reads-str, Reads-many,
  Reads-list,
}

-- A value that Rust can hold, with a string that is not too long.
abbrev pub IsStored : ParamValue → Type 0
IsStored (int a) = IsI64 a
IsStored (float x) = x < 2 ^ 64
IsStored (boolean b) = Unit
IsStored (str s) = IsStr s

abbrev pub IsStoredEntry : Entry → Type 0
IsStoredEntry e = IsStr e.0 × IsStored e.1

pub record IsStoredMap (p : ParamMap) : Type 0 where
  pub sorted : IsSorted p
  pub short : length p < 2 ^ 32
  pub entries : All IsStoredEntry p

int_bits_lem : (a : ℤ) → IsI64 a → (int_bits a < 2 ^ 64) × (bits_int (int_bits a) ≡ a)
unfolding int_bits bits_int
int_bits_lem (pos n) h = ground arith
int_bits_lem (negsuc n) h = ground arith

-- The tag of a value, and what stands behind it.
abbrev value_tag : ParamValue → ℕ
value_tag (int a) = 0
value_tag (float x) = 1
value_tag (boolean b) = 2
value_tag (str s) = 3

abbrev value_body : ParamValue → Bytes
value_body (int a) = put_u64 (int_bits a)
value_body (float x) = put_u64 x
value_body (boolean true) = 1 ∷ []
value_body (boolean false) = 0 ∷ []
value_body (str s) = put_str s

put_value-tag : (v : ParamValue) → put_value v ≡ value_tag v ∷ value_body v
unfolding put_value
put_value-tag (boolean true) = refl
put_value-tag (boolean false) = refl
put_value-tag (int a) = refl
put_value-tag (float x) = refl
put_value-tag (str s) = refl

Reads-value : (v : ParamValue) → IsStored v → Reads (read_value (value_tag v)) (value_body v) v
unfolding read_value
Reads-value (int a) h = rw (int_bits_lem a h).1 at (
    Reads-map read_u64 (λ b. int (bits_int b)) (put_u64 (int_bits a)) (int_bits a)
      (Reads-u64 (int_bits a) (int_bits_lem a h).0))
Reads-value (float x) h = Reads-map read_u64 float (put_u64 x) x (Reads-u64 x h)
Reads-value (boolean true) h =
    Reads-map read_u8 (λ b. boolean (if b == 0 then false else true)) (1 ∷ []) 1 (Reads-u8 1)
Reads-value (boolean false) h =
    Reads-map read_u8 (λ b. boolean (if b == 0 then false else true)) (0 ∷ []) 0 (Reads-u8 0)
Reads-value (str s) h = Reads-map read_string str (put_str s) s (Reads-str s h)

Reads-entry : (e : Entry) → IsStoredEntry e → Reads read_entry (put_entry e) e
unfolding read_entry put_entry
Reads-entry (k, v) h = rw (put_value-tag v) (
    Reads-bind read_string _ (put_str k) (value_tag v ∷ value_body v) k (k, v) (Reads-str k h.0)
      (Reads-bind read_u8 _ (value_tag v ∷ []) (value_body v) (value_tag v) (k, v)
        (Reads-u8 (value_tag v))
        (Reads-map (read_value (value_tag v)) (λ w. (k, w)) (value_body v) v (Reads-value v h.1))))

entries-Reads : (p : ParamMap) → All IsStoredEntry p → All (λ e. Reads read_entry (put_entry e) e) p
entries-Reads p h = All-imp p Reads-entry h

and_then-params :
    (bs : Bytes) (p : ParamMap) (n : ℕ)
    → n ≡ length p
    → Reads (read_many n read_entry) bs p
    → IsSorted p
    → Reads (read_many n read_entry >>= λ es. pure (Param.new es)) bs p
and_then-params bs p n e h s =
    rw (new_of_IsSorted p s) at (Reads-map (read_many n read_entry) Param.new bs p h)

pub Reads-params : (p : ParamMap) → IsStoredMap p → Reads read_params (put_params p) p
unfolding read_params put_params put_list
Reads-params p h =
    Reads-bind read_u32 _ (put_u32 (as_u32 (length p))) (flat_map put_entry p) (length p) p
      (Reads-count (length p) h.short)
      (and_then-params (flat_map put_entry p) p (length p) refl
        (Reads-many read_entry put_entry p (entries-Reads p h.entries)) h.sorted)

Reads-input : (max i : ℕ) → i < max → max < 2 ^ 64 → Reads (read_input max) (put_u64 i) i
unfolding read_input
Reads-input max i h b rest = rw (Reads-u64 i (omega arith) rest) (ground arith)

pub Reads-inputs :
    (max : ℕ) (ins : List NodeId)
    → All (λ i. i < max) ins
    → length ins < 2 ^ 32
    → max < 2 ^ 64
    → Reads (read_inputs max) (put_inputs ins) ins
unfolding read_inputs put_inputs
Reads-inputs max ins h n b =
    Reads-list (read_input max) put_u64 ins n (All-imp ins (λ i lt. Reads-input max i lt b) h)

-- A reference that the member at `m_idx` may make.
abbrev pub IsRef : ℕ → StageRef → Type 0
IsRef m_idx (input i) = i < 2 ^ 32
IsRef m_idx (member i) = (i < m_idx) × (i < 2 ^ 32)

Reads-ref : (m_idx : ℕ) (r : StageRef) → IsRef m_idx r → Reads (read_ref m_idx) (put_ref r) r
unfolding read_ref put_ref
Reads-ref m_idx (input i) h =
    Reads-bind read_u8 _ (0 ∷ []) (put_u32 (as_u32 i)) 0 (input i) (Reads-u8 0)
      (Reads-map read_u32 input (put_u32 (as_u32 i)) i (Reads-count i h))
Reads-ref m_idx (member i) h =
    Reads-bind read_u8 _ (1 ∷ []) (put_u32 (as_u32 i)) 1 (member i) (Reads-u8 1)
      (λ rest. rw (Reads-count i h.1 rest) (ground arith))

pub record IsMember (m_idx : ℕ) (m : StageOp) : Type 0 where
  pub token : IsStr m.token
  pub short : length m.inputs < 2 ^ 32
  pub refs : All (IsRef m_idx) m.inputs

-- The members from `m_idx` on.
abbrev pub AreMembers : ℕ → List StageOp → Type 0
AreMembers m_idx [] = Unit
AreMembers m_idx (m ∷ ms) = IsMember m_idx m × AreMembers (suc m_idx) ms

Reads-member :
    (m_idx : ℕ) (m : StageOp) → IsMember m_idx m → Reads (read_member m_idx) (put_member m) m
unfolding read_member put_member put_list
Reads-member m_idx m h =
    Reads-bind read_string _ (put_str m.token) _ m.token m (Reads-str m.token h.token) (
      Reads-bind read_u32 _ (put_u32 (as_u32 (length m.inputs))) (flat_map put_ref m.inputs)
        (length m.inputs) m (Reads-count (length m.inputs) h.short)
        (Reads-map (read_many (length m.inputs) (read_ref m_idx)) _ (flat_map put_ref m.inputs)
          m.inputs
          (Reads-many (read_ref m_idx) put_ref m.inputs
            (All-imp m.inputs (λ r k. Reads-ref m_idx r k) h.refs))))

pub Reads-members :
    (m_idx : ℕ) (ms : List StageOp)
    → AreMembers m_idx ms
    → Reads (read_members (length ms) m_idx) (flat_map put_member ms) ms
unfolding read_members flat_map
Reads-members m_idx [] h = λ rest. refl
Reads-members m_idx (m ∷ ms) h =
    Reads-bind (read_member m_idx) _ (put_member m) (flat_map put_member ms) m (m ∷ ms)
      (Reads-member m_idx m h.0)
      (Reads-map (read_members (length ms) (suc m_idx)) (λ ns. m ∷ ns) (flat_map put_member ms) ms
        (Reads-members (suc m_idx) ms h.1))
