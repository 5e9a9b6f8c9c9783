-- ===== src/Lib.antt =====
-- graphed-core: a thread-safe interned graph IR (Rust), under src/ of the repository.
--
-- The program keeps a graph of sources, ops, reductions, external payloads and fused stages. Each
-- node is its structural key, equal keys share one id, and the graph is written to bytes, read
-- back, and reduced by an optimizer. The parts and the files that model them:
--
-- - Base: lists by native numbers, Boolean tests, `Result`; no code of its own.
-- - Text, Text.Number, Text.Utf8: what the crate uses of the standard library on strings: bytes,
--   `replace`, `split`, `splitn`, `join`, decimal and hexadecimal numbers, UTF-8.
-- - Param (src/param.rs): `ParamValue`, `ParamMap`, equality and hashing, tokens. A float is its
--   64 bits, an `i64` an integer with its range as a hypothesis. Child modules: Escape
--   (`escape_token`), Identity (`PartialEq`, `Hash`), Sorted (`ParamMap::new`), Token.
-- - Node (src/node.rs): `NodeKey` and its parts, `token`, `parse_op_token`, `with_inputs`. Child
--   modules: Identity (`==` of keys), Token.
-- - Store (src/store.rs): the state behind the mutex, `intern`, the `add_*` methods and
--   `mark_output`. A method takes the lock once, so it is a function on that state, and threads
--   are sequences of methods (Store.Reach). A hash table is a list of its entries that compares
--   keys by the modelled `==`. Child modules: Arena, Invariant, Intern, Sharing, Distinct,
--   Outputs, Reach.
-- - Serialize (src/serialize.rs): Writer (the `put_*` functions, `serialize`), Reader (`Reader`
--   with its position as the bytes that are left, an error as a value), Decode (the rest of
--   `deserialize`). A loop over a count is a recursion on it. Reads, Fields, Keys and RoundTrip
--   are on reading back what was written, Safe on what is accepted.
-- - Optimizer (src/optimizer). The passes are Dce (mod.rs, `dead_code_elimination`), Engine
--   (engine.rs, the rules and the extraction, with the classes that `egg` finds as a parameter),
--   Cse (`cse`), Stages and Fusion (`stage_fusion`: components, then nodes). Pipeline composes them
--   (`reduce_with_mode`, `finalize`, and from store.rs `from_reduced` and the `reduce` methods).
--   Incremental is incremental.rs (`IncrementalReducer`; Algebra, Canonical, Sound, Steps and Cuts
--   are on it).
-- - Optimizer.Values: what an arena computes, by a parameter for what one node does, since the
--   program that runs a graph is not in this crate. Meaning has it for keys, Graphs for an
--   `EngineGraph`, and Holds has indices that stand for values. On them are Dce.Sound (with Marks,
--   Live, Ranges, Compact, Order), Cse.Sound, Engine.Sound (with Classes) and Fusion.Outputs.
-- - Optimizer.Fusion.Semantics says what a fused stage computes (its members in their order, the
--   last one is the value) and which partitions may be fused; Places, Members, Build, Loop and
--   Sound follow the loop over the components, Stages.Consumers is on the tables that come
--   first, Fusion.Maximal, Stages.Union, Fusion.SingleUse and Fusion.Unite are on the partitions
--   that the two modes find, and Fusion.Outputs puts all together.
-- - Optimizer.Pipeline.Keys is on tokens and templates, Pipeline.Sound on the whole reduction,
--   Pipeline.Stores on the store that is built from it. A
--   `RewriteEngine` is a parameter there, and Engine.Sound is the `EggEngine` as one.
--   The marking loop of `dead_code_elimination` takes as fuel the number of outputs and of all
--   inputs, since each of them is pushed at most once. The loops of `Dsu::find` take the number of
--   nodes and one, since they go down (Stages.Find).
-- - Bindings (src/lib.rs): the methods of the Python classes that combine operations, on what pyo3
--   has converted. Sessions is on a reducer that is fed while threads build the store, View on
--   what `nodes` shows, which View.Reading reads back.
-- - Tests: runs at small inputs, and an instance of each theorem.
--
-- Loops over collections are recursions on lists. The decimal printer takes the fuel n + 1 for the
-- number n, which is enough since a digit divides n by ten.
--
-- Not modelled: equality saturation, which is the library `egg`; conversions from and to Python
-- objects, which are the library `pyo3`, and the methods of src/lib.rs that only pass their arguments
-- on; the poisoned state of a lock; what the allocator does, also with the space that `deserialize`
-- reserves for a count before it reads the items; `Display` and labels for graphviz.
pub mod Base
pub mod Text
pub mod Param
pub mod Node
pub mod Store
pub mod Serialize
pub mod Optimizer
pub mod Bindings
pub mod Tests
