-- ===== src/Serialize/Writer.antt =====
-- The writer. Each `put_*` is given as the bytes that it appends to `out`.
use graphed_core_mvp.Base.{
  ℕ, zero, suc, ◌-◌, ◌/◌, ◌%◌, ◌^◌, true, false, List, [], ◌∷◌, ◌++◌, Option, none, some, length,
  flat_map, ℤ, pos, negsuc,
}
use graphed_core_mvp.Text.{Text, codes}
use graphed_core_mvp.Param.{ParamValue, int, float, boolean, str, Entry, ParamMap}
use graphed_core_mvp.Node.{
  NodeId, PayloadDescriptor, StageRef, input, member, StageOp, NodeKey, source, op, reduction,
  external, stage,
}
use graphed_core_mvp.Store.{Inner, snapshot}

abbrev pub Bytes : Type 0
Bytes = List ℕ

abbrev pub magic : Bytes
magic = codes "GIR1"

-- The lowest `k` bytes of `v`, the lowest first.
unfoldable pub le_bytes : ℕ → ℕ → Bytes
le_bytes zero v = []
le_bytes (suc k) v = v % 256 ∷ le_bytes k (v / 256)

abbrev pub as_u32 : ℕ → ℕ
as_u32 n = n % 2 ^ 32

unfoldable pub put_u32 : ℕ → Bytes
put_u32 v = le_bytes 4 v

unfoldable pub put_u64 : ℕ → Bytes
put_u64 v = le_bytes 8 v

unfoldable pub put_str : Text → Bytes
put_str s = put_u32 (as_u32 (length s)) ++ s

-- `i as u64`: the bits of an `i64` in two's complement.
unfoldable pub int_bits : ℤ → ℕ
int_bits (pos n) = n
int_bits (negsuc n) = 2 ^ 64 - 1 - n

unfoldable pub put_value : ParamValue → Bytes
put_value (int i) = 0 ∷ put_u64 (int_bits i)
put_value (float x) = 1 ∷ put_u64 x
put_value (boolean true) = 2 ∷ 1 ∷ []
put_value (boolean false) = 2 ∷ 0 ∷ []
put_value (str s) = 3 ∷ put_str s

unfoldable pub put_entry : Entry → Bytes
put_entry (k, v) = put_str k ++ put_value v

-- A count and the items, one after the other.
unfoldable pub put_list {ℓ} : {A : Type ℓ} → (A → Bytes) → List A → Bytes
put_list put xs = put_u32 (as_u32 (length xs)) ++ flat_map put xs

unfoldable pub put_params : ParamMap → Bytes
put_params p = put_list put_entry p

unfoldable pub put_inputs : List NodeId → Bytes
put_inputs ins = put_list put_u64 ins

unfoldable pub put_ref : StageRef → Bytes
put_ref (input i) = 0 ∷ put_u32 (as_u32 i)
put_ref (member i) = 1 ∷ put_u32 (as_u32 i)

unfoldable pub put_member : StageOp → Bytes
put_member m = put_str m.token ++ put_list put_ref m.inputs

unfoldable pub put_option : Option Text → Bytes
put_option (some s) = 1 ∷ put_str s
put_option none = 0 ∷ []

unfoldable pub put_descriptor : PayloadDescriptor → Bytes
put_descriptor d =
    put_str d.kind
    ++ (put_str d.content_hash
        ++ (put_str d.framework
            ++ (put_str d.version ++ (put_str d.io_schema ++ put_option d.preprocessing_ref))))

unfoldable pub put_node : NodeKey → Bytes
put_node (source n p) = 0 ∷ (put_str n ++ put_params p)
put_node (op n p ins) = 1 ∷ (put_str n ++ (put_params p ++ put_inputs ins))
put_node (reduction n p ins) = 2 ∷ (put_str n ++ (put_params p ++ put_inputs ins))
put_node (external d p ins) = 3 ∷ (put_descriptor d ++ (put_params p ++ put_inputs ins))
put_node (stage ins ms) = 4 ∷ (put_inputs ins ++ put_list put_member ms)

unfoldable pub serialize_with : Inner → List NodeId → Bytes
serialize_with g outs =
    let (nodes, _) = snapshot g in magic ++ (put_list put_node nodes ++ put_list put_u64 outs)

-- `serialize` takes the lock twice: `seen` is the store when its outputs are read, `now` when its
-- nodes are.
unfoldable pub serialize : Inner → Inner → Bytes
serialize seen now = serialize_with now seen.outputs
