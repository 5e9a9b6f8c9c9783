-- ===== src/Tests/Serials.antt =====
-- src/serialize.rs at small inputs.
use graphed_core_mvp.Base.{◌≡◌, refl, [], ◌∷◌, ◌++◌, drop, arith, ok, pos}
use graphed_core_mvp.Text.{codes}
use graphed_core_mvp.Text.Utf8.{is_utf8}
use graphed_core_mvp.Param.{int}
use graphed_core_mvp.Node.{NodeKey, source, reduction, key_eq, inputs}
use graphed_core_mvp.Store.{mark_output, contains, get, Inner}
use graphed_core_mvp.Store.Invariant.{IsValid}
use graphed_core_mvp.Store.Reach.{Reach, here, next, mark}
use graphed_core_mvp.Serialize.Writer.{magic, serialize, serialize_with}
use graphed_core_mvp.Serialize.Decode.{deserialize}
use graphed_core_mvp.Serialize.RoundTrip.{
  IsStored, mark_all, deserialize-serialize, deserialize-serialize_with,
}
use graphed_core_mvp.Serialize.Safe.{deserialize-IsValid}

abbrev jets : NodeKey
jets = source (0xc3 ∷ 0xa9 ∷ []) ((codes "n", int (pos 3)) ∷ [])

abbrev total : NodeKey
total = reduction (codes "sum") [] (0 ∷ [])

abbrev graph : Inner
graph = record {
  nodes = jets ∷ total ∷ [];
  table = (jets, 0) ∷ (total, 1) ∷ [];
  outputs = 1 ∷ 0 ∷ [];
}

graph-IsValid : IsValid graph
unfolding inputs key_eq get contains
graph-IsValid = record {
  arena = (
    record { fresh = refl; scoped = tt },
    (record { fresh = refl; scoped = (omega arith, tt) }, tt),
  );
  tabled = refl;
  in_range = (omega arith, (omega arith, tt));
  marked_once = (refl, (refl, tt));
}

graph-IsStored : IsStored graph
unfolding is_utf8
graph-IsStored = record {
  short = omega arith;
  keys = (
    (
      record { short = omega arith; valid = refl },
      record {
        sorted = (tt, tt);
        short = omega arith;
        entries = ((record { short = omega arith; valid = refl }, omega arith), tt);
      },
    ),
    (
      (
        record { short = omega arith; valid = refl },
        record { sorted = tt; short = omega arith; entries = tt },
        omega arith,
      ),
      tt,
    ),
  );
}

-- The store before its last output was marked.
abbrev marked : Inner
marked = record graph { outputs = 1 ∷ [] }

marked-graph : Reach marked graph
unfolding mark_output contains
marked-graph = next here (mark 0)

marked-IsValid : IsValid marked
unfolding contains
marked-IsValid = record {
  arena = arena;
  tabled = tabled;
  in_range = (omega arith, tt);
  marked_once = (refl, tt);
}
  where
    open graph-IsValid use {arena, tabled}

deserialize-serialize_example : deserialize (serialize marked graph) ≡ ok marked
deserialize-serialize_example =
    deserialize-serialize marked-graph marked-IsValid graph-IsStored (omega arith)

undisturbed : deserialize (serialize graph graph) ≡ ok graph
undisturbed = deserialize-serialize here graph-IsValid graph-IsStored (omega arith)

deserialize-serialize_with_example :
    deserialize (serialize_with graph (0 ∷ []))
    ≡ ok (mark_all (0 ∷ []) (record graph { outputs = [] }))
deserialize-serialize_with_example =
    deserialize-serialize_with graph (0 ∷ []) graph-IsValid graph-IsStored (omega arith, tt)
      (omega arith)

deserialize-IsValid_example :
    IsValid graph × (serialize graph graph ≡ magic ++ drop 4 (serialize graph graph))
deserialize-IsValid_example = deserialize-IsValid (serialize graph graph) graph undisturbed
