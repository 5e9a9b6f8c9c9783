-- ===== src/Serialize/RoundTrip.antt =====
-- A store is read back from its bytes: the same nodes with the same ids, the same table, and the
-- outputs that were written.
use graphed_core_mvp.Base.{
  if◌then◌else◌, ℕ, suc, ◌+◌, ◌^◌, ◌<◌, ◌≡◌, refl, ap, ◌∙◌, List, [], ◌∷◌, ◌++◌, append-nil,
  append_assoc, arith, length, flat_map, All, All-imp, length-append, ok,
}
use graphed_core_mvp.Text.{text_eq}
use graphed_core_mvp.Node.{NodeId, NodeKey, inputs}
use graphed_core_mvp.Store.{Inner, empty, intern, intern_valid, add_key, mark_output, snapshot}
use graphed_core_mvp.Store.Arena.{Chain, enumerate, enumerate-push, first_bad-none, insert-none}
use graphed_core_mvp.Store.Reach.{Reach, Reach-IsValid, Reach-length}
use graphed_core_mvp.Store.Invariant.{Fits, IsNew, IsValid}
use graphed_core_mvp.Store.Outputs.{mark_output-nodes, mark_output-new}
use graphed_core_mvp.Serialize.Writer.{
  Bytes, magic, put_u32, put_u64, as_u32, put_list, put_node, serialize_with, serialize,
}
use graphed_core_mvp.Serialize.Reader.{
  fail, bad_magic, Read, read_u8, read_u32, read_u64, take_bytes,
}
use graphed_core_mvp.Serialize.Decode.{
  read_key, read_nodes, read_outputs, read_store, finish, deserialize,
}
use graphed_core_mvp.Serialize.Reads.{
  Reads, Reads-bind, Reads-take_bytes, Reads-u8, Reads-u64, Reads-count,
}
use graphed_core_mvp.Serialize.Keys.{IsStoredKey, key_tag, key_body, put_node-tag, Reads-key}

-- The store that holds these nodes and has no outputs.
abbrev pub arena_of : List NodeKey → Inner
arena_of ks = record { nodes = ks; table = enumerate 0 ks; outputs = [] }

add_key-Fits :
    (ks : List NodeKey) (k : NodeKey)
    → Fits ks k
    → add_key k (arena_of ks) ≡ (arena_of (ks ++ k ∷ []), ok (length ks))
unfolding add_key intern intern_valid
add_key-Fits ks k f = rw (
  first_bad-none (length ks) (inputs k) f.scoped,
  intern,
  f.fresh,
  intern_valid,
  insert-none k (length ks) (enumerate 0 ks) f.fresh,
  enumerate-push ks k,
)

-- Each key fits what was read before it, so the loop rebuilds the arena.
Reads-nodes :
    (pre ks : List NodeKey) (idx : ℕ)
    → idx ≡ length pre
    → length pre + length ks < 2 ^ 32
    → Chain Fits pre ks
    → All IsStoredKey ks
    → Reads
        (read_nodes (length ks) idx (arena_of pre))
        (flat_map put_node ks)
        (arena_of (pre ++ ks))
unfolding read_nodes flat_map
Reads-nodes pre [] idx e n c s = λ rest. rw append-nil
Reads-nodes pre (k ∷ ks) idx e n c s = rw (put_node-tag k) (
    Reads-bind read_u8 _ (key_tag k ∷ []) (key_body k ++ flat_map put_node ks) (key_tag k) _
      (Reads-u8 (key_tag k))
      (Reads-bind (read_key idx (key_tag k)) _ (key_body k) (flat_map put_node ks) k _
        (Reads-key idx (omega arith) k s.0 (rw e c.0.scoped))
        (λ rest. rw (add_key-Fits pre k c.0) (
          rw append_assoc at (
            Reads-nodes (pre ++ k ∷ []) ks (suc idx) (omega (arith, length-append {0} pre (k ∷ [])))
              (omega (arith, length-append {0} pre (k ∷ []))) c.1 s.1 rest)))))

-- The marks of a list of outputs, one after the other.
unfoldable pub mark_all : List NodeId → Inner → Inner
mark_all [] g = g
mark_all (o ∷ os) g = mark_all os (mark_output o g).0

mark_output-ok :
    (o : NodeId) (g : Inner) → o < length g.nodes → mark_output o g ≡ ((mark_output o g).0, ok tt)
unfolding mark_output
mark_output-ok o g h = ground arith

Reads-outputs :
    (outs : List NodeId) (g : Inner)
    → length g.nodes < 2 ^ 32
    → All (λ o. o < length g.nodes) outs
    → Reads (read_outputs (length outs) g) (flat_map put_u64 outs) (mark_all outs g)
unfolding read_outputs flat_map mark_all
Reads-outputs [] g n h = λ rest. refl
Reads-outputs (o ∷ outs) g n h =
    Reads-bind read_u64 _ (put_u64 o) (flat_map put_u64 outs) o _ (Reads-u64 o (omega arith))
      (λ rest. rw (mark_output-ok o g h.0) (
        Reads-outputs outs (mark_output o g).0 (rw (mark_output-nodes o g) n)
          (rw (mark_output-nodes o g) h.1) rest))

-- A store whose texts, numbers and lists fit the format.
pub record IsStored (g : Inner) : Type 0 where
  pub short : length g.nodes < 2 ^ 32
  pub keys : All IsStoredKey g.nodes

Reads-store :
    (g : Inner) (outs : List NodeId)
    → IsValid g
    → IsStored g
    → All (λ o. o < length g.nodes) outs
    → length outs < 2 ^ 32
    → Reads read_store
        (put_list put_node g.nodes ++ put_list put_u64 outs)
        (mark_all outs (arena_of g.nodes))
unfolding read_store put_list
Reads-store g outs v s h n = rw append_assoc (
    Reads-bind read_u32 _ (put_u32 (as_u32 (length g.nodes))) _ (length g.nodes) _
      (Reads-count (length g.nodes) s.short)
      (Reads-bind (read_nodes (length g.nodes) 0 empty) _ (flat_map put_node g.nodes) _
        (arena_of g.nodes) _ (Reads-nodes [] g.nodes 0 refl (omega (arith, s.short)) v.arena s.keys)
        (Reads-bind read_u32 _ (put_u32 (as_u32 (length outs))) (flat_map put_u64 outs)
          (length outs) _ (Reads-count (length outs) n)
          (Reads-outputs outs (arena_of g.nodes) s.short h))))

abbrev checked : Bytes → Read Inner
checked m = if text_eq m magic then read_store else fail bad_magic

-- What `serialize_with` writes for a valid store and outputs in range is read back as a store with
-- the same nodes and the same table, in which the given outputs are marked one after the other.
pub deserialize-serialize_with :
    (g : Inner) (outs : List NodeId)
    → IsValid g
    → IsStored g
    → All (λ o. o < length g.nodes) outs
    → length outs < 2 ^ 32
    → deserialize (serialize_with g outs) ≡ ok (mark_all outs (record g { outputs = [] }))
unfolding deserialize serialize_with snapshot
deserialize-serialize_with g outs v s h n =
    let body = put_list put_node g.nodes ++ put_list put_u64 outs in
    let whole =
      Reads-bind (take_bytes 4) checked magic body magic (mark_all outs (arena_of g.nodes))
        (Reads-take_bytes magic) (Reads-store g outs v s h n) [] in
    rw v.tabled (ap finish (rw append-nil at whole))

mark_all-IsNew :
    (outs : List NodeId) (g : Inner)
    → All (λ o. o < length g.nodes) outs
    → Chain IsNew g.outputs outs
    → mark_all outs g ≡ record g { outputs = g.outputs ++ outs }
unfolding mark_all
mark_all-IsNew [] g h c = rw append-nil
mark_all-IsNew (o ∷ outs) g h c =
    rw (mark_output-new o g h.0 c.0) (
      rw append_assoc at (mark_all-IsNew outs (record g { outputs = g.outputs ++ o ∷ [] }) h.1 c.1))

-- If a store is valid when its outputs are read, and fits the format when its nodes are read, it is
-- read back from the bytes with the nodes and the table that it had at the second time and the
-- outputs that it had at the first, whatever methods ran between the two: exactly as it was, if
-- none did.
pub deserialize-serialize :
    {seen now : Inner}
    → Reach seen now
    → IsValid seen
    → IsStored now
    → length seen.outputs < 2 ^ 32
    → deserialize (serialize seen now) ≡ ok (record now { outputs = seen.outputs })
unfolding serialize
deserialize-serialize {seen} {now} between v s n =
    let range : All (λ o. o < length now.nodes) seen.outputs =
      All-imp seen.outputs (λ o lt. omega (arith, Reach-length between)) v.in_range in
    deserialize-serialize_with now seen.outputs (Reach-IsValid between v) s range n
    ∙ ap ok (mark_all-IsNew seen.outputs (record now { outputs = [] }) range v.marked_once)
