-- ===== src/Serialize/Decode.antt =====
-- `deserialize`: a store is filled node by node, in the order of the bytes.
use graphed_core_mvp.Base.{
  ℕ, zero, suc, List, [], ◌∷◌, Option, none, some, leb, ◌==◌, if◌then◌else◌, Result, ok, err,
}
use graphed_core_mvp.Text.{Text, text_eq}
use graphed_core_mvp.Node.{
  PayloadDescriptor, StageRef, input, member, StageOp, NodeKey, source, op, reduction, external,
  stage,
}
use graphed_core_mvp.Store.{Inner, empty, add_key, mark_output, BadNodeId, bad_node_id}
use graphed_core_mvp.Serialize.Writer.{Bytes, magic}
use graphed_core_mvp.Serialize.Reader.{
  DecodeError, bad_magic, bad_tag, bad_node_ref, Read, pure, fail, ◌>>=◌, take_bytes, read_u8,
  read_u32, read_u64, read_string, read_many, read_params, read_inputs,
}

-- A reference of the member at `m_idx`; a member may be named only by later ones.
unfoldable pub read_ref : ℕ → Read StageRef
read_ref m_idx = do
  rtag ← read_u8
  v ← read_u32
  if rtag == 0
      then pure (input v)
      else if rtag == 1
      then (if leb m_idx v then fail (bad_node_ref v) else pure (member v))
      else fail (bad_tag "stage-ref" rtag)

unfoldable pub read_member : ℕ → Read StageOp
read_member m_idx = do
  token ← read_string
  n_refs ← read_u32
  refs ← read_many n_refs (read_ref m_idx)
  pure (record { token = token; inputs = refs })

-- The members from `m_idx` on.
unfoldable pub read_members : ℕ → ℕ → Read (List StageOp)
read_members zero m_idx = pure []
read_members (suc n) m_idx = do
  m ← read_member m_idx
  ms ← read_members n (suc m_idx)
  pure (m ∷ ms)

unfoldable pub read_option : Read (Option Text)
read_option = do b ← read_u8; if b == 0 then pure none else (do s ← read_string; pure (some s))

unfoldable pub read_descriptor : Read PayloadDescriptor
read_descriptor = do
  kind ← read_string
  content_hash ← read_string
  framework ← read_string
  version ← read_string
  io_schema ← read_string
  preprocessing_ref ← read_option
  pure (record {
    kind = kind;
    content_hash = content_hash;
    framework = framework;
    version = version;
    io_schema = io_schema;
    preprocessing_ref = preprocessing_ref;
  })

-- The key of the node `idx`, behind its tag.
unfoldable pub read_key : ℕ → ℕ → Read NodeKey
read_key idx tag =
    if tag == 0
    then (do name ← read_string; params ← read_params; pure (source name params))
    else if tag == 1
    then (do
      name ← read_string
      params ← read_params
      inputs ← read_inputs idx
      pure (op name params inputs))
    else if tag == 2
    then (do
      name ← read_string
      params ← read_params
      inputs ← read_inputs idx
      pure (reduction name params inputs))
    else if tag == 3
    then (do
      descriptor ← read_descriptor
      params ← read_params
      inputs ← read_inputs idx
      pure (external descriptor params inputs))
    else if tag == 4
    then (do
      inputs ← read_inputs idx
      n_members ← read_u32
      members ← read_members n_members 0
      pure (stage inputs members))
    else fail (bad_tag "node" tag)

-- `.map_err(|e| DecodeError::BadNodeRef(e.0))?` after a method of the store.
abbrev pub or_bad_ref {ℓ} : {A : Type ℓ} → Inner × Result BadNodeId A → Read Inner
or_bad_ref (g, ok a) = pure g
or_bad_ref (g, err (bad_node_id b)) = fail (bad_node_ref b)

-- The nodes from `idx` on.
unfoldable pub read_nodes : ℕ → ℕ → Inner → Read Inner
read_nodes zero idx g = pure g
read_nodes (suc n) idx g = do
  tag ← read_u8
  key ← read_key idx tag
  h ← or_bad_ref (add_key key g)
  read_nodes n (suc idx) h

unfoldable pub read_outputs : ℕ → Inner → Read Inner
read_outputs zero g = pure g
read_outputs (suc n) g = do o ← read_u64; h ← or_bad_ref (mark_output o g); read_outputs n h

-- What follows the magic number.
unfoldable pub read_store : Read Inner
read_store = do
  n_nodes ← read_u32
  g ← read_nodes n_nodes 0 empty
  n_out ← read_u32
  read_outputs n_out g

abbrev pub finish : Result DecodeError (Inner × Bytes) → Result DecodeError Inner
finish (ok (g, rest)) = ok g
finish (err e) = err e

unfoldable pub deserialize : Bytes → Result DecodeError Inner
deserialize data_bytes =
    finish
      ((do m ← take_bytes 4; if text_eq m magic then read_store else fail bad_magic) data_bytes)
