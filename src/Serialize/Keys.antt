-- ===== src/Serialize/Keys.antt =====
-- Whole keys are read back as they were written.
use graphed_core_mvp.Base.{
  ℕ, ◌^◌, ◌<◌, ◌≡◌, refl, [], ◌∷◌, ◌++◌, Option, none, some, length, flat_map, All,
}
use graphed_core_mvp.Text.{Text}
use graphed_core_mvp.Node.{
  PayloadDescriptor, NodeKey, source, op, reduction, external, stage, inputs,
}
use graphed_core_mvp.Serialize.Writer.{
  Bytes, put_u32, as_u32, put_str, put_params, put_inputs, put_list, put_member, put_option,
  put_descriptor, put_node,
}
use graphed_core_mvp.Serialize.Reader.{read_u8, read_u32, read_string, read_params, read_inputs}
use graphed_core_mvp.Serialize.Decode.{read_members, read_option, read_descriptor, read_key}
use graphed_core_mvp.Serialize.Reads.{
  Reads, Reads-bind, Reads-map, Reads-u8, Reads-count, IsStr, Reads-str,
}
use graphed_core_mvp.Serialize.Fields.{
  IsStoredMap, Reads-params, Reads-inputs, AreMembers, Reads-members,
}

abbrev pub IsStoredOption : Option Text → Type 0
IsStoredOption none = Unit
IsStoredOption (some s) = IsStr s

pub record IsStoredDescriptor (d : PayloadDescriptor) : Type 0 where
  pub kind : IsStr d.kind
  pub content_hash : IsStr d.content_hash
  pub framework : IsStr d.framework
  pub version : IsStr d.version
  pub io_schema : IsStr d.io_schema
  pub preprocessing_ref : IsStoredOption d.preprocessing_ref

Reads-option : (o : Option Text) → IsStoredOption o → Reads read_option (put_option o) o
unfolding read_option put_option
Reads-option none h = Reads-bind read_u8 _ (0 ∷ []) [] 0 none (Reads-u8 0) (λ rest. refl)
Reads-option (some s) h =
    Reads-bind read_u8 _ (1 ∷ []) (put_str s) 1 (some s) (Reads-u8 1)
      (Reads-map read_string some (put_str s) s (Reads-str s h))

Reads-descriptor :
    (d : PayloadDescriptor) → IsStoredDescriptor d → Reads read_descriptor (put_descriptor d) d
unfolding read_descriptor put_descriptor
Reads-descriptor d h =
    Reads-bind read_string _ (put_str d.kind) _ d.kind d (Reads-str d.kind h.kind) (
      Reads-bind read_string _ (put_str d.content_hash) _ d.content_hash d
        (Reads-str d.content_hash h.content_hash)
        (Reads-bind read_string _ (put_str d.framework) _ d.framework d
          (Reads-str d.framework h.framework)
          (Reads-bind read_string _ (put_str d.version) _ d.version d
            (Reads-str d.version h.version)
            (Reads-bind read_string _ (put_str d.io_schema) _ d.io_schema d
              (Reads-str d.io_schema h.io_schema)
              (Reads-map read_option _ (put_option d.preprocessing_ref) d.preprocessing_ref
                (Reads-option d.preprocessing_ref h.preprocessing_ref))))))

-- A key whose texts, numbers and lists fit the format. Inputs are another matter.
abbrev pub IsStoredKey : NodeKey → Type 0
IsStoredKey (source n p) = IsStr n × IsStoredMap p
IsStoredKey (op n p ins) = IsStr n × IsStoredMap p × (length ins < 2 ^ 32)
IsStoredKey (reduction n p ins) = IsStr n × IsStoredMap p × (length ins < 2 ^ 32)
IsStoredKey (external d p ins) = IsStoredDescriptor d × IsStoredMap p × (length ins < 2 ^ 32)
IsStoredKey (stage ins ms) = (length ins < 2 ^ 32) × (length ms < 2 ^ 32) × AreMembers 0 ms

-- The tag of a key, and what stands behind it.
abbrev pub key_tag : NodeKey → ℕ
key_tag (source n p) = 0
key_tag (op n p ins) = 1
key_tag (reduction n p ins) = 2
key_tag (external d p ins) = 3
key_tag (stage ins ms) = 4

abbrev pub key_body : NodeKey → Bytes
key_body (source n p) = put_str n ++ put_params p
key_body (op n p ins) = put_str n ++ (put_params p ++ put_inputs ins)
key_body (reduction n p ins) = put_str n ++ (put_params p ++ put_inputs ins)
key_body (external d p ins) = put_descriptor d ++ (put_params p ++ put_inputs ins)
key_body (stage ins ms) = put_inputs ins ++ put_list put_member ms

pub put_node-tag : (k : NodeKey) → put_node k ≡ key_tag k ∷ key_body k
unfolding put_node
put_node-tag (source n p) = refl
put_node-tag (op n p ins) = refl
put_node-tag (reduction n p ins) = refl
put_node-tag (external d p ins) = refl
put_node-tag (stage ins ms) = refl

module _ (idx : ℕ) (short : idx < 2 ^ 64) where
  pub Reads-key :
      (k : NodeKey)
      → IsStoredKey k
      → All (λ i. i < idx) (inputs k)
      → Reads (read_key idx (key_tag k)) (key_body k) k
  unfolding read_key inputs put_list
  Reads-key (source n p) h b =
      Reads-bind read_string _ (put_str n) (put_params p) n (source n p) (Reads-str n h.0)
        (Reads-map read_params (source n) (put_params p) p (Reads-params p h.1))
  Reads-key (op n p ins) h b =
      Reads-bind read_string _ (put_str n) _ n (op n p ins) (Reads-str n h.0) (
        Reads-bind read_params _ (put_params p) (put_inputs ins) p (op n p ins) (Reads-params p h.1)
          (Reads-map (read_inputs idx) (op n p) (put_inputs ins) ins
            (Reads-inputs idx ins b h.2 short)))
  Reads-key (reduction n p ins) h b =
      Reads-bind read_string _ (put_str n) _ n (reduction n p ins) (Reads-str n h.0) (
        Reads-bind read_params _ (put_params p) (put_inputs ins) p (reduction n p ins)
          (Reads-params p h.1)
          (Reads-map (read_inputs idx) (reduction n p) (put_inputs ins) ins
            (Reads-inputs idx ins b h.2 short)))
  Reads-key (external d p ins) h b =
      Reads-bind read_descriptor _ (put_descriptor d) _ d (external d p ins)
        (Reads-descriptor d h.0)
        (Reads-bind read_params _ (put_params p) (put_inputs ins) p (external d p ins)
          (Reads-params p h.1)
          (Reads-map (read_inputs idx) (external d p) (put_inputs ins) ins
            (Reads-inputs idx ins b h.2 short)))
  Reads-key (stage ins ms) h b =
      Reads-bind (read_inputs idx) _ (put_inputs ins) _ ins (stage ins ms)
        (Reads-inputs idx ins b h.0 short)
        (Reads-bind read_u32 _ (put_u32 (as_u32 (length ms))) (flat_map put_member ms) (length ms)
          (stage ins ms) (Reads-count (length ms) h.1)
          (Reads-map (read_members (length ms) 0) (stage ins) (flat_map put_member ms) ms
            (Reads-members 0 ms h.2)))
