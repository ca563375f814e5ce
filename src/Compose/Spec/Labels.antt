-- ===== src/Compose/Spec/Labels.antt =====
-- The two forms of a labels field, for `parseLabels` of internal/docker/compose.go.
use dockpal_agent.Base.{false, List, [], ◌∷◌, ◌++◌, map, ◌≡◌, refl, All}
use dockpal_agent.Base.Bytes.{Bytes, contains_byte, insert}
use dockpal_agent.Base.Bytes.Laws.{split_first-append}
use dockpal_agent.Compose.Spec.{
  Value, str, seq, mapping, render, label_entry, labels_from_seq, labels_from_map, parse_labels,
}

abbrev pub as_item : Bytes × Bytes → Value
as_item kv = str (kv.0 ++ (b'=' ∷ kv.1))

abbrev pub as_pair : Bytes × Bytes → Bytes × Value
as_pair kv = (kv.0, str kv.1)

labels_from_seq-eq-map :
    (kvs m : List (Bytes × Bytes))
    → All (λ kv. contains_byte kv.0 b'=' ≡ false) kvs
    → labels_from_seq (map as_item kvs) m ≡ labels_from_map (map as_pair kvs) m
unfolding labels_from_seq labels_from_map label_entry render
labels_from_seq-eq-map [] m h = refl
labels_from_seq-eq-map ((k, v) ∷ kvs) m h =
    rw (split_first-append b'=' k v h.0) (labels_from_seq-eq-map kvs (insert k v m) h.1)

-- A list of key=value items gives the same labels as the map of these keys and values, if no key
-- has an equals sign in it.
pub parse_labels_forms :
    (kvs : List (Bytes × Bytes))
    → All (λ kv. contains_byte kv.0 b'=' ≡ false) kvs
    → parse_labels (seq (map as_item kvs)) ≡ parse_labels (mapping (map as_pair kvs))
unfolding parse_labels
parse_labels_forms kvs h = labels_from_seq-eq-map kvs [] h
