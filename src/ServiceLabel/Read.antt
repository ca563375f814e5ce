-- ===== src/ServiceLabel/Read.antt =====
-- What parseLabels (internal/docker/compose.go) reads of the labels of a service behind
-- SetServiceLabel (internal/docker/compose_labels.go). The decoder of yaml.v3 is a parameter.
use dockpal_agent.Base.{ℕ, List, ◌∷◌, ◌++◌, ◌≡◌, Option, none, some}
use dockpal_agent.Base.Bytes.{Bytes, codes}
use dockpal_agent.Compose.Spec as Spec
use dockpal_agent.Compose.Spec.{Value, Field, str, seq, labels_from_map, parse_labels}
use dockpal_agent.ServiceLabel.{
  Style, sequence, mapping, scalar, Node, node, Nodes, str_tag, find_map_value, labels_key,
}
use dockpal_agent.ServiceLabel.Decoded.{items, entries, Quiet, Once, Keyed}

-- yaml.v3: what it makes of an item, or of the value of an entry, and of a service's labels. A scalar
-- tagged as a string is that string, a list is decoded item by item, and a mapping entry by entry, if
-- its keys are strings and none stands twice.
pub record Decoder : Type 0 where
  pub item : Node → Value
  pub field : Node → Field
  pub item_string : (v : Bytes) (s : Style) (c : Nodes) → item (node scalar str_tag v s c) ≡ str v
  pub field_sequence :
      (t v : Bytes) (s : Style) (c : Nodes) → field (node sequence t v s c) ≡ seq (items item c)
  pub field_mapping :
      (t v : Bytes) (s : Style) (c : Nodes)
      → Keyed c
      → field (node mapping t v s c) ≡ Field.mapping (entries item c)

abbrev field_in : Decoder → Option Node → Field
field_in d none = Spec.other
field_in d (some n) = d.field n

-- The labels of a service, as DeployCompose reads them.
unfoldable pub labels_of : Decoder → Nodes → List (Bytes × Bytes)
labels_of d svc = parse_labels (field_in d (find_map_value labels_key svc))

-- What the labels are before: a mapping that can be decoded; or a list in which one item at most is of
-- the key, by what SetServiceLabel takes for one, and no other item gives a label of the key.
unfoldable pub Fits : Decoder → Bytes → Option Node → Type 0
Fits d key (some (node mapping t v s c)) = Keyed c
Fits d key (some (node sequence t v s c)) = Once key c × Quiet d.item key c
Fits d key _ = Unit

module _ (d : Decoder) (key : Bytes) (b : ℕ) (bs : Bytes) where
  entry : Bytes
  entry = key ++ (codes "=" ++ b ∷ bs)
