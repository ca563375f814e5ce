-- ===== src/ServiceLabel.antt =====
-- internal/docker/compose_labels.go: `SetServiceLabel` on the tree of yaml.v3. A node's fields that
-- the code neither reads nor writes (comments, anchors, positions) are left out; what it writes
-- through a pointer into the tree is put back at the pointer's place. The parser and the printer of
-- yaml.v3 are parameters.
pub mod Decoded
pub mod Entries
pub mod Read
mod Examples
use dockpal_agent.Base.{
  ℕ, ◌+◌, Bool, true, false, ◌&&◌, ◌||◌, List, [], ◌∷◌, ◌++◌, Option, none, some, Result, ok, err,
  ◌>>=◌, if◌then◌else◌,
}
use dockpal_agent.Base.Bytes.{Bytes, codes, equal, has_prefix}

pub data Kind : Type 0 where
  document sequence mapping scalar alias : Kind

pub data Style : Type 0 where
  plain double_quoted other : Style

-- yaml.Node: Kind, Tag, Value, Style and Content
mutual
  pub data Node : Type 0 where
    node : Kind → Bytes → Bytes → Style → Nodes → Node

  pub data Nodes : Type 0 where
    nil : Nodes
    cons : Node → Nodes → Nodes

abbrev pub kind : Node → Kind
kind (node k t v s c) = k

abbrev pub value_of : Node → Bytes
value_of (node k t v s c) = v

abbrev pub content : Node → Nodes
content (node k t v s c) = c

abbrev with_content : Node → Nodes → Node
with_content (node k t v s c) c' = node k t v s c'

abbrev pub append : Nodes → Nodes → Nodes
append nil c = c
append (cons n ns) c = cons n (append ns c)

abbrev is_mapping : Kind → Bool
is_mapping mapping = true
is_mapping _ = false

abbrev is_scalar : Kind → Bool
is_scalar scalar = true
is_scalar _ = false

-- findYAMLMapValue on the content of a mapping node: the keys stand at the even places
unfoldable pub find_map_value : Bytes → Nodes → Option Node
find_map_value key (cons k (cons v rest)) =
    if equal (value_of k) key then some v else find_map_value key rest
find_map_value key _ = none

-- removeYAMLMapEntry on the content of a mapping node
unfoldable pub remove_map_entry : Bytes → Nodes → Nodes
remove_map_entry key (cons k (cons v rest)) =
    if equal (value_of k) key then rest else cons k (cons v (remove_map_entry key rest))
remove_map_entry key c = c

-- a write through the pointer that findYAMLMapValue returned
unfoldable pub put_map_value : Bytes → Node → Nodes → Nodes
put_map_value key new (cons k (cons v rest)) =
    if equal (value_of k) key
    then cons k (cons new rest)
    else cons k (cons v (put_map_value key new rest))
put_map_value key new c = c

abbrev pub str_tag : Bytes
str_tag = codes "!!str"

abbrev pub plain_node : Bytes → Node
plain_node v = node scalar str_tag v plain nil

-- newLabelStringNode
abbrev pub new_label_string_node : Bytes → Node
new_label_string_node v = node scalar str_tag v double_quoted nil

-- vn.Kind, vn.Tag, vn.Value and vn.Style are set; its content stays
abbrev pub set_string : Node → Bytes → Node
set_string (node k t v s c) new = node scalar str_tag new double_quoted c

-- labelsVal.Content[idx].Tag and .Value are set
abbrev pub set_item : Node → Bytes → Node
set_item (node k t v s c) new = node k str_tag new s c

abbrev pub pair : Bytes → Bytes → Nodes
pair key value = cons (plain_node key) (cons (new_label_string_node value) nil)

-- the test of the loop over a sequence of labels
abbrev pub item_matches : Bytes → Node → Bool
item_matches key item =
    is_scalar (kind item)
    && (equal (value_of item) key || has_prefix (value_of item) (key ++ codes "="))

-- the item at the first index that matches
unfoldable pub find_item : Bytes → Nodes → Option Node
find_item key nil = none
find_item key (cons n ns) = if item_matches key n then some n else find_item key ns

unfoldable pub remove_item : Bytes → Nodes → Nodes
remove_item key nil = nil
remove_item key (cons n ns) = if item_matches key n then ns else cons n (remove_item key ns)

unfoldable pub put_item : Bytes → Node → Nodes → Nodes
put_item key new nil = nil
put_item key new (cons n ns) =
    if item_matches key n then cons new ns else cons n (put_item key new ns)

abbrev pub labels_key : Bytes
labels_key = codes "labels"

-- `if len(labelsVal.Content) == 0 { removeYAMLMapEntry(svc, "labels") }`
abbrev put_or_drop : Nodes → Node → Nodes → Nodes
put_or_drop svc labels nil = remove_map_entry labels_key svc
put_or_drop svc labels (cons n ns) = put_map_value labels_key (with_content labels (cons n ns)) svc

-- `case yaml.MappingNode`
unfoldable pub set_in_mapping : Nodes → Node → Bytes → Bytes → Nodes
set_in_mapping svc labels key [] = put_or_drop svc labels (remove_map_entry key (content labels))
set_in_mapping svc labels key (b ∷ bs) = elim (find_map_value key (content labels)) [
  | some vn ↦
      put_map_value labels_key
        (with_content labels (put_map_value key (set_string vn (b ∷ bs)) (content labels))) svc
  | none ↦
      put_map_value labels_key (with_content labels (append (content labels) (pair key (b ∷ bs))))
        svc
]

-- `case yaml.SequenceNode`
unfoldable pub set_in_sequence : Nodes → Node → Bytes → Bytes → Nodes
set_in_sequence svc labels key [] = put_or_drop svc labels (remove_item key (content labels))
set_in_sequence svc labels key (b ∷ bs) =
    let entry = key ++ (codes "=" ++ b ∷ bs) in
    elim (find_item key (content labels)) [
      | some item ↦
          put_map_value labels_key
            (with_content labels (put_item key (set_item item entry) (content labels))) svc
      | none ↦
          put_map_value labels_key
            (with_content labels (append (content labels) (cons (plain_node entry) nil))) svc
    ]

-- `case yaml.ScalarNode`
unfoldable pub set_in_scalar : Nodes → Bytes → Bytes → Nodes
set_in_scalar svc key [] = svc
set_in_scalar svc key (b ∷ bs) =
    put_map_value labels_key (node mapping (codes "!!map") [] plain (pair key (b ∷ bs))) svc

-- no labels yet
unfoldable pub add_labels : Nodes → Bytes → Bytes → Nodes
add_labels svc key [] = svc
add_labels svc key (b ∷ bs) = append svc (
    cons (plain_node labels_key)
      (cons (node mapping (codes "!!map") [] plain (pair key (b ∷ bs))) nil))

unfoldable pub set_labels : Nodes → Node → Kind → Bytes → Bytes → Result Nodes
set_labels svc labels mapping key value = ok (set_in_mapping svc labels key value)
set_labels svc labels sequence key value = ok (set_in_sequence svc labels key value)
set_labels svc labels scalar key value = ok (set_in_scalar svc key value)
set_labels svc labels document key value = err (codes "unsupported labels node kind 1")
set_labels svc labels alias key value = err (codes "unsupported labels node kind 16")

-- setServiceLabelOnNode, on the content of a service's mapping node
unfoldable pub set_service_label_on_node : Nodes → Bytes → Bytes → Result Nodes
set_service_label_on_node svc key value = elim (find_map_value labels_key svc) [
  | none ↦ ok (add_labels svc key value)
  | some labels ↦ set_labels svc labels (kind labels) key value
]

-- the loop over the services; one that is no mapping is passed over
unfoldable pub set_on_services : Bytes → Bytes → Nodes → Result Nodes
set_on_services key value (cons k (cons svc rest)) =
    let one : Result Nodes =
      if is_mapping (kind svc)
      then set_service_label_on_node (content svc) key value
      else ok (content svc) in
    one >>= λ c.
    set_on_services key value rest >>= λ rest'. ok (cons k (cons (with_content svc c) rest'))
set_on_services key value c = ok c

abbrev no_services : Bytes
no_services = codes "no services defined in compose file"

unfoldable pub set_in_services_node : Bytes → Bytes → Node → Result Node
set_in_services_node key value (node mapping t v s nil) = err no_services
set_in_services_node key value (node mapping t v s (cons n ns)) =
    set_on_services key value (cons n ns) >>= λ c. ok (node mapping t v s c)
set_in_services_node key value _ = err (codes "services is not a mapping")

unfoldable pub set_in_root : Bytes → Bytes → Node → Result Node
set_in_root key value (node mapping t v s c) = elim (find_map_value (codes "services") c) [
  | none ↦ err no_services
  | some services ↦ set_in_services_node key value services >>= λ services'.
      ok (node mapping t v s (put_map_value (codes "services") services' c))
]
set_in_root key value _ = err (codes "compose root is not a mapping")

unfoldable pub set_in_document : Bytes → Bytes → Node → Result Node
set_in_document key value (node document t v s (cons root rest)) =
    set_in_root key value root >>= λ root'. ok (node document t v s (cons root' rest))
set_in_document key value _ = err (codes "empty compose YAML")

unfoldable pub set_service_label :
    (Bytes → Result Node) → (Node → Result Bytes) → Bytes → Bytes → Bytes → Result Bytes
set_service_label unmarshal marshal yaml [] value = err (codes "label key must not be empty")
set_service_label unmarshal marshal yaml (b ∷ bs) value =
    unmarshal yaml >>= λ doc. set_in_document (b ∷ bs) value doc >>= marshal
