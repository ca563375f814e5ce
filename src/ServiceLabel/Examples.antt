-- ===== src/ServiceLabel/Examples.antt =====
-- A label set on a small service.
use dockpal_agent.Base.{[], ◌∷◌, ◌≡◌, refl, some, ok, if◌then◌else◌}
use dockpal_agent.Base.Bytes.{codes, equal, lookup}
use dockpal_agent.Compose.Spec as Spec
use dockpal_agent.Compose.Spec.{Value, Field}
use dockpal_agent.ServiceLabel.{
  Node, Nodes, nil, cons, node, document, alias, scalar, sequence, mapping, plain, plain_node,
  str_tag, labels_key, set_service_label_on_node,
}
use dockpal_agent.ServiceLabel.Decoded.{items, entries}
use dockpal_agent.ServiceLabel.Read.{Decoder, labels_of}

abbrev item : Node → Value
item (node scalar t v s c) = if equal t str_tag then Spec.str v else Spec.scalar v
item _ = Spec.null

abbrev field : Node → Field
field (node mapping t v s c) = Field.mapping (entries item c)
field (node sequence t v s c) = Field.seq (items item c)
field (node scalar t v s c) = Field.text v
field (node document t v s c) = Spec.other
field (node alias t v s c) = Spec.other

abbrev decoder : Decoder
unfolding equal
decoder = record {
  item = item;
  field = field;
  item_string = λ v s c. refl;
  field_sequence = λ t v s c. refl;
  field_mapping = λ t v s c h. refl;
}

-- image: nginx, and a list of labels
abbrev service : Nodes → Nodes
service labels = cons (plain_node (codes "image")) (
    cons (plain_node (codes "nginx"))
      (cons (plain_node labels_key) (cons (node sequence [] [] plain labels) nil)))

abbrev listed : Nodes
listed = service (cons (plain_node (codes "app=web")) nil)

abbrev listed_after : Nodes
listed_after = service (cons (plain_node (codes "app=db")) nil)

-- Of two items of the key, the first is set and the last is read.
abbrev twice : Nodes
twice = service (cons (plain_node (codes "app=web")) (cons (plain_node (codes "app=old")) nil))

abbrev twice_after : Nodes
twice_after = service (cons (plain_node (codes "app=db")) (cons (plain_node (codes "app=old")) nil))

first_is_set : set_service_label_on_node twice (codes "app") (codes "db") ≡ ok twice_after
unfolding set_service_label_on_node dockpal_agent.ServiceLabel.find_map_value equal
    dockpal_agent.ServiceLabel.set_labels dockpal_agent.ServiceLabel.set_in_sequence
    dockpal_agent.ServiceLabel.find_item dockpal_agent.Base.Bytes.has_prefix
    dockpal_agent.ServiceLabel.put_map_value dockpal_agent.ServiceLabel.put_item
first_is_set = refl

last_is_read : lookup (codes "app") (labels_of decoder twice_after) ≡ some (codes "old")
unfolding lookup labels_of Spec.parse_labels dockpal_agent.ServiceLabel.find_map_value
    Spec.labels_from_seq items Spec.label_entry dockpal_agent.Base.Bytes.split_first
    dockpal_agent.Base.Bytes.insert
last_is_read = refl
