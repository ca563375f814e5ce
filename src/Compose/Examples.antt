-- ===== src/Compose/Examples.antt =====
-- Runs of the sort and of the field parsers on small compose files.
use dockpal_agent.Base.{map, true, [], ◌∷◌, ◌≡◌, ◌≢◌, refl, All, ok}
use dockpal_agent.Base.Bytes.{codes, equal, keys, mem, lookup, contains_byte}
use dockpal_agent.Compose.Order.{Deps, State, done, cycle, out_of_fuel, topological_sort}
use dockpal_agent.Compose.Order.Sorted.{Ordered, topological_sort-Ordered}
use dockpal_agent.Compose.Order.Cycles.{Reaches, topological_sort-cycle, topological_sort-acyclic}
use dockpal_agent.Compose.Order.Total.{topological_sort_total}
use dockpal_agent.Compose.Spec.{
  pos, parse_port, VolumeMount, parse_volume, bind_of, seq, mapping, parse_labels, str,
}
use dockpal_agent.Compose.Spec.Ports.{parse_port_lem}
use dockpal_agent.Compose.Spec.Volumes.{bind_of-parse_volume}
use dockpal_agent.Compose.Spec.Labels.{as_item, as_pair, parse_labels_forms}

abbrev web_and_db : Deps
web_and_db =
    (codes "web", codes "db" ∷ codes "cache" ∷ [])
    ∷ (codes "db", [])
    ∷ (codes "cache", codes "db" ∷ [])
    ∷ []

abbrev sorted : State
sorted = record {
  visited = codes "web" ∷ codes "cache" ∷ codes "db" ∷ [];
  in_stack = [];
  order = codes "db" ∷ codes "cache" ∷ codes "web" ∷ [];
}

sort_example : topological_sort web_and_db ≡ done sorted
unfolding topological_sort dockpal_agent.Compose.Order.visit_all keys
    dockpal_agent.Compose.Order.visit mem lookup dockpal_agent.Compose.Order.remove
sort_example = refl

topological_sort-Ordered_example :
    Ordered web_and_db (codes "db" ∷ codes "cache" ∷ codes "web" ∷ [])
    × All (λ k. mem k (codes "db" ∷ codes "cache" ∷ codes "web" ∷ []) ≡ true) (keys web_and_db)
topological_sort-Ordered_example = topological_sort-Ordered web_and_db sorted sort_example

abbrev ring : Deps
ring = (codes "a", codes "b" ∷ []) ∷ (codes "b", codes "a" ∷ []) ∷ []

ring_refused : topological_sort ring ≡ cycle (codes "a")
unfolding topological_sort dockpal_agent.Compose.Order.visit_all keys
    dockpal_agent.Compose.Order.visit mem lookup
ring_refused = refl

topological_sort-cycle_example : Reaches ring (codes "a") (codes "a")
topological_sort-cycle_example = topological_sort-cycle ring (codes "a") ring_refused

topological_sort-acyclic_example : ¬ (Reaches web_and_db (codes "web") (codes "web"))
unfolding mem
topological_sort-acyclic_example =
    topological_sort-acyclic web_and_db sorted (codes "web") sort_example refl

topological_sort_total_example : topological_sort ring ≢ out_of_fuel
topological_sort_total_example = topological_sort_total ring

parse_port_example :
    (parse_port (codes "8080:80/udp")
      ≡ ok (record { host_port = pos 8080; container_port = pos 80; protocol = codes "udp" }))
    × (parse_port (codes "127.0.0.1:8080:80/udp")
        ≡ ok (record { host_port = pos 8080; container_port = pos 80; protocol = codes "udp" }))
unfolding dockpal_agent.Compose.Spec.atoi dockpal_agent.Compose.Spec.unsigned
    dockpal_agent.Compose.Spec.digits_value contains_byte
parse_port_example =
    parse_port_lem (codes "8080") (codes "80") (codes "udp") (pos 8080) (pos 80) refl refl refl
      (codes "127.0.0.1") refl

abbrev data_mount : VolumeMount
data_mount = record {
  host_path = codes "/srv/data";
  container_path = codes "/data";
  read_only = true;
}

bind_of-parse_volume_example :
    (vm : VolumeMount) × (parse_volume (codes "/srv/data:/data:ro,z") ≡ ok vm)
    × (bind_of vm ≡ codes "/srv/data:/data")
unfolding contains_byte equal
bind_of-parse_volume_example =
    bind_of-parse_volume (codes "/srv/data") (codes "/data") refl refl (codes "ro,z") refl

parse_labels_forms_example :
    parse_labels (seq (map as_item ((codes "a", codes "1") ∷ (codes "b", codes "x=y") ∷ [])))
    ≡ parse_labels (mapping (map as_pair ((codes "a", codes "1") ∷ (codes "b", codes "x=y") ∷ [])))
unfolding contains_byte
parse_labels_forms_example =
    parse_labels_forms ((codes "a", codes "1") ∷ (codes "b", codes "x=y") ∷ []) (refl, (refl, tt))
