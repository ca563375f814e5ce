-- ===== src/Apps/Examples.antt =====
-- Two containers of one service.
use dockpal_agent.Base.{ℕ, true, false, [], ◌∷◌, ◌≡◌, refl, some, ok, any}
use dockpal_agent.Base.Bytes.{Bytes, codes, equal}
use dockpal_agent.Apps.{Item, ContainerInfo, info, merged, accumulate, list_apps}
use dockpal_agent.Apps.Grouped.{auto_of, service_at, is_auto_of, first_of, accumulate_lem}

abbrev older : Item
older = record {
  id = codes "0123456789abcdef";
  names = codes "/shop-web-1" ∷ [];
  image = codes "web:1";
  state = codes "exited";
  labels = (codes "dockpal.project", codes "shop") ∷ (codes "dockpal.service", codes "web") ∷ [];
}

abbrev newer : Item
newer = record {
  id = codes "fedcba9876543210";
  names = codes "/shop-web-2" ∷ [];
  image = codes "web:2";
  state = codes "running";
  labels =
      (codes "com.docker.compose.project", codes "shop")
      ∷ (codes "com.docker.compose.service", codes "web")
      ∷ (codes "dockpal.auto-update", codes "true")
      ∷ [];
}

accumulate_lem_example :
    (auto_of (codes "shop") (accumulate (info older ∷ info newer ∷ []) [])
      ≡ any (is_auto_of (codes "shop")) (info older ∷ info newer ∷ []))
    × (service_at (codes "shop") (codes "web") (accumulate (info older ∷ info newer ∷ []) [])
        ≡ first_of (codes "shop") (codes "web") (info older ∷ info newer ∷ []))
unfolding equal
accumulate_lem_example =
    accumulate_lem (codes "shop") (codes "web") (info older ∷ info newer ∷ []) refl

-- A container in both lists counts once; the older container is the service, and the newer one sets
-- the project to update itself.
one_app :
    list_apps (λ key. ok (older ∷ newer ∷ []))
    ≡ ok (
        record {
          name = codes "shop";
          services =
              record { name = codes "web"; image = codes "web:1"; state = codes "exited" } ∷ [];
          auto_update = true;
        }
        ∷ [])
unfolding list_apps dockpal_agent.Apps.list_containers_with_label dockpal_agent.Apps.sort_by
    accumulate merged dockpal_agent.Apps.unseen equal info dockpal_agent.Apps.truncate_id
    dockpal_agent.Exec.take dockpal_agent.Base.Bytes.mem dockpal_agent.Apps.add_container
    dockpal_agent.Apps.project_of dockpal_agent.Base.Bytes.lookup dockpal_agent.Base.Bytes.insert
    dockpal_agent.Apps.place dockpal_agent.Apps.app_of dockpal_agent.Apps.first_name
    dockpal_agent.Apps.is_auto dockpal_agent.Apps.less dockpal_agent.Apps.service_name
    dockpal_agent.Apps.updated
one_app = refl
