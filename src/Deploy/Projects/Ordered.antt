-- ===== src/Deploy/Projects/Ordered.antt =====
-- The containers that DeployCompose of internal/docker/compose.go creates, and their order.
use mathlib.Core.Path.{subst}
use dockpal_agent.Base.{
  List, [], ◌∷◌, ◌++◌, map, ◌≡◌, refl, sym, ap, ◌∙◌, append-nil, append_assoc, true, All, Result,
  ok, err,
}
use dockpal_agent.Base.Bytes.{Bytes, mem, keys}
use dockpal_agent.Compose.Order.{Visit, topological_sort}
use dockpal_agent.Compose.Order as Order
use dockpal_agent.Compose.Order.Sorted.{Ordered, topological_sort-Ordered}
use dockpal_agent.Deploy.Outcome.{Outcome, done, fail, panic, for_each, of_result}
use dockpal_agent.Deploy.Outcome.Kept.{kept, then_do-eq-done, wrapped-eq-done}
use dockpal_agent.Deploy.Project.{
  ComposeFile, deps_entry, sorted, parse_compose_file, resolve_start_order, service_of,
  validate_project_name,
}
use dockpal_agent.Deploy.Daemon.{Log, Op, Outside, container_create}
use dockpal_agent.Deploy.Log.{Adds, added, adds}
use dockpal_agent.Deploy.Asks.{asks}
use dockpal_agent.Deploy.Service.{container_name}
use dockpal_agent.Deploy.Service.Created.{
  created_names, created_names-append, Made, made, unmade, create_and_start_service-Made,
}
use dockpal_agent.Deploy.Projects.{
  Auths, write_compose_file, pull_service, deploy_service, parsed, start_order, deploy_compose,
}

IsOther : Op → Type 0
IsOther (container_create opts) = ⊥
IsOther _ = Unit

no_names : (ops : List Op) → All IsOther ops → created_names ops ≡ []
unfolding created_names IsOther
no_names [] h = refl
no_names (container_create opts ∷ ops) h = absurd h.0
no_names (_ ∷ ops) h = no_names ops h.1

same_names : {l l' : Log} → Adds IsOther l l' → created_names l' ≡ created_names l
same_names {l} a =
    ap created_names a.asked
    ∙ created_names-append l a.ops
    ∙ ap (λ x. created_names l ++ x) (no_names a.ops a.all)
    ∙ append-nil (created_names l)

Made-done :
    {n : Bytes} {l l' : Log} → Made n l (done tt, l') → created_names l' ≡ created_names l ++ n ∷ []
Made-done (made m) = m
Made-done (unmade ne m) = absurd (ne refl)

module _ (o : Outside) (project : Bytes) (auths : Auths) where
  write_names :
      (text : Bytes) (l : Log)
      → created_names (write_compose_file o project text l).1 ≡ created_names l
  unfolding write_compose_file IsOther
  write_names text l = same_names (added (search (kept, adds)))

  pull_names :
      (svc image : Bytes) (l : Log)
      → created_names (pull_service o auths svc image l).1 ≡ created_names l
  unfolding pull_service IsOther
  pull_names svc image l = same_names (added (search (kept, adds, asks)))

  service_names :
      (cf : ComposeFile) (svc : Bytes) (l l' : Log)
      → deploy_service o auths project cf svc l ≡ (done tt, l')
      → created_names l' ≡ created_names l ++ container_name project svc ∷ []
  unfolding deploy_service
  service_names cf svc l l' h =
      let (u, m, pulled, run) =
        then_do-eq-done (pull_service o auths svc (service_of cf svc).image l) _ h in
      let make : Made (container_name project svc) m (done tt, l') =
        rw run at (create_and_start_service-Made o project svc (service_of cf svc) m) in
      let same : created_names m ≡ created_names l =
        sym (ap (λ (x : Outcome (Unit {0}) × Log). created_names x.1) pulled)
        ∙ pull_names svc (service_of cf svc).image l in
      Made-done make ∙ ap (λ x. x ++ container_name project svc ∷ []) same

  loop_names :
      (cf : ComposeFile) (order : List Bytes) (l l' : Log)
      → for_each (deploy_service o auths project cf) order l ≡ (done tt, l')
      → created_names l' ≡ created_names l ++ map (container_name project) order
  unfolding for_each
  loop_names cf [] l l' h =
      sym (ap (λ (x : Outcome (Unit {0}) × Log). created_names x.1) h) ∙ sym (append-nil _)
  loop_names cf (svc ∷ order) l l' h =
      let (u, m, first, rest) = then_do-eq-done (deploy_service o auths project cf svc l) _ h in
      loop_names cf order m l' rest
      ∙ ap (λ x. x ++ map (container_name project) order) (service_names cf svc l m first)
      ∙ append_assoc (created_names l) (container_name project svc ∷ [])
          (map (container_name project) order)

-- The order of a successful sort, by the entries of the map of services.
pub record Start (cf : ComposeFile) (order : List Bytes) : Type 0 where
  pub ordered : Ordered (map deps_entry cf.services) order
  pub complete : All (λ k. mem k order ≡ true) (keys (map deps_entry cf.services))

abbrev or_nil : Result (List Bytes) → List Bytes
or_nil (ok names) = names
or_nil (err e) = []

Start-resolve :
    (cf : ComposeFile) (order : List Bytes) → resolve_start_order cf ≡ ok order → Start cf order
unfolding resolve_start_order
Start-resolve cf order h = go (topological_sort (map deps_entry cf.services)) refl h
  where
    go :
        (v : Visit)
        → topological_sort (map deps_entry cf.services) ≡ v
        → sorted v ≡ ok order
        → Start cf order
    go (Order.done st) e h =
        let (ordered, complete) = topological_sort-Ordered (map deps_entry cf.services) st e in
        subst (Start cf) (ap or_nil h) (record { ordered = ordered; complete = complete })
    go (Order.cycle n) e h = cc
    go Order.out_of_fuel e h = cc

abbrev to_result : {A : Type 0} → Outcome A → Result A
to_result (done a) = ok a
to_result (fail e) = err e
to_result panic = err []

of_result-eq-done :
    {A : Type 0} (r : Result A) (l : Log) {a : A} {l' : Log}
    → ◌≡◌ {A = Outcome A × Log} (of_result r, l) (done a, l')
    → (r ≡ ok a) × (l ≡ l')
of_result-eq-done (ok a) l h = (ap (λ x. to_result x.0) h, ap (λ x. x.1) h)
of_result-eq-done (err e) l h = cc (ap (λ x. x.0) h)

-- If DeployCompose succeeds, its compose file parses to some services, and the containers that it has
-- created are project_service for each name of an order in which no name stands twice, every
-- dependency of a name stands before the name, and every service stands; they are created in it.
pub deploy_compose-Start :
    (o : Outside) (project text : Bytes) (auths : Auths) (log log' : Log)
    → deploy_compose o project text auths log ≡ (done tt, log')
    → (cf : ComposeFile) × (order : List Bytes) × (parse_compose_file o.unmarshal text ≡ ok cf)
      × Start cf order
      × (created_names log' ≡ created_names log ++ map (container_name project) order)
unfolding deploy_compose parsed start_order
deploy_compose-Start o project text auths log log' h =
    let (u, l1, valid, h1) = then_do-eq-done (of_result (validate_project_name project), log) _ h in
    let (u', l2, written, h2) = then_do-eq-done (write_compose_file o project text l1) _ h1 in
    let (cf, l3, parses, h3) = then_do-eq-done (parsed o text l2) _ h2 in
    let (order, l4, sorts, h4) = then_do-eq-done (start_order o cf l3) _ h3 in
    let (p, e3) =
      of_result-eq-done (parse_compose_file o.unmarshal text) l2 (wrapped-eq-done _ _ parses) in
    let (q, e4) = of_result-eq-done (resolve_start_order cf) l3 (wrapped-eq-done _ _ sorts) in
    let (_, e1) = of_result-eq-done (validate_project_name project) log valid in
    let names2 : created_names l2 ≡ created_names l1 =
      sym (ap (λ (x : Outcome (Unit {0}) × Log). created_names x.1) written)
      ∙ write_names o project auths text l1 in
    (
      cf,
      order,
      p,
      Start-resolve cf order q,
      loop_names o project auths cf order l4 log' h4
          ∙ ap (λ x. x ++ map (container_name project) order)
              (cc (names2, ap created_names e1, ap created_names e3, ap created_names e4)),
    )
