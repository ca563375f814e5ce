-- ===== src/Deploy/Service/Created.antt =====
-- The containers that createAndStartService of internal/docker/compose.go creates, by their names.
use dockpal_agent.Base.{
  List, [], ◌∷◌, ◌++◌, ◌≡◌, ◌≢◌, refl, sym, ap, ◌∙◌, append-nil, Result, ok, err, Result-cases, inl,
  inr,
}
use dockpal_agent.Base.Bytes.{Bytes}
use dockpal_agent.Deploy.Outcome.{Outcome, done, fail, panic, then_do, wrapped, forget, of_result}
use dockpal_agent.Deploy.Project.{ComposeService}
use dockpal_agent.Deploy.Daemon.{
  Log, Outside, CreateOptions, ask, container_create, container_start,
}
use dockpal_agent.Deploy.Service.{
  Ports, container_name, bind_outcome, bind_ports, service_binds, create_options, service_options,
  not_created, not_started, create_and_start, create_and_start_service,
}

-- the names that were given to ContainerCreate
unfoldable pub created_names : Log → List Bytes
created_names [] = []
created_names (container_create opts ∷ log) = opts.name ∷ created_names log
created_names (_ ∷ log) = created_names log

pub created_names-append :
    (log ops : Log) → created_names (log ++ ops) ≡ created_names log ++ created_names ops
unfolding created_names
created_names-append [] ops = refl
created_names-append (container_create opts ∷ log) ops =
    ap (◌∷◌ opts.name) (created_names-append log ops)
created_names-append (_ ∷ log) ops = created_names-append log ops

-- One container more, or none and no success.
pub data Made (n : Bytes) (log : Log) : Outcome (Unit {0}) × Log → Type 0 where
  made :
      {r : Outcome (Unit {0})} {log' : Log}
      → created_names log' ≡ created_names log ++ n ∷ []
      → Made n log (r, log')
  unmade :
      {r : Outcome (Unit {0})} {log' : Log}
      → r ≢ done tt
      → created_names log' ≡ created_names log
      → Made n log (r, log')

abbrev name_in : Outcome CreateOptions → Bytes
name_in (done opts) = opts.name
name_in (fail e) = []
name_in panic = []

module _ (o : Outside) (project name : Bytes) (svc : ComposeService) where
  with_binds :
      (p : Ports) (r : Outcome (List Bytes)) (opts : CreateOptions)
      → bind_outcome r (λ binds. done (create_options o project name svc p binds)) ≡ done opts
      → opts.name ≡ container_name project name
  unfolding create_options
  with_binds p (done binds) opts h = sym (ap name_in h)
  with_binds p (fail e) opts h = cc
  with_binds p panic opts h = cc

  with_ports :
      (r : Outcome Ports) (opts : CreateOptions)
      → bind_outcome r (λ p.
        bind_outcome
          (service_binds name svc.volumes)
          (λ binds. done (create_options o project name svc p binds)))
        ≡ done opts
      → opts.name ≡ container_name project name
  with_ports (done p) opts h = with_binds p (service_binds name svc.volumes) opts h
  with_ports (fail e) opts h = cc
  with_ports panic opts h = cc

  created_once :
      (opts : CreateOptions) (log ops : Log)
      → created_names ops ≡ []
      → created_names ((log ++ container_create opts ∷ []) ++ ops)
        ≡ created_names log ++ opts.name ∷ []
  unfolding created_names
  created_once opts log ops h =
      created_names-append (log ++ container_create opts ∷ []) ops
      ∙ ap (◌++◌ (created_names (log ++ container_create opts ∷ []))) h
      ∙ append-nil _
      ∙ created_names-append log (container_create opts ∷ [])

  start_Made :
      (opts : CreateOptions) (log : Log) (r : Result Bytes)
      → opts.name ≡ container_name project name
      → Made (container_name project name) log (
          then_do
            (wrapped
              (not_created o project name svc)
              (of_result r, log ++ container_create opts ∷ []))
            (λ id log'.
              forget (wrapped (not_started o project name svc) (ask o (container_start id) log'))))
  unfolding ask created_names
  start_Made opts log (err e) n = made (
      created_names-append log (container_create opts ∷ [])
      ∙ ap (λ x. created_names log ++ x ∷ []) n)
  start_Made opts log (ok id) n =
      elim (Result-cases (o.answer (log ++ container_create opts ∷ []) (container_start id))) [
        | inl (v, e) ↦ rw e (
            made (
              created_once opts log (container_start id ∷ []) refl
              ∙ ap (λ x. created_names log ++ x ∷ []) n))
        | inr (m, e) ↦ rw e (
            made (
              created_once opts log (container_start id ∷ []) refl
              ∙ ap (λ x. created_names log ++ x ∷ []) n))
      ]

  from_options :
      (r : Outcome CreateOptions) (log : Log)
      → ((opts : CreateOptions) → r ≡ done opts → opts.name ≡ container_name project name)
      → Made
          (container_name project name)
          log
          (then_do (r, log) (create_and_start o project name svc))
  unfolding create_and_start ask
  from_options (done opts) log h =
      start_Made opts log (o.answer log (container_create opts)) (h opts refl)
  from_options (fail e) log h = unmade (λ q. cc) refl
  from_options panic log h = unmade (λ q. cc) refl

  -- createAndStartService gives its container the name project_service.
  pub create_and_start_service-Made :
      (log : Log)
      → Made (container_name project name) log (create_and_start_service o project name svc log)
  unfolding create_and_start_service service_options
  create_and_start_service-Made log =
      from_options (service_options o project name svc) log
        (with_ports (bind_ports o name svc.ports (record { exposed = []; bindings = [] })))
