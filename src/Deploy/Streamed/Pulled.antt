-- ===== src/Deploy/Streamed/Pulled.antt =====
-- What the pulls and the writing of DeployComposeStreamed have asked, when they succeed
-- (internal/docker/deploy_stream.go).
use dockpal_agent.Base.{
  List, [], ◌∷◌, ◌++◌, map, ◌≡◌, refl, Result, ok, err, append_assoc, if◌then◌else◌,
}
use dockpal_agent.Base.Bytes.{Bytes, codes, equal}
use dockpal_agent.FilePath.{join_path}
use dockpal_agent.Deploy.Outcome.{
  Outcome, done, fail, panic, for_each, then_do, wrapped, forget, on_failure, of_result,
}
use dockpal_agent.Deploy.Project.{ComposeFile, service_of}
use dockpal_agent.Deploy.Daemon.{
  Log, Outside, ask, image_inspect, image_pull, mkdir_all, write_file,
}
use dockpal_agent.Deploy.Images.{
  pull_image, pull_image_with_auth, pull_image_if_needed, pull_missing,
}
use dockpal_agent.Deploy.Service.{compose_file_path}
use dockpal_agent.Deploy.Projects.{Auths, registry_auth, write_compose_file}
use dockpal_agent.Deploy.Streamed.{State, Around, running, with_log, say, pull_step, write_phase}

-- Behind a log, each image in turn is inspected; if the daemon does not have it, it is pulled, with the
-- credentials of its registry, and the pull succeeds.
pub data Pulled (o : Outside) (auths : Auths) : List Bytes → Log → Log → Type 0 where
  no_more : {log : Log} → Pulled o auths [] log log
  present :
      {image v : Bytes} {images : List Bytes} {log log' : Log}
      → o.answer log (image_inspect image) ≡ ok v
      → Pulled o auths images (log ++ image_inspect image ∷ []) log'
      → Pulled o auths (image ∷ images) log log'
  fetched :
      {image e v : Bytes} {images : List Bytes} {log log' : Log}
      → o.answer log (image_inspect image) ≡ err e
      → o.answer (log ++ image_inspect image ∷ []) (image_pull image (registry_auth auths image))
        ≡ ok v
      → Pulled o auths images
          ((log ++ image_inspect image ∷ []) ++ image_pull image (registry_auth auths image) ∷ [])
          log'
      → Pulled o auths (image ∷ images) log log'

-- The end of the loop over the pulls: if it is a success, all images are there.
pub data Fetches (o : Outside) (auths : Auths) (images : List Bytes) (log : Log)
    : Outcome (Unit {0}) × State → Type 0 where
  all_there :
      {st : State} → Pulled o auths images log st.log → Fetches o auths images log (done tt, st)
  failed : {e : Bytes} {st : State} → Fetches o auths images log (fail e, st)
  panicked : {st : State} → Fetches o auths images log (panic, st)

-- The end of one pull, by what it adds in front of the pulls that follow it.
data One (o : Outside) (auths : Auths) (image : Bytes) (log : Log)
    : Outcome (Unit {0}) × Log → Type 0 where
  there :
      {l : Log}
      → ((images : List Bytes) (log' : Log)
          → Pulled o auths images l log'
          → Pulled o auths (image ∷ images) log log')
      → One o auths image log (done tt, l)
  not_there : {e : Bytes} {l : Log} → One o auths image log (fail e, l)

module _ (o : Outside) (auths : Auths) where
  One-pull :
      (text : Bytes → Bytes) (image e : Bytes) (log : Log) (r : Result Bytes)
      → o.answer log (image_inspect image) ≡ err e
      → o.answer (log ++ image_inspect image ∷ []) (image_pull image (registry_auth auths image))
        ≡ r
      → One o auths image log (
          forget (
            wrapped text (
              of_result r,
              (log ++ image_inspect image ∷ [])
                  ++ image_pull image (registry_auth auths image) ∷ [],
            )))
  One-pull text image e log (err e') missing h = not_there
  One-pull text image e log (ok v) missing h = there (λ images log' rest. fetched missing h rest)

  One-missing :
      (image e : Bytes) (log : Log) (auth : Bytes)
      → registry_auth auths image ≡ auth
      → o.answer log (image_inspect image) ≡ err e
      → One o auths image log (
          if equal auth []
          then pull_image o image (log ++ image_inspect image ∷ [])
          else pull_image_with_auth o image auth (log ++ image_inspect image ∷ []))
  unfolding pull_image pull_image_with_auth ask equal
  One-missing image e log [] same missing = rw (← same) (One-pull _ image e log _ missing refl)
  One-missing image e log (c ∷ auth) same missing =
      rw (← same) (One-pull _ image e log _ missing refl)

  One-answered :
      (image : Bytes) (log : Log) (r : Result Bytes)
      → o.answer log (image_inspect image) ≡ r
      → One o auths image log (
          pull_missing o image
            (registry_auth auths image)
            (of_result r, log ++ image_inspect image ∷ []))
  One-answered image log (ok v) found = there (λ images log' rest. present found rest)
  One-answered image log (err e) missing =
      One-missing image e log (registry_auth auths image) refl missing

  One-pull_image_if_needed :
      (image : Bytes) (log : Log)
      → One o auths image log (pull_image_if_needed o image (registry_auth auths image) log)
  unfolding pull_image_if_needed ask
  One-pull_image_if_needed image log =
      One-answered image log (o.answer log (image_inspect image)) refl

  module _ (around : Around) where
    round-Fetches :
        (image text ready : Bytes) (images : List Bytes) (log : Log) (st : State)
        (next : State → Outcome (Unit {0}) × State) (named : Bytes → Bytes)
        (handle : Bytes → State → State) (x : Outcome (Unit {0}) × Log)
        → One o auths image log x
        → ((s : State) → Fetches o auths images s.log (next s))
        → Fetches o auths (image ∷ images) log (
            then_do
              (wrapped named (
                then_do
                  (on_failure handle (with_log st x))
                  (λ _ s. (done tt, say o around (codes "pull") text ready s))))
              (λ _ s. next s))
    unfolding say
    round-Fetches image text ready images log st next named handle (fail e, l) one k = failed
    round-Fetches image text ready images log st next named handle (panic, l) one k = elim one [ ]
    round-Fetches image text ready images log st next named handle (done u, l) (there f) k =
        behind f (k _)
      where
        behind :
            {y : Outcome (Unit {0}) × State}
            → ((images : List Bytes) (log' : Log)
                → Pulled o auths images l log'
                → Pulled o auths (image ∷ images) log log')
            → Fetches o auths images l y
            → Fetches o auths (image ∷ images) log y
        behind f (all_there a) = all_there (f images _ a)
        behind f failed = failed
        behind f panicked = panicked

    -- the loop over the start order
    pub pulls-Fetches :
        (cf : ComposeFile) (order : List Bytes) (st : State)
        → Fetches o auths
            (map (λ svc. (service_of cf svc).image) order)
            st.log
            (for_each (pull_step o around auths cf) order st)
    unfolding for_each pull_step say
    pulls-Fetches cf [] st = all_there no_more
    pulls-Fetches cf (svc ∷ order) st =
        round-Fetches (service_of cf svc).image _ _ _ st.log
          (say o around (codes "pull")
            (codes "Pulling " ++ ((service_of cf svc).image ++ codes "...")) running st)
          (λ s. for_each (pull_step o around auths cf) order s) _ _
          (pull_image_if_needed o (service_of cf svc).image
            (registry_auth auths (service_of cf svc).image) st.log)
          (One-pull_image_if_needed (service_of cf svc).image st.log)
          (λ s. pulls-Fetches cf order s)

-- What writing the compose file asks.
abbrev pub file_written : Outside → Bytes → Bytes → Log
file_written o project text =
    mkdir_all (join_path o.compose_base_path project)
    ∷ write_file (compose_file_path o.compose_base_path project) text
    ∷ []

-- The end of the writing: if it is a success, both have been asked, and nothing else.
pub data Writes (o : Outside) (project text : Bytes) (log : Log)
    : Outcome (Unit {0}) × State → Type 0 where
  all_written :
      {st : State}
      → st.log ≡ log ++ file_written o project text
      → Writes o project text log (done tt, st)
  failed : {e : Bytes} {st : State} → Writes o project text log (fail e, st)

module _ (o : Outside) (around : Around) (project text : Bytes) where
  after_file :
      (log : Log) (st : State) (named : Bytes → Bytes) (handle : Bytes → State → State)
      (message status : Bytes) (r : Result Bytes)
      → Writes o project text log (
          then_do
            (on_failure handle (
              with_log st (
                forget (
                  wrapped named (
                    of_result r,
                    (log ++ mkdir_all (join_path o.compose_base_path project) ∷ [])
                        ++ write_file (compose_file_path o.compose_base_path project) text ∷ [],
                  )))))
            (λ _ s. (done tt, say o around (codes "write") message status s)))
  unfolding say
  after_file log st named handle message status (err e) = Writes.failed
  after_file log st named handle message status (ok v) =
      all_written (append_assoc log (mkdir_all (join_path o.compose_base_path project) ∷ []) _)

  before_file :
      (log : Log) (st : State) (made named : Bytes → Bytes) (handle : Bytes → State → State)
      (message status : Bytes) (r : Result Bytes)
      → Writes o project text log (
          then_do
            (on_failure handle (
              with_log st (
                then_do
                  (wrapped made
                    (of_result r, log ++ mkdir_all (join_path o.compose_base_path project) ∷ []))
                  (λ _ log'. forget (
                    wrapped named (
                      ask o
                        (write_file (compose_file_path o.compose_base_path project) text)
                        log'))))))
            (λ _ s. (done tt, say o around (codes "write") message status s)))
  unfolding ask
  before_file log st made named handle message status (err e) = Writes.failed
  before_file log st made named handle message status (ok v) =
      after_file log st named handle message status (
        o.answer (log ++ mkdir_all (join_path o.compose_base_path project) ∷ [])
          (write_file (compose_file_path o.compose_base_path project) text))

  pub write_phase-Writes :
      (st : State) → Writes o project text st.log (write_phase o around project text st)
  unfolding write_phase write_compose_file say ask
  write_phase-Writes st =
      before_file st.log (say o around (codes "write") (codes "Saving compose file...") running st)
        _ _ _ _ _ (o.answer st.log (mkdir_all (join_path o.compose_base_path project)))
