-- ===== src/Deploy/Projects/Below.antt =====
-- Where DeployCompose, StopCompose and RemoveCompose of internal/docker/compose.go write and remove.
use dockpal_agent.Base.{
  ℕ, true, false, ◌&&◌, List, [], ◌∷◌, ◌++◌, ◌≡◌, refl, sym, ap, ◌∙◌, ok, every, arith, All,
  All-append, Bool-cases, Result-cases, inl, inr, length, leb,
}
use dockpal_agent.Base.Bytes.{Bytes, codes, equal, contains_byte}
use dockpal_agent.FilePath.{join_path, render}
use dockpal_agent.FilePath.Clean.{IsPlain}
use dockpal_agent.Stack.Names.Child.{clean_child, join-snoc}
use dockpal_agent.Deploy.Outcome.Kept.{Holds, kept}
use dockpal_agent.Deploy.Project.{is_alphanumeric, is_project_byte, validate_project_name}
use dockpal_agent.Deploy.Daemon.{Log, Op, Outside, mkdir_all, write_file, remove_all}
use dockpal_agent.Deploy.Service.{compose_file_path}
use dockpal_agent.Deploy.Log.{Adds, added, Adds-refl, adds}
use dockpal_agent.Deploy.Asks.{asks}
use dockpal_agent.Deploy.Projects.{
  Auths, write_compose_file, pull_service, deploy_service, parsed, start_order, deploy_compose,
  list_project, stop_compose, remove_compose,
}

-- The name is valid, a directory is made or removed at `dir` only, and the only file that is written
-- is the compose file in it.
pub Below : Bytes → Bytes → Op → Type 0
Below dir project (mkdir_all d) = (validate_project_name project ≡ ok tt) × (d ≡ dir)
Below dir project (remove_all d) = (validate_project_name project ≡ ok tt) × (d ≡ dir)
Below dir project (write_file p text) =
    (validate_project_name project ≡ ok tt) × (p ≡ dir ++ codes "/docker-compose.yml")
Below dir project _ = (validate_project_name project ≡ ok tt)

IsProject : Bytes → Type 0
IsProject w = every is_project_byte w ≡ true

no_byte : (b : ℕ) (w : Bytes) → is_project_byte b ≡ false → IsProject w → contains_byte w b ≡ false
unfolding contains_byte IsProject
no_byte b [] hb h = refl
no_byte b (c ∷ w) hb h = ground (arith, no_byte b w hb)

project-IsPlain : (project : Bytes) → validate_project_name project ≡ ok tt → IsPlain project
unfolding validate_project_name equal IsProject
project-IsPlain [] h = cc
project-IsPlain (c ∷ s) h =
    elim (Bool-cases (is_alphanumeric c && every is_project_byte s && leb (length s) 63)) [
      | inr bad ↦ cc (rw bad at h)
      | inl good ↦ record {
        no_slash = no_byte b'/' (c ∷ s) refl (ground arith);
        not_empty = refl;
        not_dot = ground arith;
        not_dot_dot = ground arith;
      }
    ]

module _ (o : Outside) (project : Bytes) (dir : Bytes)
    (valid : validate_project_name project ≡ ok tt)
    (here : join_path o.compose_base_path project ≡ dir)
    (file : compose_file_path o.compose_base_path project
      ≡ dir ++ codes "/docker-compose.yml") where
  abbrev Inside : Log → Log → Type 0
  Inside = Adds (Below dir project)

  deploy-Inside :
      (text : Bytes) (auths : Auths) (log : Log)
      → Holds (Inside log) (deploy_compose o project text auths log).1
  unfolding deploy_compose deploy_service pull_service parsed start_order write_compose_file Below
  deploy-Inside text auths log = search (kept, adds, asks, valid, here, file) depth 20

  stop-Inside : (log : Log) → Holds (Inside log) (stop_compose o project log).1
  unfolding stop_compose list_project Below
  stop-Inside log = search (kept, adds, valid)

  remove-Inside : (log : Log) → Holds (Inside log) (remove_compose o project log).1
  unfolding remove_compose list_project Below
  remove-Inside log = search (kept, adds, valid, here)

child_path :
    (v : Bytes) (vs : List Bytes) (w : Bytes)
    → All IsPlain (v ∷ vs)
    → IsPlain w
    → join_path (render true (v ∷ vs)) w ≡ render true (v ∷ vs) ++ (b'/' ∷ w)
unfolding join_path
child_path v vs [] plain p = unfold equal in cc p.not_empty
child_path v vs (c ∷ w) plain p = clean_child v vs (c ∷ w) plain p

compose_file-IsPlain : IsPlain (codes "docker-compose.yml")
unfolding contains_byte equal
compose_file-IsPlain = record {
  no_slash = refl;
  not_empty = refl;
  not_dot = refl;
  not_dot_dot = refl;
}

compose_file_path_lem :
    (v : Bytes) (vs : List Bytes) (project : Bytes)
    → All IsPlain (v ∷ vs)
    → IsPlain project
    → compose_file_path (render true (v ∷ vs)) project
      ≡ (render true (v ∷ vs) ++ (codes "/" ++ project)) ++ codes "/docker-compose.yml"
compose_file_path_lem v vs project plain p =
    let form : render true (v ∷ vs) ++ (b'/' ∷ project) ≡ render true ((v ∷ vs) ++ project ∷ []) =
      ap (◌∷◌ b'/') (sym (join-snoc v vs project)) in
    ap (λ d. join_path d (codes "docker-compose.yml")) (child_path v vs project plain p ∙ form)
    ∙ child_path v (vs ++ project ∷ []) (codes "docker-compose.yml")
        (All-append IsPlain (v ∷ vs) (project ∷ []) plain (p, tt)) compose_file-IsPlain
    ∙ ap (λ d. d ++ codes "/docker-compose.yml") (sym form)

-- Below a base directory that is a path from the root of plain components: whatever the daemon
-- answers, DeployCompose, StopCompose and RemoveCompose ask nothing for a name that
-- ValidateProjectName refuses, make and remove no directory but base/name, and write no file but
-- base/name/docker-compose.yml.
pub projects-Below :
    (o : Outside) (v : Bytes) (vs : List Bytes) (project text : Bytes) (auths : Auths) (log : Log)
    → All IsPlain (v ∷ vs)
    → o.compose_base_path ≡ render true (v ∷ vs)
    → let dir = render true (v ∷ vs) ++ (codes "/" ++ project) in
      Adds (Below dir project) log (deploy_compose o project text auths log).1
      × Adds (Below dir project) log (stop_compose o project log).1
      × Adds (Below dir project) log (remove_compose o project log).1
projects-Below o v vs project text auths log plain base =
    elim (Result-cases (validate_project_name project)) [
      | inr (e, refused) ↦ (
        unfold deploy_compose in rw refused (Adds-refl log),
        unfold stop_compose in rw refused (Adds-refl log),
        unfold remove_compose in rw refused (Adds-refl log),
      )
      | inl (u, valid) ↦
          let p = project-IsPlain project valid in
          let here = ap (λ b. join_path b project) base ∙ child_path v vs project plain p in
          let file =
            ap (λ b. compose_file_path b project) base
            ∙ compose_file_path_lem v vs project plain p in
          let dir = render true (v ∷ vs) ++ (codes "/" ++ project) in
          (
            added (deploy-Inside o project dir valid here file text auths log),
            added (stop-Inside o project dir valid here file log),
            added (remove-Inside o project dir valid here file log),
          )
    ]
