-- ===== src/Files/Deletion.antt =====
-- What DeleteFile of internal/docker/files.go asks of the daemon.
use dockpal_agent.Base.{
  true, false, ◌||◌, List, [], ◌∷◌, ◌++◌, ◌≡◌, ◌≢◌, ◌⊎◌, refl, ◌∙◌, All, any, arith, Bool-cases,
  inl, inr, ok, err, Result, Result-cases, append_assoc,
}
use dockpal_agent.Base.Bytes.{Bytes, codes, equal, contains}
use dockpal_agent.Base.Bytes.Laws.{equal_iff}
use dockpal_agent.FilePath.{render}
use dockpal_agent.FilePath.Clean.{IsPlain}
use dockpal_agent.Files.{
  Ask, exec_create, exec_attach, Daemon, exec_command, checked, validate_path,
  validate_container_id, blocked, is_blocked, delete_file, wrapped, then_do,
}
use dockpal_agent.Files.Paths.{validate_path-IsPlain}

abbrev IsAttach : Ask → Type 0
IsAttach (exec_create id cmd) = ⊥
IsAttach (exec_attach e) = Unit

-- One command has been started behind a log, and attached to if the daemon took it.
pub record Started (id : Bytes) (cmd : List Bytes) (log log' : List Ask) : Type 0 where
  pub rest : List Ask
  pub attached : All IsAttach rest
  pub asked : log' ≡ log ++ exec_create id cmd ∷ rest

pub wrapped_log :
    {A : Type 0} (f : Bytes → Bytes) (r : Result A) (log : List Ask) → (wrapped f (r, log)).1 ≡ log
wrapped_log f (ok a) log = refl
wrapped_log f (err e) log = refl

pub done_log :
    {A : Type 0} (x : Result A × List Ask)
    → (then_do {B = Unit {0}} x (λ _ log. (ok tt, log))).1 ≡ x.1
done_log (ok a, log) = refl
done_log (err e, log) = refl

pub checked-validate : (id path p : Bytes) → checked id path ≡ ok p → validate_path path ≡ ok p
unfolding checked
checked-validate id path p h = elim (Result-cases (validate_container_id id)) [
  | inl (u, e) ↦ rw (e, checked) at h
  | inr (m, e) ↦ cc (rw (e, checked) at h)
]

-- A path that DeleteFile passes to rm, and what is known of it.
pub record Removable (p : Bytes) : Type 0 where
  pub components : List Bytes
  pub form : p ≡ render true components
  pub plain : All IsPlain components
  pub flat : contains p (codes "..") ≡ false
  pub free : All (λ b. p ≢ b) blocked

not_among :
    (p : Bytes) (bs : List Bytes)
    → any (λ b. equal p b || equal p (b ++ codes "/")) bs ≡ false
    → All (λ b. p ≢ b) bs
not_among p [] h = tt
not_among p (b ∷ bs) h =
    ((λ e. let same = (equal_iff p b).1 e in ground arith), not_among p bs (ground arith))

module _ (daemon : Daemon) (id : Bytes) where
  pub exec_command-Started :
      (cmd : List Bytes) (log : List Ask) → Started id cmd log (exec_command daemon id cmd log).1
  unfolding exec_command
  exec_command-Started cmd log = elim (Result-cases (daemon log (exec_create id cmd))) [
    | inl (e, h) ↦
        let log' = log ++ exec_create id cmd ∷ [] in
        rw h (record {
          rest = exec_attach e ∷ [];
          attached = (tt, tt);
          asked =
              wrapped_log _ (daemon log' (exec_attach e)) _
              ∙ append_assoc log (exec_create id cmd ∷ []) (exec_attach e ∷ []);
        })
    | inr (e, h) ↦ rw h (record { rest = []; attached = tt; asked = refl })
  ]

  -- DeleteFile either asks nothing of the daemon, or it starts one command: rm -rf on a path from the
  -- root whose components are neither empty, "." nor "..", and which is none of the blocked
  -- directories, however the path that was asked for is written.
  pub delete_file-Removable :
      (path : Bytes) (log : List Ask)
      → ((delete_file daemon id path log).1 ≡ log)
        ⊎ ((p : Bytes) × Removable p
            × Started id (codes "rm" ∷ codes "-rf" ∷ p ∷ []) log (delete_file daemon id path log).1)
  unfolding delete_file
  delete_file-Removable path log = elim (Result-cases (checked id path)) [
    | inr (e, h) ↦ inl (rw h refl)
    | inl (p, h) ↦ elim (Bool-cases (is_blocked p)) [
      | inl stop ↦ inl (rw (h, stop) refl)
      | inr go ↦
          let (ws, form, plain, flat, again) =
            validate_path-IsPlain path p (checked-validate id path p h) in
          let cmd : List Bytes = codes "rm" ∷ codes "-rf" ∷ p ∷ [] in
          let started = exec_command-Started cmd log in
          inr (
            p,
            record {
              components = ws;
              form = form;
              plain = plain;
              flat = flat;
              free = not_among p blocked (unfold is_blocked in go);
            },
            rw (h, go)
                (record {
                  rest = started.rest;
                  attached = started.attached;
                  asked = done_log (exec_command daemon id cmd log) ∙ started.asked;
                }),
          )
    ]
  ]
