-- ===== src/Stack/Lifecycle/Locks.antt =====
-- What the lifecycle operations do to the locks.
use dockpal_agent.Base.{
  true, false, List, [], ◌∷◌, ◌≡◌, refl, ◌∙◌, Option, none, some, Result, ok, err, Result-cases,
  Option-cases, Bool-cases, inl, inr, if◌then◌else◌, arith,
}
use dockpal_agent.Base.Bytes.{Bytes, codes, mem}
use dockpal_agent.Base.Bytes.Laws.{equal_iff}
use dockpal_agent.Stack.Names.{stack_dir}
use dockpal_agent.Stack.World.{
  World, Outside, M, then_do, exists, try_lock, unlock, without, run, unless,
}
use dockpal_agent.Stack.Lifecycle.{
  locked, compose, up, stack_run, update_body, stack_update, remove_all, delete_body, stack_delete,
  running_now,
}

-- The operation leaves the locks as they were; and while its stack is locked, it changes nothing and
-- runs nothing.
pub record Guarded (name : Bytes) (m : M (Unit {0})) : Type 0 where
  pub restores : (w : World) → (m w).1.held ≡ w.held
  pub excluded : (w : World) → mem name w.held ≡ true → (m w).1 ≡ w

-- An action that does not touch the locks.
abbrev Keeps : M (Unit {0}) → Type 0
Keeps m = (w : World) → (m w).1.held ≡ w.held

without_absent : (x : Bytes) (ys : List Bytes) → mem x ys ≡ false → without x ys ≡ ys
unfolding without mem
without_absent x [] h = refl
without_absent x (y ∷ ys) h = ground (arith, without_absent x ys)

without_head : (x : Bytes) (ys : List Bytes) → mem x ys ≡ false → without x (x ∷ ys) ≡ ys
unfolding without
without_head x ys h = rw ((equal_iff x x).1 refl) (without_absent x ys h)

run-Keeps : (o : Outside) (dir : Bytes) (args : List Bytes) → Keeps (run o dir args)
unfolding run
run-Keeps o dir args w = elim (Option-cases (o.run_fails w.runs dir args)) [
  | inl h ↦ rw (h, run) refl
  | inr (e, h) ↦ rw (h, run) refl
]

compose-Keeps : (o : Outside) (dir : Bytes) (args : List Bytes) → Keeps (compose o dir args)
unfolding compose
compose-Keeps o dir args w = run-Keeps o dir _ w

unless-Keeps :
    (e : Option Bytes) (f : World → World)
    → ((w : World) → (f w).held ≡ w.held)
    → Keeps (unless e f)
unless-Keeps none f h w = h w
unless-Keeps (some e) f h w = refl

remove_all-Keeps : (o : Outside) (dir : Bytes) → Keeps (remove_all o dir)
unfolding remove_all
remove_all-Keeps o dir w = unless-Keeps (o.remove_fails dir) _ (λ v. refl) w

delete_body-Keeps : (o : Outside) (dir : Bytes) → Keeps (delete_body o dir)
unfolding delete_body
delete_body-Keeps o dir w = elim (Bool-cases (exists w dir)) [
  | inl h ↦ rw h (remove_all-Keeps o dir _ ∙ compose-Keeps o dir _ w)
  | inr h ↦ rw h (remove_all-Keeps o dir w)
]

after :
    (r : Result (Unit {0})) (v : World) (f : Unit {0} → M (Unit {0}))
    → ((u : Unit {0}) → Keeps (f u))
    → (then_do (r, v) f).1.held ≡ v.held
after (ok u) v f h = h u v
after (err e) v f h = refl

update_body-Keeps : (o : Outside) (name dir : Bytes) → Keeps (update_body o name dir)
unfolding update_body
update_body-Keeps o name dir w =
    after (compose o dir (codes "pull" ∷ []) w).0 (compose o dir (codes "pull" ∷ []) w).1 _
      (λ u v. up_if v)
    ∙ compose-Keeps o dir _ w
  where
    up_if :
        (v : World)
        → (if running_now name (o.list_projects v.runs)
            then compose o dir up v
            else (ok tt, v)).1.held
          ≡ v.held
    up_if v = elim (Bool-cases (running_now name (o.list_projects v.runs))) [
      | inl h ↦ rw h (compose-Keeps o dir up v)
      | inr h ↦ rw h refl
    ]

module _ (o : Outside) (name : Bytes) where
  locked-Guarded :
      (body : Bytes → M (Unit {0}))
      → ((dir : Bytes) → Keeps (body dir))
      → Guarded name (locked o name body)
  unfolding locked try_lock unlock
  locked-Guarded body keeps = record { restores = back; excluded = shut }
    where
      back : (w : World) → (locked o name body w).1.held ≡ w.held
      back w = elim (Bool-cases o.has_cli) [
        | inr h ↦ rw h refl
        | inl h ↦ elim (Result-cases (stack_dir o.compose_base_path name)) [
          | inr (e, bad) ↦ rw (h, bad, locked) refl
          | inl (dir, good) ↦ elim (Bool-cases (mem name w.held)) [
            | inl on ↦ rw (h, good, locked, on) refl
            | inr off ↦
                rw (h, good, locked, off)
                  (rw (keeps dir (record w { held = name ∷ w.held }))
                    (without_head name w.held off))
          ]
        ]
      ]

      shut : (w : World) → mem name w.held ≡ true → (locked o name body w).1 ≡ w
      shut w on = elim (Bool-cases o.has_cli) [
        | inr h ↦ rw h refl
        | inl h ↦ elim (Result-cases (stack_dir o.compose_base_path name)) [
          | inr (e, bad) ↦ rw (h, bad, locked) refl
          | inl (dir, good) ↦ rw (h, good, locked, on) refl
        ]
      ]

  -- Running a command, updating and deleting a stack all leave the locks as they were, whether they
  -- succeed or not; and while the stack is locked by another operation, they change nothing and run
  -- nothing.
  pub lifecycle-Guarded :
      (args : List Bytes)
      → Guarded name (stack_run o name args)
        × Guarded name (stack_update o name)
        × Guarded name (stack_delete o name)
  unfolding stack_run stack_update stack_delete
  lifecycle-Guarded args = (
    locked-Guarded _ (λ dir. compose-Keeps o dir args),
    locked-Guarded _ (update_body-Keeps o name),
    locked-Guarded _ (delete_body-Keeps o),
  )
