-- ===== src/Stack/Lifecycle.antt =====
-- The lifecycle operations of internal/docker/stack_store.go, under the lock of their stack.
pub mod Locks
use dockpal_agent.Base.{
  Bool, true, false, ◌&&◌, ◌||◌, not, List, [], ◌∷◌, ◌++◌, Option, none, some, Result, ok, err,
  if◌then◌else◌,
}
use dockpal_agent.Base.Bytes.{Bytes, codes, equal, has_prefix, mem}
use dockpal_agent.Stack.Names.{stack_dir}
use dockpal_agent.Stack.World.{
  World, Outside, ComposeLsEntry, M, ◌>>=◌, lift, exists, try_lock, unlock, run, unless,
}
use dockpal_agent.Stack.Store.{stack_compose_args}
use dockpal_agent.Stack.Status.{status_convert}

abbrev pub busy : Bytes
busy = codes "another operation is already running for this stack"

abbrev unlocked : Bytes → Result (Unit {0}) × World → Result (Unit {0}) × World
unlocked name (r, w) = (r, unlock name w)

-- the body of a lifecycle operation behind TryLock, with the deferred Unlock
abbrev holding : Bytes → M (Unit {0}) → Bool × World → Result (Unit {0}) × World
holding name body (false, w) = (err busy, w)
holding name body (true, w) = unlocked name (body w)

-- what each operation begins with
unfoldable pub locked : Outside → Bytes → (Bytes → M (Unit {0})) → M (Unit {0})
locked o name body w =
    if o.has_cli
    then elim (stack_dir o.compose_base_path name) [
      | err e ↦ (err e, w)
      | ok dir ↦ holding name (body dir) (try_lock name w)
    ]
    else (err (codes "docker compose CLI integration not initialized"), w)

-- cli.Run(ctx, dir, StackComposeArgs(dir, args...)...)
unfoldable pub compose : Outside → Bytes → List Bytes → M (Unit {0})
compose o dir args w = run o dir (stack_compose_args o w dir args) w

unfoldable pub stack_run : Outside → Bytes → List Bytes → M (Unit {0})
stack_run o name args = locked o name (λ dir. compose o dir args)

abbrev pub up : List Bytes
up = codes "up" ∷ codes "-d" ∷ codes "--remove-orphans" ∷ []

unfoldable pub stack_up : Outside → Bytes → M (Unit {0})
stack_up o name = stack_run o name up

unfoldable pub stack_stop : Outside → Bytes → M (Unit {0})
stack_stop o name = stack_run o name (codes "stop" ∷ [])

unfoldable pub stack_restart : Outside → Bytes → M (Unit {0})
stack_restart o name = stack_run o name (codes "restart" ∷ [])

unfoldable pub stack_recreate : Outside → Bytes → M (Unit {0})
stack_recreate o name = stack_run o name (up ++ codes "--force-recreate" ∷ [])

unfoldable pub stack_down : Outside → Bytes → M (Unit {0})
stack_down o name = stack_run o name (codes "down" ∷ [])

unfoldable pub is_running : Bytes → List ComposeLsEntry → Bool
is_running name [] = false
is_running name (p ∷ ps) =
    equal p.name name && equal (status_convert p.status) (codes "running") || is_running name ps

abbrev pub running_now : Bytes → Result (List ComposeLsEntry) → Bool
running_now name (err e) = false
running_now name (ok ps) = is_running name ps

unfoldable pub update_body : Outside → Bytes → Bytes → M (Unit {0})
update_body o name dir = compose o dir (codes "pull" ∷ []) >>= λ _ w.
    if running_now name (o.list_projects w.runs) then compose o dir up w else (ok tt, w)

unfoldable pub stack_update : Outside → Bytes → M (Unit {0})
stack_update o name = locked o name (update_body o name)

-- a path that is the directory, or lies below it
abbrev pub inside : Bytes → Bytes → Bool
inside dir path = equal path dir || has_prefix path (dir ++ codes "/")

unfoldable pub drop_dirs : Bytes → List Bytes → List Bytes
drop_dirs dir [] = []
drop_dirs dir (p ∷ ps) = let rest = drop_dirs dir ps in if inside dir p then rest else p ∷ rest

unfoldable pub drop_files : Bytes → List (Bytes × Bytes) → List (Bytes × Bytes)
drop_files dir [] = []
drop_files dir ((p, s) ∷ fs) =
    let rest = drop_files dir fs in if inside dir p then rest else (p, s) ∷ rest

-- os.RemoveAll(dir); a failure is modelled before anything is removed
unfoldable pub remove_all : Outside → Bytes → M (Unit {0})
remove_all o dir =
    unless (o.remove_fails dir)
      (λ w. record w { dirs = drop_dirs dir w.dirs; files = drop_files dir w.files })

unfoldable pub delete_body : Outside → Bytes → M (Unit {0})
delete_body o dir w =
    if exists w dir
    then remove_all o dir (compose o dir (codes "down" ∷ codes "--remove-orphans" ∷ []) w).1
    else remove_all o dir w

unfoldable pub stack_delete : Outside → Bytes → M (Unit {0})
stack_delete o name = locked o name (delete_body o)

unfoldable stack_service_up : Outside → Bytes → Bytes → M (Unit {0})
stack_service_up o name service = stack_run o name (codes "up" ∷ codes "-d" ∷ service ∷ [])

unfoldable stack_service_stop : Outside → Bytes → Bytes → M (Unit {0})
stack_service_stop o name service = stack_run o name (codes "stop" ∷ service ∷ [])

unfoldable stack_service_restart : Outside → Bytes → Bytes → M (Unit {0})
stack_service_restart o name service = stack_run o name (codes "restart" ∷ service ∷ [])

unfoldable stack_service_recreate : Outside → Bytes → Bytes → M (Unit {0})
stack_service_recreate o name service =
    stack_run o name (codes "up" ∷ codes "-d" ∷ codes "--force-recreate" ∷ service ∷ [])
