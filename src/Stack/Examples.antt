-- ===== src/Stack/Examples.antt =====
-- A stack that is saved, read and started.
use dockpal_agent.Base.{
  true, false, List, [], ◌∷◌, ◌++◌, ◌≡◌, refl, Result, ok, err, Option, none, some,
}
use dockpal_agent.Base.Bytes.{Bytes, codes}
use dockpal_agent.FilePath.Clean.{IsPlain}
use dockpal_agent.Stack.Names.{stack_dir}
use dockpal_agent.Stack.Names.Child.{stack_dir_lem}
use dockpal_agent.Stack.World.{ComposeLsEntry, World, Any, object, Outside}
use dockpal_agent.Stack.Store.{
  Stack, save_stack, get_stack, unknown, global_env_path, set_global_env, get_global_env,
  validate_env_file,
}
use dockpal_agent.Stack.Store.Saved.{save_stack-get_stack, set_global_env-get_global_env}
use dockpal_agent.Stack.Listing.{draft, list_stacks}
use dockpal_agent.Stack.Listing.Merged.{find, after_all, Distinct, nil, cons, list_stacks_lem}
use dockpal_agent.Stack.Status.{status_convert}
use dockpal_agent.Stack.Lifecycle.{stack_run, stack_update, stack_delete, up}
use dockpal_agent.Stack.Lifecycle.Locks.{Guarded, lifecycle-Guarded}

abbrev outside : Outside
outside = record {
  compose_base_path = codes "/srv/stacks";
  has_cli = true;
  unmarshal = λ s. ok (some ((codes "services", object) ∷ []));
  read_dir = λ w. some ((codes "web", true) ∷ (codes "notes", false) ∷ []);
  list_projects = λ runs. ok [];
  write_fails = λ p. none;
  mkdir_fails = λ p. none;
  remove_fails = λ p. none;
  read_fails = λ p. none;
  run_fails = λ runs dir args. none;
}

abbrev empty : World
empty = record { dirs = codes "/srv/stacks" ∷ []; files = []; held = []; runs = [] }

srv : IsPlain (codes "srv")
unfolding dockpal_agent.Base.Bytes.contains_byte dockpal_agent.Base.Bytes.equal
srv = record { no_slash = refl; not_empty = refl; not_dot = refl; not_dot_dot = refl }

stacks : IsPlain (codes "stacks")
unfolding dockpal_agent.Base.Bytes.contains_byte dockpal_agent.Base.Bytes.equal
stacks = record { no_slash = refl; not_empty = refl; not_dot = refl; not_dot_dot = refl }

stack_dir_lem_example :
    stack_dir (codes "/srv/stacks") (codes "web-1") ≡ ok (codes "/srv/stacks/web-1")
unfolding dockpal_agent.Stack.Names.validate_stack_name dockpal_agent.Base.Bytes.join
stack_dir_lem_example =
    stack_dir_lem (codes "srv") (codes "stacks" ∷ []) (codes "web-1") (srv, (stacks, tt)) refl

abbrev saved : World
saved = record {
  dirs = codes "/srv/stacks/web" ∷ codes "/srv/stacks" ∷ [];
  files =
      (codes "/srv/stacks/web/compose.yaml", codes "services: {}")
      ∷ (codes "/srv/stacks/web/.env", codes "A=1\n")
      ∷ [];
  held = [];
  runs = [];
}

save_example :
    save_stack outside (codes "web") (codes "services: {}") (codes "A=1\n") true empty
    ≡ (ok tt, saved)
unfolding save_stack dockpal_agent.Stack.Names.validate_stack_name
    dockpal_agent.Stack.Store.validate_compose_yaml dockpal_agent.Base.Bytes.lookup
    validate_env_file dockpal_agent.Stack.Store.env_lines dockpal_agent.Base.Bytes.split
    dockpal_agent.Base.Bytes.trim_space dockpal_agent.Base.Bytes.has_prefix
    dockpal_agent.Base.Bytes.contains_byte stack_dir dockpal_agent.Base.Bytes.contains
    dockpal_agent.Stack.Names.checked_dir dockpal_agent.FilePath.clean
    dockpal_agent.FilePath.join_path dockpal_agent.Base.Bytes.join dockpal_agent.FilePath.parts
    dockpal_agent.Base.Bytes.cons_head dockpal_agent.Base.Bytes.equal
    dockpal_agent.Base.Bytes.insert dockpal_agent.Base.Bytes.keys dockpal_agent.Base.Bytes.mem
    dockpal_agent.Base.Bytes.trim dockpal_agent.Base.Bytes.trim_left
    dockpal_agent.FilePath.clean_onto dockpal_agent.FilePath.clean_step
    dockpal_agent.FilePath.parent dockpal_agent.Stack.Store.decimal dockpal_agent.Stack.Store.digits
    dockpal_agent.Stack.Store.place_stack dockpal_agent.Stack.Store.write_stack
    dockpal_agent.Stack.World.exists dockpal_agent.Stack.World.mkdir_all
    dockpal_agent.Stack.World.write_file_atomic
save_example = refl

save_stack-get_stack_example :
    get_stack outside saved (codes "web")
    ≡ ok (record {
      name = codes "web";
      status = unknown;
      status_text = [];
      managed = true;
      compose_yaml = codes "services: {}";
      compose_env = codes "A=1\n";
    })
unfolding dockpal_agent.Base.Bytes.join
save_stack-get_stack_example =
    save_stack-get_stack outside (codes "srv") (codes "stacks" ∷ []) (srv, (stacks, tt)) refl
      (λ p. refl) (codes "web") (codes "services: {}") (codes "A=1\n") true empty saved save_example

abbrev with_global : World
with_global = record {
  dirs = codes "/srv/stacks" ∷ codes "/srv/stacks" ∷ [];
  files = (codes "/srv/stacks/global.env", codes "# none") ∷ [];
  held = [];
  runs = [];
}

global_example : set_global_env outside (codes "# none") empty ≡ (ok tt, with_global)
unfolding set_global_env validate_env_file dockpal_agent.Stack.Store.env_lines
    dockpal_agent.Base.Bytes.split dockpal_agent.Base.Bytes.equal
    dockpal_agent.Base.Bytes.trim_space dockpal_agent.Base.Bytes.has_prefix
    dockpal_agent.Stack.World.mkdir_all dockpal_agent.Stack.World.write_file_atomic
    dockpal_agent.Base.Bytes.mem dockpal_agent.Base.Bytes.insert dockpal_agent.FilePath.join_path
    dockpal_agent.FilePath.clean dockpal_agent.Base.Bytes.join dockpal_agent.FilePath.parts
    dockpal_agent.FilePath.clean_onto dockpal_agent.FilePath.clean_step
    dockpal_agent.Base.Bytes.cons_head dockpal_agent.Base.Bytes.contains_byte
    dockpal_agent.Base.Bytes.trim dockpal_agent.Base.Bytes.trim_left dockpal_agent.FilePath.parent
    dockpal_agent.Stack.Store.decimal dockpal_agent.Stack.Store.digits
global_example = refl

set_global_env-get_global_env_example : get_global_env outside with_global ≡ ok (codes "# none")
set_global_env-get_global_env_example =
    set_global_env-get_global_env outside (codes "# none") empty with_global refl global_example

lifecycle-Guarded_example :
    Guarded (codes "web") (stack_run outside (codes "web") up)
    × Guarded (codes "web") (stack_update outside (codes "web"))
    × Guarded (codes "web") (stack_delete outside (codes "web"))
lifecycle-Guarded_example = lifecycle-Guarded outside (codes "web") up

bad_env : validate_env_file (codes "A=1\n\nB\n") ≡ err (codes "invalid .env format at line 3")
unfolding validate_env_file dockpal_agent.Stack.Store.env_lines dockpal_agent.Base.Bytes.split
    dockpal_agent.Base.Bytes.equal dockpal_agent.Base.Bytes.trim_space
    dockpal_agent.Base.Bytes.has_prefix dockpal_agent.Base.Bytes.contains_byte
    dockpal_agent.Stack.Store.decimal dockpal_agent.Stack.Store.digits
bad_env = refl

paused_too : status_convert (codes " Running(1), paused(1)") ≡ codes "running"
unfolding status_convert dockpal_agent.Stack.Status.convert dockpal_agent.Base.Bytes.has_prefix
    dockpal_agent.Base.Bytes.to_lower dockpal_agent.Base.Bytes.trim_space
    dockpal_agent.Base.Bytes.contains
paused_too = refl

abbrev running_web : ComposeLsEntry
running_web = record {
  name = codes "web";
  status = codes "running(1)";
  config_files = codes "/srv/stacks/web/compose.yaml";
}

abbrev busy_outside : Outside
busy_outside = record outside { list_projects = λ runs. ok (running_web ∷ []) }

list_stacks_lem_example :
    (ss : List Stack) × (list_stacks busy_outside saved ≡ ok ss)
    × Distinct ss
    × ((n : Bytes)
        → find n ss
          ≡ after_all
              (codes "/srv/stacks")
              n
              (running_web ∷ [])
              (find n (draft (codes "web") ∷ [])))
unfolding find dockpal_agent.Stack.Listing.drafts dockpal_agent.Stack.Store.compose_file_path_in
    dockpal_agent.Stack.Store.first_present dockpal_agent.Base.Bytes.mem
    dockpal_agent.Base.Bytes.keys dockpal_agent.FilePath.join_path dockpal_agent.FilePath.clean
    dockpal_agent.Base.Bytes.join dockpal_agent.FilePath.parts dockpal_agent.FilePath.clean_onto
    dockpal_agent.Base.Bytes.split dockpal_agent.FilePath.clean_step
list_stacks_lem_example =
    list_stacks_lem busy_outside saved (running_web ∷ []) refl refl (cons refl nil)
