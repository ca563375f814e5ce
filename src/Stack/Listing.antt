-- ===== src/Stack/Listing.antt =====
-- ListStacks of internal/docker/stack_store.go. The map of stacks and the order of their names are one
-- list of stacks here.
pub mod Merged
use dockpal_agent.Base.{
  Bool, true, false, ◌&&◌, ◌||◌, not, List, [], ◌∷◌, ◌++◌, Option, none, some, Result, ok, err,
  if◌then◌else◌,
}
use dockpal_agent.Base.Bytes.{Bytes, codes, equal, has_prefix}
use dockpal_agent.FilePath.{clean, join_path}
use dockpal_agent.Stack.World.{World, Outside, ComposeLsEntry}
use dockpal_agent.Stack.Store.{Stack, compose_file_path_in}
use dockpal_agent.Stack.Status.{status_convert}

abbrev pub draft : Bytes → Stack
draft name = record {
  name = name;
  status = codes "draft";
  status_text = codes "draft";
  managed = true;
  compose_yaml = [];
  compose_env = [];
}

abbrev pub new_stack : Bytes → Stack
new_stack name = record {
  name = name;
  status = [];
  status_text = [];
  managed = false;
  compose_yaml = [];
  compose_env = [];
}

abbrev is_some : Option Bytes → Bool
is_some none = false
is_some (some p) = true

-- the scan of the base directory
unfoldable pub drafts : Outside → World → List (Bytes × Bool) → List Stack
drafts o w [] = []
drafts o w ((name, is_dir) ∷ entries) =
    let rest = drafts o w entries in
    if is_dir && is_some (compose_file_path_in w (join_path o.compose_base_path name))
    then draft name ∷ rest
    else rest

abbrev pub drafts_of : Outside → World → Option (List (Bytes × Bool)) → List Stack
drafts_of o w none = []
drafts_of o w (some entries) = drafts o w entries

-- p.ConfigFiles lies below the base directory
unfoldable pub is_managed : Bytes → Bytes → Bool
is_managed base config_files =
    not (equal config_files []) && has_prefix (clean config_files) (clean base ++ codes "/")

-- what a project makes of its stack
unfoldable pub refresh : Bytes → ComposeLsEntry → Stack → Stack
refresh base p s = record s {
  status = status_convert p.status;
  status_text = p.status;
  managed = s.managed || is_managed base p.config_files;
}

-- one project: its stack is changed where it stands, or added at the end
unfoldable pub merge : Bytes → ComposeLsEntry → List Stack → List Stack
merge base p [] = refresh base p (new_stack p.name) ∷ []
merge base p (s ∷ ss) =
    let rest = merge base p ss in if equal s.name p.name then refresh base p s ∷ ss else s ∷ rest

unfoldable pub merge_all : Bytes → List ComposeLsEntry → List Stack → List Stack
merge_all base [] ss = ss
merge_all base (p ∷ ps) ss = merge_all base ps (merge base p ss)

-- a failure of the CLI still gives what is on the disk, if anything is
unfoldable pub listed : Bytes → Result (List ComposeLsEntry) → List Stack → Result (List Stack)
listed base (ok ps) ss = ok (merge_all base ps ss)
listed base (err e) [] = err e
listed base (err e) (s ∷ ss) = ok (s ∷ ss)

unfoldable pub list_stacks : Outside → World → Result (List Stack)
list_stacks o w =
    if o.has_cli
    then listed o.compose_base_path (o.list_projects w.runs) (drafts_of o w (o.read_dir w))
    else err (codes "docker compose CLI integration not initialized")
