-- ===== src/Stack/World.antt =====
-- What the stack operations see: the disk, the locks and the docker CLI. `os.Stat` fails exactly for
-- a path that is not there. A write goes through a temporary file that is removed on every way out,
-- so only its result is modelled.
use dockpal_agent.Base.{
  Bool, true, false, ◌||◌, List, [], ◌∷◌, ◌++◌, Option, none, some, Result, ok, err, if◌then◌else◌,
}
use dockpal_agent.Base.Bytes.{Bytes, codes, equal, mem, lookup, insert, keys}
use dockpal_agent.FilePath.{join_path}

-- `runs` are the commands of docker compose so far, each with its directory.
pub record World : Type 0 where
  pub dirs : List Bytes
  pub files : List (Bytes × Bytes)
  pub held : List Bytes
  pub runs : List (Bytes × List Bytes)

-- yaml.Unmarshal into `map[string]any`: a nil map, or its entries.
pub data Any : Type 0 where
  null object other : Any

-- An entry of `docker compose ls`.
pub record ComposeLsEntry : Type 0 where
  pub name : Bytes
  pub status : Bytes
  pub config_files : Bytes

-- The base directory, its entries (each with whether it is a directory), whether a CLI is registered, and the code that is not the program's: the
-- parsers, the disk's failures, and what docker answers behind the commands before.
pub record Outside : Type 0 where
  pub compose_base_path : Bytes
  pub has_cli : Bool
  pub unmarshal : Bytes → Result (Option (List (Bytes × Any)))
  pub read_dir : World → Option (List (Bytes × Bool))
  pub list_projects : List (Bytes × List Bytes) → Result (List ComposeLsEntry)
  pub write_fails : Bytes → Option Bytes
  pub mkdir_fails : Bytes → Option Bytes
  pub remove_fails : Bytes → Option Bytes
  pub read_fails : Bytes → Option Bytes
  pub run_fails : List (Bytes × List Bytes) → Bytes → List Bytes → Option Bytes

abbrev pub M : Type 0 → Type 0
M A = World → Result A × World

abbrev pub then_do : {A B : Type 0} → Result A × World → (A → M B) → Result B × World
then_do (ok a, w) f = f a w
then_do (err e, w) f = (err e, w)

infixl 5 ◌>>=◌
abbrev pub ◌>>=◌ : {A B : Type 0} → M A → (A → M B) → M B
(m >>= f) w = then_do (m w) f

abbrev pub lift : {A : Type 0} → Result A → M A
lift r w = (r, w)

-- os.Stat(path) without an error
unfoldable pub exists : World → Bytes → Bool
exists w path = mem path w.dirs || mem path (keys w.files)

-- what a failure before a step makes of the step
abbrev pub unless : Option Bytes → (World → World) → M (Unit {0})
unless none f w = (ok tt, f w)
unless (some e) f w = (err e, w)

-- writeFileAtomic(filepath.Join(dir, name), content): the directory must be there
unfoldable pub write_file_atomic : Outside → Bytes → Bytes → Bytes → M (Unit {0})
write_file_atomic o dir name content w =
    if mem dir w.dirs
    then unless (o.write_fails (join_path dir name))
        (λ v. record v { files = insert (join_path dir name) content v.files }) w
    else (err (codes "no such file or directory"), w)

-- os.MkdirAll(dir); the parents that it creates are not kept track of
unfoldable pub mkdir_all : Outside → Bytes → M (Unit {0})
mkdir_all o dir = unless (o.mkdir_fails dir) (λ v. record v { dirs = dir ∷ v.dirs })

-- os.ReadFile(path)
unfoldable pub read_file : Outside → World → Bytes → Option Bytes
read_file o w path = elim (o.read_fails path) [ none ↦ lookup path w.files | some e ↦ none ]

-- TryLock, and Unlock
unfoldable pub try_lock : Bytes → World → Bool × World
try_lock name w = if mem name w.held then (false, w) else (true, record w { held = name ∷ w.held })

unfoldable pub without : Bytes → List Bytes → List Bytes
without name [] = []
without name (n ∷ ns) = let rest = without name ns in if equal n name then rest else n ∷ rest

unfoldable pub unlock : Bytes → World → World
unlock name w = record w { held = without name w.held }

-- cli.Run(ctx, dir, args...)
unfoldable pub run : Outside → Bytes → List Bytes → M (Unit {0})
run o dir args w = elim (o.run_fails w.runs dir args) [
  | none ↦ (ok tt, record w { runs = w.runs ++ (dir, args) ∷ [] })
  | some e ↦ (err e, record w { runs = w.runs ++ (dir, args) ∷ [] })
]
