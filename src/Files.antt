-- ===== src/Files.antt =====
-- internal/docker/files.go: files inside a container, through commands that the docker daemon runs.
-- The daemon's ExecCreate and ExecAttach are a parameter; what is asked of it is recorded.
pub mod Paths
pub mod Quote
pub mod Writing
mod Examples
pub mod Deletion
use dockpal_agent.Base.{
  ℕ, ◌+◌, ◌-◌, ◌*◌, ◌/◌, ◌%◌, Bool, true, false, ◌&&◌, ◌||◌, not, List, [], ◌∷◌, ◌++◌, Result, ok,
  err, ◌==◌, ltb, leb, any, if◌then◌else◌,
}
use dockpal_agent.Base.Bytes.{
  Bytes, codes, equal, within, has_prefix, contains, split, replace_byte, mem, is_space,
}
use dockpal_agent.FilePath.{clean}

-- the class of bytes that containerIDRegex allows first, and behind the first
abbrev is_alnum : ℕ → Bool
is_alnum c = within b'a' b'z' c || within b'A' b'Z' c || within b'0' b'9' c

abbrev is_id_byte : ℕ → Bool
is_id_byte c = is_alnum c || c == b'_' || c == b'.' || c == b'-'

-- at most n bytes, each of them one that the test allows
unfoldable pub at_most : ℕ → (ℕ → Bool) → Bytes → Bool
at_most n p [] = true
at_most n p (c ∷ s) = ltb 0 n && p c && at_most (n - 1) p s

-- ValidateContainerID
unfoldable pub validate_container_id : Bytes → Result (Unit {0})
validate_container_id [] = err (codes "container ID is required")
validate_container_id (c ∷ s) =
    if is_alnum c && at_most 63 is_id_byte s
    then ok tt
    else err (codes "invalid container ID format")

abbrev pub is_control : ℕ → Bool
is_control c = c == 0 || (ltb c 32 && not (c == 9))

unfoldable pub has_control : Bytes → Bool
has_control path = any is_control path

-- ValidatePath
unfoldable pub validate_path : Bytes → Result Bytes
validate_path path =
    if has_control path
    then err (codes "path contains invalid control character")
    else if not (has_prefix (clean path) (codes "/"))
    then err (codes "path must be absolute")
    else if contains (clean path) (codes "..")
    then err (codes "path traversal not allowed")
    else ok (clean path)

-- ExecCreate with a container and a command, and ExecAttach with what ExecCreate returned.
pub data Ask : Type 0 where
  exec_create : Bytes → List Bytes → Ask
  exec_attach : Bytes → Ask

-- The daemon's answer, behind what it has been asked before.
abbrev pub Daemon : Type 0
Daemon = List Ask → Ask → Result Bytes

abbrev pub M : Type 0 → Type 0
M A = List Ask → Result A × List Ask

abbrev pub then_do : {A B : Type 0} → Result A × List Ask → (A → M B) → Result B × List Ask
then_do (ok a, log) f = f a log
then_do (err e, log) f = (err e, log)

infixl 5 ◌>>=◌
abbrev pub ◌>>=◌ : {A B : Type 0} → M A → (A → M B) → M B
(m >>= f) log = then_do (m log) f

abbrev pub lift : {A : Type 0} → Result A → M A
lift r log = (r, log)

abbrev pub wrapped : {A : Type 0} → (Bytes → Bytes) → Result A × List Ask → Result A × List Ask
wrapped f (ok a, log) = (ok a, log)
wrapped f (err e, log) = (err (f e), log)

-- an error with a text around it
abbrev pub wrap : {A : Type 0} → (Bytes → Bytes) → M A → M A
wrap f m log = wrapped f (m log)

abbrev pub ask : Daemon → Ask → M Bytes
ask daemon a log = (daemon log a, log ++ a ∷ [])

unfoldable pub exec_command : Daemon → Bytes → List Bytes → M Bytes
exec_command daemon id cmd =
    wrap (λ e. codes "exec create: " ++ e) (ask daemon (exec_create id cmd)) >>= λ exec.
    wrap (λ e. codes "exec attach: " ++ e) (ask daemon (exec_attach exec))

-- what ListFiles, ReadFile, WriteFile and DeleteFile begin with
unfoldable pub checked : Bytes → Bytes → Result Bytes
checked id path = elim (validate_container_id id) [ err e ↦ err e | ok _ ↦ validate_path path ]

pub record FileInfo : Type 0 where
  pub name : Bytes
  pub size : Bytes
  pub is_dir : Bool

-- a byte that is no blank, before the fields of what follows it
abbrev field_byte : ℕ → Bytes → List Bytes → List Bytes
field_byte c [] ws = (c ∷ []) ∷ ws
field_byte c (d ∷ s) [] = (c ∷ []) ∷ []
field_byte c (d ∷ s) (w ∷ ws) = if is_space d then (c ∷ []) ∷ w ∷ ws else (c ∷ w) ∷ ws

-- bytes.Fields(line)
unfoldable pub fields : Bytes → List Bytes
fields [] = []
fields (c ∷ s) = let rest = fields s in if is_space c then rest else field_byte c s rest

abbrev starts_with_d : Bytes → Bool
starts_with_d [] = false
starts_with_d (c ∷ s) = c == b'd'

-- one line of `ls -la`, with what it adds to the files behind it
unfoldable pub file_line : List Bytes → List FileInfo → List FileInfo
file_line (mode ∷ f1 ∷ f2 ∷ f3 ∷ size ∷ f5 ∷ f6 ∷ f7 ∷ name ∷ more) files =
    if equal name (codes ".") || equal name (codes "..")
    then files
    else record { name = name; size = size; is_dir = starts_with_d mode } ∷ files
file_line _ files = files

unfoldable pub file_lines : List Bytes → List FileInfo
file_lines [] = []
file_lines (line ∷ lines) = file_line (fields line) (file_lines lines)

-- the first line is left out
abbrev tail : List Bytes → List Bytes
tail [] = []
tail (line ∷ lines) = lines

unfoldable pub parse_listing : Bytes → List FileInfo
parse_listing output = file_lines (tail (split b'\n' output))

abbrev or_root : Bytes → Bytes
or_root [] = codes "/"
or_root (c ∷ s) = c ∷ s

module _ (daemon : Daemon) where
  unfoldable pub list_files : Bytes → Bytes → M (List FileInfo)
  list_files id path = lift (checked id (or_root path)) >>= λ p.
      exec_command daemon id (codes "ls" ∷ codes "-la" ∷ p ∷ []) >>= λ output.
      lift (ok (parse_listing output))

  unfoldable pub read_file : Bytes → Bytes → M Bytes
  read_file id path = lift (checked id path) >>= λ p. exec_command daemon id (codes "cat" ∷ p ∷ [])

-- base64.StdEncoding.EncodeToString
unfoldable pub base64_char : ℕ → ℕ
base64_char n =
    if ltb n 26
    then n + 65
    else if ltb n 52
    then n + 71
    else if ltb n 62
    then n - 4
    else if n == 62
    then b'+'
    else b'/'

unfoldable pub base64 : Bytes → Bytes
base64 [] = []
base64 (a ∷ []) = base64_char (a / 4) ∷ base64_char (a % 4 * 16) ∷ codes "=="
base64 (a ∷ b ∷ []) =
    base64_char (a / 4) ∷ base64_char (a % 4 * 16 + b / 16) ∷ base64_char (b % 16 * 4) ∷ codes "="
base64 (a ∷ b ∷ c ∷ s) =
    base64_char (a / 4)
    ∷ base64_char (a % 4 * 16 + b / 16)
    ∷ base64_char (b % 16 * 4 + c / 64)
    ∷ base64_char (c % 64)
    ∷ base64 s

-- strings.ReplaceAll(cleanPath, "'", "'\\''")
unfoldable pub escape : Bytes → Bytes
escape path = replace_byte 39 (39 ∷ b'\\' ∷ 39 ∷ 39 ∷ []) path

-- printf '%s' '…' | base64 -d > '…'
unfoldable pub write_script : Bytes → Bytes → Bytes
write_script encoded escaped =
    codes "printf '%s' '" ++ (encoded ++ (codes "' | base64 -d > '" ++ (escaped ++ codes "'")))

abbrev pub blocked : List Bytes
blocked =
    codes "/"
    ∷ codes "/etc"
    ∷ codes "/bin"
    ∷ codes "/sbin"
    ∷ codes "/usr"
    ∷ codes "/var"
    ∷ codes "/boot"
    ∷ codes "/dev"
    ∷ codes "/proc"
    ∷ codes "/sys"
    ∷ codes "/lib"
    ∷ codes "/lib64"
    ∷ codes "/opt"
    ∷ codes "/home"
    ∷ codes "/root"
    ∷ codes "/run"
    ∷ codes "/tmp"
    ∷ []

-- cleanPath == b || cleanPath == b+"/", for one of the blocked directories
unfoldable pub is_blocked : Bytes → Bool
is_blocked path = any (λ b. equal path b || equal path (b ++ codes "/")) blocked

module _ (daemon : Daemon) where
  unfoldable pub write_file : Bytes → Bytes → Bytes → M (Unit {0})
  write_file id path content = lift (checked id path) >>= λ p.
      wrap (λ e. codes "file write failed: " ++ (e ++ codes " (output: )"))
        (exec_command daemon id
          (codes "sh" ∷ codes "-c" ∷ write_script (base64 content) (escape p) ∷ []))
      >>= λ _. lift (ok tt)

  unfoldable pub delete_file : Bytes → Bytes → M (Unit {0})
  delete_file id path = lift (checked id path) >>= λ p.
      if is_blocked p
      then lift (err (codes "deleting " ++ (p ++ codes " is not allowed for safety")))
      else exec_command daemon id (codes "rm" ∷ codes "-rf" ∷ p ∷ []) >>= λ _. lift (ok tt)
