-- ===== src/Stack/Names.antt =====
-- ValidateStackName and StackDir of internal/docker/stack_store.go.
pub mod Child
use dockpal_agent.Base.{
  ℕ, Bool, true, false, ◌&&◌, ◌||◌, not, List, [], ◌∷◌, ◌++◌, Result, ok, err, ◌==◌, every,
  if◌then◌else◌, ◌>>=◌,
}
use dockpal_agent.Base.Bytes.{Bytes, codes, equal, within, has_prefix, contains, contains_byte}
use dockpal_agent.FilePath.{clean, join_path}

abbrev pub is_name_byte : ℕ → Bool
is_name_byte c = within b'a' b'z' c || within b'0' b'9' c || c == b'_' || c == b'-'

abbrev pub bad_name : Bytes
bad_name = codes "stack name must be lowercase [a-z0-9_-]"

unfoldable pub validate_stack_name : Bytes → Result (Unit {0})
validate_stack_name [] = err bad_name
validate_stack_name (c ∷ s) = if every is_name_byte (c ∷ s) then ok tt else err bad_name

-- the path tests of StackDir, on the cleaned base directory
unfoldable pub checked_dir : Bytes → Bytes → Result Bytes
checked_dir base name =
    let dir = clean (join_path base name) in
    if equal dir base || not (has_prefix dir (base ++ codes "/"))
    then err (codes "invalid project path")
    else ok dir

unfoldable pub stack_dir : Bytes → Bytes → Result Bytes
stack_dir compose_base_path name = validate_stack_name name >>= λ _.
    if contains name (codes "..") || contains_byte name b'/' || contains_byte name b'\\'
    then err (codes "invalid project name")
    else checked_dir (clean compose_base_path) name
