-- ===== src/FilePath.antt =====
-- The calls of package path/filepath (on Unix): `Clean` and `Join`, after the rules of their
-- documentation, over the components between the slashes.
pub mod Clean
use dockpal_agent.Base.{Bool, true, false, ◌||◌, List, [], ◌∷◌, ◌++◌, reverse, if◌then◌else◌, not}
use dockpal_agent.Base.Bytes.{Bytes, codes, equal, split, join}

abbrev pub dot : Bytes
dot = codes "."

abbrev pub dot_dot : Bytes
dot_dot = codes ".."

-- ".." takes away the component before it. At the root it stands for nothing, and in a relative path
-- it stays where none is left to take.
unfoldable pub parent : Bool → List Bytes → List Bytes
parent true [] = []
parent false [] = dot_dot ∷ []
parent rooted (c ∷ out) = if equal c dot_dot then dot_dot ∷ c ∷ out else out

-- one component behind those kept so far, the last one first
unfoldable pub clean_step : Bool → List Bytes → Bytes → List Bytes
clean_step rooted out c =
    if equal c [] || equal c dot
    then out
    else if equal c dot_dot
    then parent rooted out
    else c ∷ out

unfoldable pub clean_onto : Bool → List Bytes → List Bytes → List Bytes
clean_onto rooted out [] = out
clean_onto rooted out (c ∷ cs) = clean_onto rooted (clean_step rooted out c) cs

abbrev or_dot : Bytes → Bytes
or_dot [] = dot
or_dot (b ∷ bs) = b ∷ bs

abbrev pub starts_at_root : Bytes → Bool
starts_at_root [] = false
starts_at_root (b ∷ bs) = equal (b ∷ []) (codes "/")

-- what is kept of the components
unfoldable pub parts : Bool → Bytes → List Bytes
parts rooted path = reverse (clean_onto rooted [] (split b'/' path))

abbrev pub render : Bool → List Bytes → Bytes
render true ws = b'/' ∷ join (codes "/") ws
render false ws = or_dot (join (codes "/") ws)

-- filepath.Clean(path)
unfoldable pub clean : Bytes → Bytes
clean path = render (starts_at_root path) (parts (starts_at_root path) path)

-- filepath.Join(a, b), of a text a that is not empty
unfoldable pub join_path : Bytes → Bytes → Bytes
join_path a [] = clean a
join_path a (b ∷ bs) = clean (a ++ (codes "/" ++ b ∷ bs))
