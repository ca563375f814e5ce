-- ===== src/Edge/Route.antt =====
-- `extractPathParam` of internal/edge/client.go, and `parts` of handleStackRequest.
pub mod Laws
use dockpal_agent.Base.{ℕ, zero, suc, List, [], ◌∷◌, ◌==◌}
use dockpal_agent.Base.Bytes.{Bytes, split, trim}

-- strings.Split(strings.Trim(path, "/"), "/")
unfoldable pub path_parts : Bytes → List Bytes
path_parts path = split b'/' (trim (λ c. c == b'/') path)

-- parts[index], or "" where there is none
abbrev pub get_or_empty : List Bytes → ℕ → Bytes
get_or_empty [] i = []
get_or_empty (w ∷ ws) zero = w
get_or_empty (w ∷ ws) (suc i) = get_or_empty ws i

unfoldable pub extract_path_param : Bytes → ℕ → Bytes
extract_path_param path index = get_or_empty (path_parts path) index
