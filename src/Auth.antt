-- ===== src/Auth.antt =====
-- internal/auth/middleware.go: which requests TokenMiddleware serves.
pub mod Served
mod Examples
use dockpal_agent.Base.{Bool, true, false, ◌&&◌, List, [], ◌∷◌, Option, none, some, if◌then◌else◌}
use dockpal_agent.Base.Bytes.{Bytes, codes, equal, split_first, to_lower}

-- The request is passed on, or answered with 401 and an error text.
pub data Verdict : Type 0 where
  next : Verdict
  unauthorized : Bytes → Verdict

abbrev pub invalid : Verdict
invalid = unauthorized (codes "invalid token")

-- strings.EqualFold(scheme, "Bearer"), the letters of which fold to ASCII letters only
unfoldable pub is_bearer : Bytes → Bool
is_bearer scheme = equal (to_lower scheme) (codes "bearer")

-- the test of the Authorization header, by strings.SplitN(authHeader, " ", 2)
unfoldable pub check_header : Bytes → Bytes × Option Bytes → Verdict
check_header token (scheme, some given) =
    if is_bearer scheme && equal given token then next else invalid
check_header token (scheme, none) = invalid

-- TokenMiddleware, by the Authorization header and the query parameter (each "" where it is missing)
unfoldable pub token_middleware : Bytes → Bytes → Bytes → Verdict
token_middleware token [] query_token =
    if equal query_token token then next else unauthorized (codes "missing authorization")
token_middleware token (c ∷ header) query_token = check_header token (split_first b' ' (c ∷ header))
