-- ===== src/Auth/Examples.antt =====
-- Single requests.
use dockpal_agent.Base.{◌≡◌, ◌↔◌, refl, []}
use dockpal_agent.Base.Bytes.{codes}
use dockpal_agent.Auth.{next, invalid, token_middleware}
use dockpal_agent.Auth.Served.{Allowed, token_middleware_iff}

token_middleware_iff_example :
    (token_middleware (codes "s3cret") (codes "bEARER s3cret") [] ≡ next)
    ↔ Allowed (codes "s3cret") (codes "bEARER s3cret") []
token_middleware_iff_example = token_middleware_iff (codes "s3cret") (codes "bEARER s3cret") []

served : token_middleware (codes "s3cret") (codes "bEARER s3cret") [] ≡ next
unfolding token_middleware dockpal_agent.Auth.check_header dockpal_agent.Base.Bytes.split_first
    dockpal_agent.Auth.is_bearer dockpal_agent.Base.Bytes.equal dockpal_agent.Base.Bytes.to_lower
served = refl

-- A header hides the query parameter.
hidden : token_middleware (codes "s3cret") (codes "Basic x") (codes "s3cret") ≡ invalid
unfolding token_middleware dockpal_agent.Auth.check_header dockpal_agent.Base.Bytes.split_first
    dockpal_agent.Auth.is_bearer dockpal_agent.Base.Bytes.equal dockpal_agent.Base.Bytes.to_lower
hidden = refl
