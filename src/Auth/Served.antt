-- ===== src/Auth/Served.antt =====
-- The requests that TokenMiddleware of internal/auth/middleware.go serves.
use mathlib.Core.Path.{subst}
use dockpal_agent.Base.{
  ℕ, true, false, [], ◌∷◌, ◌++◌, ◌≡◌, ◌↔◌, refl, ap, ◌∙◌, Option, none, some, Bool-cases, inl, inr,
  arith, if◌then◌else◌, ◌==◌, ==_iff,
}
use dockpal_agent.Base.Bytes.{Bytes, codes, equal, split_first, contains_byte}
use dockpal_agent.Base.Bytes.Laws.{equal_iff, equal_refl, split_first-append}
use dockpal_agent.Auth.{next, unauthorized, is_bearer, check_header, token_middleware}

-- The two ways in: "<scheme> <token>" with a scheme that is Bearer in any case, or, without an
-- Authorization header, the token as the query parameter.
pub data Allowed (token : Bytes) : Bytes → Bytes → Type 0 where
  by_header :
      {header query : Bytes} (scheme : Bytes)
      → contains_byte scheme b' ' ≡ false
      → is_bearer scheme ≡ true
      → header ≡ scheme ++ b' ' ∷ token
      → Allowed token header query
  by_query : {query : Bytes} → query ≡ token → Allowed token [] query

-- What SplitN has cut is put together again.
split_first-parts :
    (sep : ℕ) (s b : Bytes)
    → (split_first sep s).1 ≡ some b
    → (s ≡ (split_first sep s).0 ++ sep ∷ b) × (contains_byte (split_first sep s).0 sep ≡ false)
unfolding split_first contains_byte
split_first-parts sep [] b h = cc
split_first-parts sep (c ∷ s) b h = elim (Bool-cases (c == sep)) [
  | inl here ↦
      let e : some s ≡ some b = rw here at h in
      let same : s ≡ b = cc in
      let is : c ≡ sep = (==_iff c sep).0 here in
      rw here ((ap (λ (x : ℕ). x ∷ s) is ∙ ap (◌∷◌ sep) same), refl)
  | inr later ↦
      let (parts, clear) = split_first-parts sep s b (rw later at h) in
      rw later (ap (◌∷◌ c) parts, ground (arith, clear))
]

check_header-next :
    (token : Bytes) (cut : Bytes × Option Bytes)
    → check_header token cut ≡ next
    → (scheme : Bytes) × (cut ≡ (scheme, some token)) × (is_bearer scheme ≡ true)
unfolding check_header
check_header-next token (scheme, none) h = cc
check_header-next token (scheme, some given) h = elim (Bool-cases (is_bearer scheme)) [
  | inr other ↦ cc (rw other at h)
  | inl bearer ↦ elim (Bool-cases (equal given token)) [
    | inr wrong ↦ cc (rw (bearer, wrong) at h)
    | inl right ↦
        (scheme, ap (λ (g : Bytes). (scheme, some g)) ((equal_iff given token).0 right), bearer)
  ]
]

-- A request is served exactly when it carries the token in one of the two ways.
pub token_middleware_iff :
    (token header query_token : Bytes)
    → (token_middleware token header query_token ≡ next) ↔ Allowed token header query_token
unfolding token_middleware
token_middleware_iff token [] query_token = (forth, back)
  where
    forth :
        (if equal query_token token then next else unauthorized (codes "missing authorization"))
          ≡ next
        → Allowed token [] query_token
    forth h = elim (Bool-cases (equal query_token token)) [
      | inl same ↦ by_query ((equal_iff query_token token).0 same)
      | inr other ↦ cc (rw other at h)
    ]

    back :
        Allowed token [] query_token
        → (if equal query_token token then next else unauthorized (codes "missing authorization"))
          ≡ next
    back (by_query e) = rw ((equal_iff query_token token).1 e) refl
    back (by_header [] clear bearer e) = cc e
    back (by_header (d ∷ scheme) clear bearer e) = cc e
token_middleware_iff token (c ∷ header) query_token = (forth, back)
  where
    forth :
        check_header token (split_first b' ' (c ∷ header)) ≡ next
        → Allowed token (c ∷ header) query_token
    forth h =
        let (scheme, cut, bearer) = check_header-next token (split_first b' ' (c ∷ header)) h in
        let head : (split_first b' ' (c ∷ header)).0 ≡ scheme =
          ap (λ (x : Bytes × Option Bytes). x.0) cut in
        let (parts, clear) =
          split_first-parts b' ' (c ∷ header) token (ap (λ (x : Bytes × Option Bytes). x.1) cut) in
        by_header scheme (subst (λ x. contains_byte x b' ' ≡ false) head clear) bearer
          (parts ∙ ap (λ (x : Bytes). x ++ b' ' ∷ token) head)

    back :
        Allowed token (c ∷ header) query_token
        → check_header token (split_first b' ' (c ∷ header)) ≡ next
    back (by_header scheme clear bearer e) =
        rw (e, split_first-append b' ' scheme token clear)
          (unfold check_header in rw (bearer, equal_refl token) refl)
