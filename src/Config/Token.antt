-- ===== src/Config/Token.antt =====
-- The token that the configuration requires (internal/config/config.go), and the middleware that
-- compares it (internal/auth/middleware.go).
use dockpal_agent.Base.{
  false, not, ◌&&◌, [], ◌≡◌, ◌≢◌, refl, sym, ap, ◌∙◌, Option, Result, ok, err, Bool-cases, inl, inr,
}
use dockpal_agent.Base.Bytes.{Bytes, codes, equal}
use dockpal_agent.Base.Bytes.Laws.{equal_iff}
use dockpal_agent.Compose.Spec.{ℤ}
use dockpal_agent.Auth.{token_middleware, unauthorized}
use dockpal_agent.Config.{Env, Config, loaded, load}

module _ (env : Env) (parse_duration : Bytes → Option ℤ) where
  abbrev config_or : Config → Result Config → Config
  config_or c (ok cfg) = cfg
  config_or c (err e) = c

  load-eq-ok :
      (cfg : Config)
      → load env parse_duration ≡ ok cfg
      → (equal (env (codes "DOCKPAL_TOKEN")) [] ≡ false) × (loaded env parse_duration ≡ cfg)
  unfolding load
  load-eq-ok cfg h =
      let mode = env (codes "DOCKPAL_MODE") in
      elim (Bool-cases (not (equal mode (codes "direct")) && not (equal mode (codes "edge")))) [
        | inl bad ↦ cc (rw bad at h)
        | inr good ↦ elim (Bool-cases (equal (env (codes "DOCKPAL_TOKEN")) [])) [
          | inl bare ↦ cc (rw (good, bare) at h)
          | inr given ↦
              elim (Bool-cases
                (equal mode (codes "edge") && equal (env (codes "DOCKPAL_EDGE_SERVER")) [])) [
                  | inl lone ↦ cc (rw (good, given, lone) at h)
                  | inr placed ↦ (
                    given,
                    ap (config_or (loaded env parse_duration)) (rw (good, given, placed) at h),
                  )
                ]
        ]
      ]

  -- A configuration that Load accepts has a token, so that the middleware refuses every request that
  -- has neither an Authorization header nor a token in its query.
  pub load_refuses_bare :
      (cfg : Config)
      → load env parse_duration ≡ ok cfg
      → (cfg.token ≢ [])
        × (token_middleware cfg.token [] [] ≡ unauthorized (codes "missing authorization"))
  unfolding loaded token_middleware
  load_refuses_bare cfg h =
      let (given, e) = load-eq-ok cfg h in
      let token : equal cfg.token [] ≡ false =
        ap (λ (c : Config). equal c.token []) (sym e) ∙ given in
      (
        (λ q. cc (token, (equal_iff cfg.token []).1 q)),
        elim (Bool-cases (equal [] cfg.token)) [
          | inr e ↦ rw e refl
          | inl e ↦ cc (token, (equal_iff cfg.token []).1 (sym ((equal_iff [] cfg.token).0 e)))
        ],
      )
