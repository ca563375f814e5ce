-- ===== src/Deploy/Session/Channel.antt =====
-- What a reader of a deploy session receives (internal/docker/deploy_stream.go), for every
-- interleaving of the deployment's and the reader's steps.
use dockpal_agent.Base.{
  ◌≤◌, ◌<◌, false, List, [], ◌∷◌, ◌++◌, ◌≡◌, refl, sym, ap, ◌∙◌, length, length-append, ltb, arith,
  append_assoc, Bool-cases, inl, inr,
}
use dockpal_agent.Base.Bytes.{Bytes}
use dockpal_agent.Deploy.Session.{
  DeployEvent, DeploySession, event_capacity, new_session, emit, receive_from, receive, close,
}

-- The first list is the second with some entries left out.
pub data Sub {A : Type 0} : List A → List A → Type 0 where
  nil : Sub [] []
  keep : {x : A} {xs ys : List A} → Sub xs ys → Sub (x ∷ xs) (x ∷ ys)
  skip : {y : A} {xs ys : List A} → Sub xs ys → Sub xs (y ∷ ys)

module _ {A : Type 0} where
  Sub-refl : (xs : List A) → Sub xs xs
  Sub-refl [] = nil
  Sub-refl (x ∷ xs) = keep (Sub-refl xs)

  Sub-snoc : {xs ys : List A} (y : A) → Sub xs ys → Sub (xs ++ y ∷ []) (ys ++ y ∷ [])
  Sub-snoc y nil = keep nil
  Sub-snoc y (keep s) = keep (Sub-snoc y s)
  Sub-snoc y (skip s) = skip (Sub-snoc y s)

  Sub-drop : {xs ys : List A} (y : A) → Sub xs ys → Sub xs (ys ++ y ∷ [])
  Sub-drop y nil = skip nil
  Sub-drop y (keep s) = keep (Sub-drop y s)
  Sub-drop y (skip s) = skip (Sub-drop y s)

-- A session that has come from `s` by steps of its deployment and of its reader; the list is what the
-- deployment has given to Emit.
pub data Runs (s : DeploySession) : List DeployEvent → DeploySession → Type 0 where
  start : Runs s [] s
  emits :
      {es : List DeployEvent} {t : DeploySession} (e : DeployEvent)
      → Runs s es t
      → Runs s (es ++ e ∷ []) (emit e t)
  receives : {es : List DeployEvent} {t : DeploySession} → Runs s es t → Runs s es (receive t)
  closes : {es : List DeployEvent} {t : DeploySession} → Runs s es t → Runs s es (close t)

-- everything that has gone through the channel
unfoldable pub delivered : DeploySession → List DeployEvent
delivered s = s.taken ++ s.events

-- What holds of a session behind the events that were given to Emit.
pub record Orderly (es : List DeployEvent) (s : DeploySession) : Type 0 where
  pub bounded : length s.events ≤ event_capacity
  pub subsequence : Sub (delivered s) es
  pub lossless : length es ≤ event_capacity → delivered s ≡ es

received :
    (s : DeploySession) (es : List DeployEvent)
    → s.events ≡ es
    → (delivered (receive_from s es) ≡ delivered s)
      × (length (receive_from s es).events ≤ length s.events)
unfolding delivered
received s [] h = (refl, omega arith)
received s (e ∷ es) h = rw h (append_assoc s.taken (e ∷ []) es, omega arith)

module _ {es : List DeployEvent} where
  receive-Orderly : (s : DeploySession) → Orderly es s → Orderly es (receive s)
  unfolding receive
  receive-Orderly s o =
      let (same, fewer) = received s s.events refl in
      record {
        bounded = omega (arith, o.bounded);
        subsequence = rw same o.subsequence;
        lossless = λ h. same ∙ o.lossless h;
      }

  close-Orderly : (s : DeploySession) → Orderly es s → Orderly es (close s)
  unfolding close delivered
  close-Orderly s o = record {
    bounded = o.bounded;
    subsequence = o.subsequence;
    lossless = o.lossless;
  }

  not_full :
      (e : DeployEvent) (s : DeploySession)
      → Orderly es s
      → ltb (length s.events) event_capacity ≡ false
      → length (es ++ e ∷ []) ≤ event_capacity
      → ⊥
  unfolding delivered
  not_full e s o full h =
      let short : length es < event_capacity = omega (arith, length-append es (e ∷ [])) in
      let all : length (s.taken ++ s.events) ≡ length es = ap length (o.lossless (omega arith)) in
      ground (arith, length-append s.taken s.events)

  emit-Orderly :
      (e : DeployEvent) (s : DeploySession) → Orderly es s → Orderly (es ++ e ∷ []) (emit e s)
  unfolding emit delivered
  emit-Orderly e s o = elim (Bool-cases (ltb (length s.events) event_capacity)) [
    | inl room ↦ rw room (record {
      bounded = ground (arith, length-append s.events (e ∷ []));
      subsequence = rw (sym (append_assoc s.taken s.events (e ∷ []))) (Sub-snoc e o.subsequence);
      lossless = λ h.
          sym (append_assoc s.taken s.events (e ∷ []))
          ∙ ap (λ x. x ++ e ∷ []) (o.lossless (omega (arith, length-append es (e ∷ []))));
    })
    | inr full ↦ rw full (record {
      bounded = o.bounded;
      subsequence = Sub-drop e o.subsequence;
      lossless = λ h. absurd (not_full e s o full h);
    })
  ]

-- Whatever the interleaving of the deployment and the reader, the channel of a new session never holds
-- more than its 50 events, what the reader has received and what still waits is a subsequence of the
-- emitted events in their order, and nothing is lost while at most 50 have been emitted.
pub Runs-Orderly :
    (id : Bytes) (es : List DeployEvent) (s : DeploySession)
    → Runs (new_session id) es s
    → Orderly es s
unfolding new_session delivered
Runs-Orderly id es s r = go r
  where
    go : {es : List DeployEvent} {s : DeploySession} → Runs (new_session id) es s → Orderly es s
    go start = record { bounded = omega arith; subsequence = nil; lossless = λ h. refl }
    go (emits e r) = emit-Orderly e _ (go r)
    go (receives r) = receive-Orderly _ (go r)
    go (closes r) = close-Orderly _ (go r)
