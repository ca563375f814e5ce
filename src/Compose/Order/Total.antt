-- ===== src/Compose/Order/Total.antt =====
-- The fuel of `topological_sort`: how deep its calls nest.
use dockpal_agent.Base.{
  ℕ, zero, suc, ◌+◌, ◌≤◌, ◌<◌, true, false, List, [], ◌∷◌, ◌≡◌, ◌≢◌, refl, ◌⊎◌, inl, inr, arith,
  if◌then◌else◌, Bool-cases, length,
}
use dockpal_agent.Base.Bytes.{Bytes, mem, keys, lookup}
use dockpal_agent.Base.Bytes.Laws.{equal_iff}
use dockpal_agent.Compose.Order.{
  Deps, State, Visit, done, cycle, out_of_fuel, continue, deps_of, visit_all, enter, visit, initial,
  topological_sort,
}
use dockpal_agent.Compose.Order.Sorted.{Inv, visit-Post, enter-Inv, Inv-initial}

continue-eq-out :
    (v : Visit) (next : State → Visit)
    → continue v next ≡ out_of_fuel
    → (v ≡ out_of_fuel) ⊎ ((st : State) × (v ≡ done st) × (next st ≡ out_of_fuel))
continue-eq-out (done st) next h = inr (st, refl, h)
continue-eq-out (cycle m) next h = cc
continue-eq-out out_of_fuel next h = inl refl

-- How many of the keys are not on the stack.
free : List Bytes → List Bytes → ℕ
free [] s = 0
free (k ∷ ks) s = (if mem k s then 0 else 1) + free ks s

free-le : (ks s : List Bytes) (x : Bytes) → free ks (x ∷ s) ≤ free ks s
unfolding free mem
free-le [] s x = omega arith
free-le (k ∷ ks) s x = ground (arith, free-le ks s x)

free-lt :
    (ks s : List Bytes) (x : Bytes)
    → mem x ks ≡ true
    → mem x s ≡ false
    → free ks (x ∷ s) < free ks s
unfolding free mem
free-lt [] s x m h = cc
free-lt (k ∷ ks) s x m h =
    ground (arith, free-lt ks s x, free-le ks s x, equal_iff k x, equal_iff x k, equal_iff x x)

free-le-length : (deps : Deps) (s : List Bytes) → free (keys deps) s ≤ length deps
unfolding free keys
free-le-length [] s = omega arith
free-le-length ((k, v) ∷ deps) s = ground (arith, free-le-length deps s)

deps_of_missing : (deps : Deps) (x : Bytes) → mem x (keys deps) ≡ false → deps_of deps x ≡ []
unfolding mem keys lookup
deps_of_missing [] x h = refl
deps_of_missing ((k, v) ∷ deps) x h = ground (arith, deps_of_missing deps x)

module _ (deps : Deps) where
  module _ (fuel : ℕ)
      (total : (d : Bytes) (st : State)
        → Inv deps st
        → free (keys deps) st.in_stack + 1 < fuel
        → visit deps fuel d st ≢ out_of_fuel) where
    visit_all-total :
        (ds : List Bytes) (st : State)
        → Inv deps st
        → free (keys deps) st.in_stack + 1 < fuel
        → visit_all (visit deps fuel) ds st ≢ out_of_fuel
    unfolding visit_all
    visit_all-total [] st i lt h = cc
    visit_all-total (d ∷ ds) st i lt h = elim (continue-eq-out (visit deps fuel d st) _ h) [
      | inl here ↦ total d st i lt here
      | inr (s, first, rest) ↦
          let p = visit-Post deps fuel d st s i first in
          visit_all-total ds s p.inv (rw p.stack lt) rest
    ]

  visit-total :
      (fuel : ℕ) (node : Bytes) (st : State)
      → Inv deps st
      → free (keys deps) st.in_stack + 1 < fuel
      → visit deps fuel node st ≢ out_of_fuel
  unfolding visit visit_all
  visit-total zero node st i lt h = absurd (omega arith)
  visit-total (suc fuel) node st i lt h = elim (Bool-cases (mem node st.in_stack)) [
    | inl on ↦ cc (rw on at h)
    | inr off ↦ elim (Bool-cases (mem node st.visited)) [
      | inl old ↦ cc (rw (off, old) at h)
      | inr fresh ↦ elim (Bool-cases (mem node (keys deps))) [
        | inr missing ↦ cc (rw (off, fresh, deps_of_missing deps node missing) at h)
        | inl key ↦ elim (continue-eq-out _ _ (rw (off, fresh) at h)) [
          | inl inner ↦
              visit_all-total fuel (visit-total fuel) (deps_of deps node) (enter node st)
                (enter-Inv deps node st fresh i)
                (omega (arith, free-lt (keys deps) st.in_stack node key off)) inner
          | inr (s, looped, left) ↦ cc
        ]
      ]
    ]
  ]

  -- The sort always ends with an order or with a circular dependency: the fuel is enough.
  pub topological_sort_total : topological_sort deps ≢ out_of_fuel
  unfolding topological_sort
  topological_sort_total h =
      visit_all-total (length deps + 2) (visit-total (length deps + 2)) (keys deps) initial
        (Inv-initial deps) (omega (arith, free-le-length deps [])) h
