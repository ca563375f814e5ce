-- ===== src/Compose/Order/Cycles.antt =====
-- `topologicalSort` of internal/docker/compose.go: its error, and chains of dependencies.
use dockpal_agent.Base.{
  ℕ, zero, suc, ◌+◌, true, List, [], ◌∷◌, ◌≡◌, refl, sym, ap, ◌⊎◌, inl, inr, arith, All, Bool-cases,
  length,
}
use mathlib.Core.Path.{subst}
use dockpal_agent.Base.Bytes.{Bytes, equal, mem, keys}
use dockpal_agent.Base.Bytes.Laws.{equal_iff, mem-append, mem-concat}
use dockpal_agent.Compose.Order.{
  Deps, State, Visit, done, cycle, out_of_fuel, continue, deps_of, visit_all, enter, visit, initial,
  topological_sort,
}
use dockpal_agent.Compose.Order.Sorted.{
  Ordered, nil, snoc, topological_sort-Ordered, Visited, Inv, visit-Post, enter-Inv, Inv-initial,
}

-- A name depends on another, directly or through others.
pub data Reaches (deps : Deps) (x : Bytes) : Bytes → Type 0 where
  direct : {y : Bytes} → mem y (deps_of deps x) ≡ true → Reaches deps x y
  through : {y z : Bytes} → Reaches deps x y → mem z (deps_of deps y) ≡ true → Reaches deps x z

Visited-mem : (ds o : List Bytes) (d : Bytes) → Visited ds o → mem d ds ≡ true → mem d o ≡ true
unfolding mem
Visited-mem [] o d h m = cc
Visited-mem (e ∷ ds) o d h m = elim (Bool-cases (equal e d)) [
  | inl same ↦ subst (λ x. mem x o ≡ true) ((equal_iff e d).0 same) h.0
  | inr other ↦ Visited-mem ds o d h.1 (ground arith)
]

module _ (deps : Deps) where
  -- what stands in an order stands behind its dependencies, so those are there too
  closed_direct :
      (o : List Bytes) (x y : Bytes)
      → Ordered deps o
      → mem x o ≡ true
      → mem y (deps_of deps x) ≡ true
      → mem y o ≡ true
  unfolding mem
  closed_direct o x y nil m d = cc
  closed_direct o x y (snoc {o = p} n r absent ready e) m d = elim (Bool-cases (equal n x)) [
    | inl same ↦
        let y_in : mem y p ≡ true =
          Visited-mem (deps_of deps n) p y ready
            (subst (λ k. mem y (deps_of deps k) ≡ true) (sym ((equal_iff n x).0 same)) d) in
        rw e (mem-concat y n p y_in)
    | inr other ↦
        let x_in : mem x p ≡ true = ground (arith, ap (mem x) e, mem-append x p (n ∷ [])) in
        rw e (mem-concat y n p (closed_direct p x y r x_in d))
  ]

  closed :
      (o : List Bytes) (x y : Bytes)
      → Ordered deps o
      → mem x o ≡ true
      → Reaches deps x y
      → mem y o ≡ true
  closed o x y r m (direct d) = closed_direct o x y r m d
  closed o x z r m (through {y} p d) = closed_direct o y z r (closed o x y r m p) d

  -- the first step of a chain of dependencies, from a name whose dependencies are all in an order
  reach_in :
      (p : List Bytes) (n y : Bytes)
      → Ordered deps p
      → Visited (deps_of deps n) p
      → Reaches deps n y
      → mem y p ≡ true
  reach_in p n y r ready (direct d) = Visited-mem (deps_of deps n) p y ready d
  reach_in p n z r ready (through {y} q d) = closed_direct p y z r (reach_in p n y r ready q) d

  acyclic : (o : List Bytes) (x : Bytes) → Ordered deps o → mem x o ≡ true → ¬ (Reaches deps x x)
  unfolding mem
  acyclic o x nil m c = cc
  acyclic o x (snoc {o = p} n r absent ready e) m c = elim (Bool-cases (equal n x)) [
    | inl same ↦
        let back : Reaches deps n n =
          subst (λ k. Reaches deps k k) (sym ((equal_iff n x).0 same)) c in
        cc (absent, reach_in p n n r ready back)
    | inr other ↦
        let x_in : mem x p ≡ true = ground (arith, ap (mem x) e, mem-append x p (n ∷ [])) in
        acyclic p x r x_in c
  ]

  -- If the sort succeeds, no name of its order depends on itself; in particular no key does.
  pub topological_sort-acyclic :
      (st : State) (x : Bytes)
      → topological_sort deps ≡ done st
      → mem x st.order ≡ true
      → ¬ (Reaches deps x x)
  topological_sort-acyclic st x h m = acyclic st.order x (topological_sort-Ordered deps st h).0 m

  -- `node` is a dependency of the top of the stack, and so on down.
  abbrev Chain : Bytes → List Bytes → Type 0
  Chain node [] = Unit
  Chain node (x ∷ xs) = (mem node (deps_of deps x) ≡ true) × Chain x xs

  Chain-Reaches :
      (s : List Bytes) (node x : Bytes) → Chain node s → mem x s ≡ true → Reaches deps x node
  unfolding mem
  Chain-Reaches [] node x ch m = cc
  Chain-Reaches (t ∷ s) node x ch m = elim (Bool-cases (equal t x)) [
    | inl same ↦
        direct (subst (λ k. mem node (deps_of deps k) ≡ true) ((equal_iff t x).0 same) ch.0)
    | inr other ↦ through (Chain-Reaches s t x ch.1 (ground arith)) ch.0
  ]

continue-eq-cycle :
    (v : Visit) (next : State → Visit) {n : Bytes}
    → continue v next ≡ cycle n
    → (v ≡ cycle n) ⊎ ((st : State) × (v ≡ done st) × (next st ≡ cycle n))
continue-eq-cycle (done st) next h = inr (st, refl, h)
continue-eq-cycle (cycle m) next h = inl h
continue-eq-cycle out_of_fuel next h = cc

module _ (deps : Deps) where
  module _ (fuel : ℕ) (n : Bytes)
      (found : (d : Bytes) (st : State)
        → Inv deps st
        → Chain deps d st.in_stack
        → visit deps fuel d st ≡ cycle n
        → Reaches deps n n) where
    visit_all-cycle :
        (ds : List Bytes) (st : State)
        → Inv deps st
        → All (λ d. Chain deps d st.in_stack) ds
        → visit_all (visit deps fuel) ds st ≡ cycle n
        → Reaches deps n n
    unfolding visit_all
    visit_all-cycle [] st i ch h = cc
    visit_all-cycle (d ∷ ds) st i ch h = elim (continue-eq-cycle (visit deps fuel d st) _ h) [
      | inl here ↦ found d st i ch.0 here
      | inr (s, first, rest) ↦
          let p = visit-Post deps fuel d st s i first in
          visit_all-cycle ds s p.inv (rw p.stack ch.1) rest
    ]

  Chain-All :
      (node : Bytes) (s : List Bytes) (ds : List Bytes)
      → Chain deps node s
      → ((d : Bytes) → mem d ds ≡ true → mem d (deps_of deps node) ≡ true)
      → All (λ d. Chain deps d (node ∷ s)) ds
  unfolding mem
  Chain-All node s [] ch sub = tt
  Chain-All node s (d ∷ ds) ch sub = (
    (sub d (ground (arith, equal_iff d d)), ch),
    Chain-All node s ds ch (λ e m. sub e (ground arith)),
  )

  visit-cycle :
      (fuel : ℕ) (node : Bytes) (st : State) (n : Bytes)
      → Inv deps st
      → Chain deps node st.in_stack
      → visit deps fuel node st ≡ cycle n
      → Reaches deps n n
  unfolding visit
  visit-cycle zero node st n i ch h = cc
  visit-cycle (suc fuel) node st n i ch h = elim (Bool-cases (mem node st.in_stack)) [
    | inl on ↦
        let e : cycle node ≡ cycle n = rw on at h in
        let same : node ≡ n = cc in
        subst (λ k. Reaches deps k k) same (Chain-Reaches deps st.in_stack node node ch on)
    | inr off ↦ elim (Bool-cases (mem node st.visited)) [
      | inl old ↦ cc (rw (off, old) at h)
      | inr fresh ↦ elim (continue-eq-cycle _ _ (rw (off, fresh) at h)) [
        | inl inner ↦
            visit_all-cycle fuel n (λ d s. visit-cycle fuel d s n) (deps_of deps node)
              (enter node st) (enter-Inv deps node st fresh i)
              (Chain-All node st.in_stack (deps_of deps node) ch (λ d m. m)) inner
        | inr (s, looped, left) ↦ cc
      ]
    ]
  ]

  All-Unit : (ks : List Bytes) → All (λ d. Chain deps d []) ks
  All-Unit [] = tt
  All-Unit (k ∷ ks) = (tt, All-Unit ks)

  -- If the sort reports a circular dependency at a name, that name depends on itself, directly or
  -- through others.
  pub topological_sort-cycle : (n : Bytes) → topological_sort deps ≡ cycle n → Reaches deps n n
  unfolding topological_sort
  topological_sort-cycle n h =
      visit_all-cycle (length deps + 2) n (λ d s. visit-cycle (length deps + 2) d s n) (keys deps)
        initial (Inv-initial deps) (All-Unit (keys deps)) h
