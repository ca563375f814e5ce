-- ===== src/Compose/Order/Sorted.antt =====
-- `topologicalSort` of internal/docker/compose.go: the order that it returns, by an invariant of its
-- visits.
use mathlib.Core.Path.{subst}
use dockpal_agent.Base.{
  ℕ, zero, suc, ◌+◌, true, false, List, [], ◌∷◌, ◌++◌, ◌≡◌, refl, sym, ◌∙◌, inl, inr, arith, All,
  Bool-cases, ◌||◌, length,
}
use dockpal_agent.Base.Bytes.{Bytes, mem, keys}
use dockpal_agent.Base.Bytes.Laws.{equal_iff, mem-append, mem-concat, mem-concat_self}
use dockpal_agent.Compose.Order.{
  Deps, State, Visit, done, cycle, out_of_fuel, continue, remove, deps_of, visit_all, enter, leave,
  visit, initial, topological_sort,
}

continue-eq-done :
    (v : Visit) (next : State → Visit) {st' : State}
    → continue v next ≡ done st'
    → (st : State) × (v ≡ done st) × (next st ≡ done st')
continue-eq-done (done st) next h = (st, refl, h)
continue-eq-done (cycle n) next h = cc
continue-eq-done out_of_fuel next h = cc

-- Built by appending names whose dependencies are there already, and which are not there yet.
pub data Ordered (deps : Deps) : List Bytes → Type 0 where
  nil : Ordered deps []
  snoc :
      {o o' : List Bytes} (n : Bytes)
      → Ordered deps o
      → mem n o ≡ false
      → All (λ d. mem d o ≡ true) (deps_of deps n)
      → o' ≡ o ++ n ∷ []
      → Ordered deps o'

pub record Inv (deps : Deps) (st : State) : Type 0 where
  pub ordered : Ordered deps st.order
  pub visited : (x : Bytes) → mem x st.visited ≡ mem x st.order
  pub apart : (x : Bytes) → mem x st.in_stack ≡ true → mem x st.order ≡ false

-- What holds behind a visit that succeeds; `P` is what it has put into the order.
pub record Post (deps : Deps) (P : List Bytes → Type 0) (st st' : State) : Type 0 where
  pub inv : Inv deps st'
  pub stack : st'.in_stack ≡ st.in_stack
  pub grows : (x : Bytes) → mem x st.order ≡ true → mem x st'.order ≡ true
  pub holds : P st'.order

abbrev pub Visited : List Bytes → List Bytes → Type 0
Visited ds o = All (λ d. mem d o ≡ true) ds

remove_absent : (x : Bytes) (ys : List Bytes) → mem x ys ≡ false → remove x ys ≡ ys
unfolding remove mem
remove_absent x [] h = refl
remove_absent x (y ∷ ys) h = ground (arith, remove_absent x ys)

remove_head : (x : Bytes) (ys : List Bytes) → mem x ys ≡ false → remove x (x ∷ ys) ≡ ys
unfolding remove
remove_head x ys h = rw ((equal_iff x x).1 refl) (remove_absent x ys h)

All-grow :
    (o o' ds : List Bytes)
    → ((x : Bytes) → mem x o ≡ true → mem x o' ≡ true)
    → Visited ds o
    → Visited ds o'
All-grow o o' [] g h = tt
All-grow o o' (d ∷ ds) g h = (g d h.0, All-grow o o' ds g h.1)

module _ (deps : Deps) where
  module _ (go : Bytes → State → Visit)
      (ok : (d : Bytes) (st st' : State)
        → Inv deps st
        → go d st ≡ done st'
        → Post deps (Visited (d ∷ [])) st st') where
    visit_all-Post :
        (ds : List Bytes) (st st' : State)
        → Inv deps st
        → visit_all go ds st ≡ done st'
        → Post deps (Visited ds) st st'
    unfolding visit_all
    visit_all-Post [] st st' i h =
        let e : st ≡ st' = cc in
        subst (Post deps (Visited []) st) e
          (record { inv = i; stack = refl; grows = λ x m. m; holds = tt })
    visit_all-Post (d ∷ ds) st st' i h =
        let (s, first, rest) = continue-eq-done (go d st) _ h in
        let p = ok d st s i first in
        let q = visit_all-Post ds s st' p.inv rest in
        record {
          inv = q.inv;
          stack = q.stack ∙ p.stack;
          grows = λ x m. q.grows x (p.grows x m);
          holds = (q.grows d p.holds.0, q.holds);
        }

  pub enter-Inv :
      (node : Bytes) (st : State)
      → mem node st.visited ≡ false
      → Inv deps st
      → Inv deps (enter node st)
  unfolding mem
  enter-Inv node st fresh i = record {
    ordered = i.ordered;
    visited = i.visited;
    apart = λ x m. ground (arith, i.apart x, i.visited node, equal_iff node x);
  }

  leave-Inv :
      (node : Bytes) (s : List Bytes) (st : State)
      → st.in_stack ≡ node ∷ s
      → mem node s ≡ false
      → Visited (deps_of deps node) st.order
      → Inv deps st
      → Inv deps (leave node st)
  leave-Inv node s st top fresh ready i =
      let here : mem node st.in_stack ≡ true =
        rw top (unfold mem in ground (arith, equal_iff node node)) in
      let absent : mem node st.order ≡ false = i.apart node here in
      record {
        ordered = snoc node i.ordered absent ready refl;
        visited = λ x. rw mem-append (unfold mem in ground (arith, i.visited x));
        apart = λ x m.
            let m' : mem x s ≡ true = rw (top, remove_head node s fresh) at m in
            rw mem-append (apart_from x m');
      }
    where
      apart_from : (x : Bytes) → mem x s ≡ true → (mem x st.order || mem x (node ∷ [])) ≡ false
      apart_from x m =
          let was : mem x st.order ≡ false = i.apart x (rw top (unfold mem in ground (arith, m))) in
          unfold mem in ground (arith, was, equal_iff node x)

  pub visit-Post :
      (fuel : ℕ) (node : Bytes) (st st' : State)
      → Inv deps st
      → visit deps fuel node st ≡ done st'
      → Post deps (Visited (node ∷ [])) st st'
  unfolding visit
  visit-Post zero node st st' i h = cc
  visit-Post (suc fuel) node st st' i h = elim (Bool-cases (mem node st.in_stack)) [
    | inl on ↦ cc (rw on at h)
    | inr off ↦ elim (Bool-cases (mem node st.visited)) [
      | inl old ↦
          let e : done st ≡ done st' = rw (off, old) at h in
          let same : st ≡ st' = cc in
          subst (Post deps (Visited (node ∷ [])) st) same (record {
            inv = i;
            stack = refl;
            grows = λ x m. m;
            holds = (sym (i.visited node) ∙ old, tt);
          })
      | inr fresh ↦
          let (s, looped, left) = continue-eq-done _ _ (rw (off, fresh) at h) in
          let p =
            visit_all-Post (visit deps fuel) (visit-Post fuel) (deps_of deps node) _ s
              (enter-Inv node st fresh i) looped in
          let same : leave node s ≡ st' = cc in
          subst (Post deps (Visited (node ∷ [])) st) same (record {
            inv = leave-Inv node st.in_stack s p.stack off p.holds p.inv;
            stack = rw p.stack (remove_head node st.in_stack off);
            grows = λ x m. mem-concat x node s.order (p.grows x m);
            holds = (mem-concat_self node s.order, tt);
          })
    ]
  ]

  pub Inv-initial : Inv deps initial
  unfolding mem
  Inv-initial = record { ordered = nil; visited = λ x. refl; apart = λ x m. cc }

  -- If the sort succeeds, its order has no name twice, every dependency of a name stands before the
  -- name, and every key of the map is in it.
  pub topological_sort-Ordered :
      (st : State)
      → topological_sort deps ≡ done st
      → Ordered deps st.order × All (λ k. mem k st.order ≡ true) (keys deps)
  unfolding topological_sort
  topological_sort-Ordered st h =
      let p =
        visit_all-Post (visit deps (length deps + 2)) (visit-Post (length deps + 2)) (keys deps)
          initial st Inv-initial h in
      (p.inv.ordered, p.holds)
