-- ===== src/Compose/Order.antt =====
-- `topologicalSort` of internal/docker/compose.go. A Go map is iterated in any order: the model takes
-- the dependency map as a list of entries and goes through it in that order, so a theorem for every
-- list holds for every order. The recursion of the closure `visit` takes fuel.
pub mod Sorted
pub mod Cycles
pub mod Total
use dockpal_agent.Base.{
  ℕ, zero, suc, ◌+◌, Bool, true, false, List, [], ◌∷◌, ◌++◌, Option, none, some, if◌then◌else◌,
  length,
}
use dockpal_agent.Base.Bytes.{Bytes, equal, mem, lookup, keys}

abbrev pub Deps : Type 0
Deps = List (Bytes × List Bytes)

-- visited, inStack and order
pub record State : Type 0 where
  pub visited : List Bytes
  pub in_stack : List Bytes
  pub order : List Bytes

pub data Visit : Type 0 where
  done : State → Visit
  cycle : Bytes → Visit
  out_of_fuel : Visit

-- inStack[node] = false
unfoldable pub remove : Bytes → List Bytes → List Bytes
remove x [] = []
remove x (y ∷ ys) = let rest = remove x ys in if equal y x then rest else y ∷ rest

-- deps[node], which is nil where the node is no key
abbrev pub or_nil : Option (List Bytes) → List Bytes
or_nil none = []
or_nil (some ds) = ds

abbrev pub deps_of : Deps → Bytes → List Bytes
deps_of deps node = or_nil (lookup node deps)

-- `if err := …; err != nil { return err }`, and what follows it
abbrev pub continue : Visit → (State → Visit) → Visit
continue (done st) next = next st
continue (cycle n) next = cycle n
continue out_of_fuel next = out_of_fuel

-- `for _, dep := range … { if err := visit(dep); err != nil { return err } }`
unfoldable pub visit_all : (Bytes → State → Visit) → List Bytes → State → Visit
visit_all visit [] st = done st
visit_all visit (d ∷ ds) st = continue (visit d st) (λ st'. visit_all visit ds st')

abbrev pub enter : Bytes → State → State
enter node st = record st { in_stack = node ∷ st.in_stack }

abbrev pub leave : Bytes → State → State
leave node st = record {
  visited = node ∷ st.visited;
  in_stack = remove node st.in_stack;
  order = st.order ++ node ∷ [];
}

unfoldable pub visit : Deps → ℕ → Bytes → State → Visit
visit deps zero node st = out_of_fuel
visit deps (suc fuel) node st =
    if mem node st.in_stack
    then cycle node
    else if mem node st.visited
    then done st
    else continue (visit_all (visit deps fuel) (deps_of deps node) (enter node st))
        (λ st'. done (leave node st'))

abbrev pub initial : State
initial = record { visited = []; in_stack = []; order = [] }

-- Each nested call enters a key that is not on the stack, or a name with no dependencies.
unfoldable pub topological_sort : Deps → Visit
topological_sort deps = visit_all (visit deps (length deps + 2)) (keys deps) initial
