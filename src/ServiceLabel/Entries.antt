-- ===== src/ServiceLabel/Entries.antt =====
-- What the writes do to what is found.
use mathlib.Core.Path.{subst}
use dockpal_agent.Base.{Bool-cases, inl, inr, true, ◌≡◌, none, some, arith, if◌then◌else◌}
use dockpal_agent.Base.Bytes.{Bytes, equal}
use dockpal_agent.Base.Bytes.Laws.{equal_iff}
use dockpal_agent.ServiceLabel.{
  Node, Nodes, nil, cons, value_of, append, find_map_value, put_map_value, plain_node, find_item,
  put_item, item_matches,
}

pub find_map_value-put :
    (key j : Bytes) (new old : Node) (c : Nodes)
    → find_map_value key c ≡ some old
    → find_map_value j (put_map_value key new c)
      ≡ (if equal key j then some new else find_map_value j c)
unfolding find_map_value put_map_value
find_map_value-put key j new old nil h = cc
find_map_value-put key j new old (cons k nil) h = cc
find_map_value-put key j new old (cons k (cons v rest)) h = ground (
  arith,
  find_map_value-put key j new old rest,
  equal_iff (value_of k) key,
  equal_iff (value_of k) j,
  equal_iff key j,
)

-- A list of nodes that are keys and values in turn.
abbrev pub IsPaired : Nodes → Type 0
IsPaired nil = Unit
IsPaired (cons k nil) = ⊥
IsPaired (cons k (cons v rest)) = IsPaired rest

pub find_map_value-append :
    (key j : Bytes) (new : Node) (c : Nodes)
    → IsPaired c
    → find_map_value key c ≡ none
    → find_map_value j (append c (cons (plain_node key) (cons new nil)))
      ≡ (if equal key j then some new else find_map_value j c)
unfolding find_map_value
find_map_value-append key j new nil p h = ground arith
find_map_value-append key j new (cons k nil) p h = absurd p
find_map_value-append key j new (cons k (cons v rest)) p h = ground (
  arith,
  find_map_value-append key j new rest p,
  equal_iff (value_of k) key,
  equal_iff (value_of k) j,
  equal_iff key j,
)

pub find_item-put :
    (key : Bytes) (new old : Node) (c : Nodes)
    → find_item key c ≡ some old
    → item_matches key new ≡ true
    → find_item key (put_item key new c) ≡ some new
unfolding find_item put_item
find_item-put key new old nil h m = cc
find_item-put key new old (cons n c) h m = elim (Bool-cases (item_matches key n)) [
  | inl here ↦ rw here (rw m)
  | inr later ↦ rw later (rw later (find_item-put key new old c (rw later at h) m))
]

pub find_item-append :
    (key : Bytes) (new : Node) (c : Nodes)
    → find_item key c ≡ none
    → item_matches key new ≡ true
    → find_item key (append c (cons new nil)) ≡ some new
unfolding find_item
find_item-append key new nil h m = rw m
find_item-append key new (cons n c) h m = elim (Bool-cases (item_matches key n)) [
  | inl here ↦ cc (rw here at h)
  | inr later ↦ rw later (find_item-append key new c (rw later at h) m)
]

pub find_item_matches :
    (key : Bytes) (c : Nodes) (n : Node) → find_item key c ≡ some n → item_matches key n ≡ true
unfolding find_item
find_item_matches key nil n h = cc
find_item_matches key (cons k c) n h = elim (Bool-cases (item_matches key k)) [
  | inl here ↦
      let e : some k ≡ some n = rw here at h in
      let same : k ≡ n = cc in subst (λ x. item_matches key x ≡ true) same here
  | inr later ↦ find_item_matches key c n (rw later at h)
]
