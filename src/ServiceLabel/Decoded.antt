-- ===== src/ServiceLabel/Decoded.antt =====
-- What parseLabels (internal/docker/compose.go) finds in the labels that yaml.v3 decodes, by the key.
use dockpal_agent.Base.{
  true, false, List, [], ◌∷◌, ◌++◌, ◌≡◌, refl, sym, ap, ◌∙◌, Option, none, some, Bool-cases, inl,
  inr,
}
use dockpal_agent.Base.Bytes.{Bytes, codes, equal, lookup, insert, split_first, contains_byte}
use dockpal_agent.Base.Bytes.Laws.{equal_refl, equal_iff, lookup-insert, split_first-append}
use dockpal_agent.Compose.Spec.{
  Value, str, null, scalar, render, label_entry, labels_from_seq, labels_from_map,
}
use dockpal_agent.ServiceLabel.{
  Node, node, Nodes, nil, cons, str_tag, value_of, find_map_value, find_item, put_item, append,
  item_matches, plain_node, put_map_value,
}
use dockpal_agent.ServiceLabel.Entries.{IsPaired, find_map_value-put, find_map_value-append}

-- A value that gives no label of the key.
unfoldable pub Silent : Bytes → Value → Type 0
Silent key (str s) = equal (split_first b'=' s).0 key ≡ false
Silent key _ = Unit

module _ (item : Node → Value) where
  -- the decoded items of a list, and entries of a mapping
  unfoldable pub items : Nodes → List Value
  items nil = []
  items (cons n c) = item n ∷ items c

  pub entries : Nodes → List (Bytes × Value)
  entries nil = []
  entries (cons k nil) = []
  entries (cons k (cons v c)) = (value_of k, item v) ∷ entries c

  -- What SetServiceLabel does not take for an item of the key is none.
  unfoldable pub Quiet : Bytes → Nodes → Type 0
  Quiet key nil = Unit
  Quiet key (cons n c) = (item_matches key n ≡ false → Silent key (item n)) × Quiet key c

-- No second item of the key.
unfoldable pub Once : Bytes → Nodes → Type 0
Once key nil = Unit
Once key (cons n c) = (item_matches key n ≡ true → find_item key c ≡ none) × Once key c

-- Keys are scalars tagged as strings, and none stands twice; a decoder refuses the others.
IsString : Node → Type 0
IsString (node dockpal_agent.ServiceLabel.scalar t v s c) = t ≡ str_tag
IsString _ = ⊥

pub Keyed : Nodes → Type 0
Keyed nil = Unit
Keyed (cons k nil) = ⊥
Keyed (cons k (cons v c)) = IsString k × (find_map_value (value_of k) c ≡ none) × Keyed c

abbrev or_entry : (Node → Value) → Option Node → Option Bytes → Option Bytes
or_entry item none other = other
or_entry item (some n) other = some (render (item n))

module _ (item : Node → Value) (key : Bytes) where
  pub lookup-entries :
      (c : Nodes) (m : List (Bytes × Bytes))
      → Keyed c
      → lookup key (labels_from_map (entries item c) m)
        ≡ or_entry item (find_map_value key c) (lookup key m)
  unfolding entries Keyed labels_from_map find_map_value
  lookup-entries nil m h = refl
  lookup-entries (cons k nil) m h = absurd h
  lookup-entries (cons k (cons v c)) m h =
      let rest = lookup-entries c (insert (value_of k) (render (item v)) m) h.2 in
      elim (Bool-cases (equal (value_of k) key)) [
        | inl same ↦
            let gone : find_map_value key c ≡ none =
              ap (λ j. find_map_value j c) (sym ((equal_iff (value_of k) key).0 same)) ∙ h.1 in
            rw same
              (rest ∙ rw (gone, lookup-insert (value_of k) key (render (item v)) m, same) refl)
        | inr other ↦
            rw other (rest ∙ rw (lookup-insert (value_of k) key (render (item v)) m, other) refl)
      ]

  one : Value → List (Bytes × Bytes) → List (Bytes × Bytes)
  one x m = labels_from_seq (x ∷ []) m

  first_one :
      (x : Value) (xs : List Value) (m : List (Bytes × Bytes))
      → labels_from_seq (x ∷ xs) m ≡ labels_from_seq xs (one x m)
  unfolding labels_from_seq one
  first_one null xs m = refl
  first_one (scalar t) xs m = refl
  first_one (str s) xs m = refl

  entry-Silent :
      (cut : Bytes × Option Bytes) (m : List (Bytes × Bytes))
      → equal cut.0 key ≡ false
      → lookup key (label_entry cut m) ≡ lookup key m
  unfolding label_entry
  entry-Silent (k, none) m h = lookup-insert k key [] m ∙ rw h refl
  entry-Silent (k, some v) m h = lookup-insert k key v m ∙ rw h refl

  one-Silent :
      (x : Value) (m : List (Bytes × Bytes)) → Silent key x → lookup key (one x m) ≡ lookup key m
  unfolding one Silent labels_from_seq
  one-Silent null m h = refl
  one-Silent (scalar t) m h = refl
  one-Silent (str s) m h = entry-Silent (split_first b'=' s) m h

  one_read :
      (v : Bytes) (m : List (Bytes × Bytes))
      → contains_byte key b'=' ≡ false
      → lookup key (one (str (key ++ (codes "=" ++ v))) m) ≡ some v
  unfolding one labels_from_seq label_entry
  one_read v m no_eq =
      rw (split_first-append b'=' key v no_eq)
        (lookup-insert key key v m ∙ rw (equal_refl key) refl)

  -- items without a match leave what is found
  lookup-Quiet :
      (c : Nodes) (m : List (Bytes × Bytes))
      → find_item key c ≡ none
      → Quiet item key c
      → lookup key (labels_from_seq (items item c) m) ≡ lookup key m
  unfolding items Quiet labels_from_seq find_item
  lookup-Quiet nil m h q = refl
  lookup-Quiet (cons n c) m h q = elim (Bool-cases (item_matches key n)) [
    | inl here ↦ cc (rw here at h)
    | inr later ↦
        ap (lookup key) (first_one (item n) (items item c) m)
        ∙ lookup-Quiet c (one (item n) m) (rw later at h) q.1
        ∙ one-Silent (item n) m (q.0 later)
  ]

  pub lookup-items :
      (v : Bytes) (n : Node) (c : Nodes) (m : List (Bytes × Bytes))
      → contains_byte key b'=' ≡ false
      → find_item key c ≡ some n
      → item n ≡ str (key ++ (codes "=" ++ v))
      → Once key c
      → Quiet item key c
      → lookup key (labels_from_seq (items item c) m) ≡ some v
  unfolding items Quiet Once find_item labels_from_seq
  lookup-items v n nil m no_eq h e once q = cc
  lookup-items v n (cons i c) m no_eq h e once q =
      ap (lookup key) (first_one (item i) (items item c) m)
      ∙ elim (Bool-cases (item_matches key i)) [
        | inl here ↦
            let found : some i ≡ some n = rw here at h in
            let same : i ≡ n = cc in
            lookup-Quiet c (one (item i) m) (once.0 here) q.1
            ∙ ap (λ x. lookup key (one x m)) (ap item same ∙ e)
            ∙ one_read v m no_eq
        | inr later ↦ lookup-items v n c (one (item i) m) no_eq (rw later at h) e once.1 q.1
      ]

  -- what the writes keep
  pub Once-put : (new : Node) (c : Nodes) → Once key c → Once key (put_item key new c)
  unfolding Once put_item
  Once-put new nil h = h
  Once-put new (cons n c) h = elim (Bool-cases (item_matches key n)) [
    | inl here ↦ rw here (λ _. h.0 here, h.1)
    | inr later ↦ rw later (λ e. cc, Once-put new c h.1)
  ]

  pub Quiet-put :
      (new : Node) (c : Nodes)
      → item_matches key new ≡ true
      → Quiet item key c
      → Quiet item key (put_item key new c)
  unfolding Quiet put_item
  Quiet-put new nil m h = h
  Quiet-put new (cons n c) m h = elim (Bool-cases (item_matches key n)) [
    | inl here ↦ rw here (λ e. cc, h.1)
    | inr later ↦ rw later (h.0, Quiet-put new c m h.1)
  ]

  pub Once-append :
      (new : Node) (c : Nodes) → find_item key c ≡ none → Once key (append c (cons new nil))
  unfolding Once find_item
  Once-append new nil h = (λ _. refl, tt)
  Once-append new (cons n c) h = elim (Bool-cases (item_matches key n)) [
    | inl here ↦ cc (rw here at h)
    | inr later ↦ (λ e. cc, Once-append new c (rw later at h))
  ]

  pub Quiet-append :
      (new : Node) (c : Nodes)
      → item_matches key new ≡ true
      → Quiet item key c
      → Quiet item key (append c (cons new nil))
  unfolding Quiet
  Quiet-append new nil m h = (λ e. cc, tt)
  Quiet-append new (cons n c) m h = (h.0, Quiet-append new c m h.1)

other_key : (a b : Bytes) → equal a b ≡ false → equal b a ≡ false
other_key a b h = elim (Bool-cases (equal b a)) [
  | inl e ↦ cc (h, (equal_iff a b).1 (sym ((equal_iff b a).0 e)))
  | inr e ↦ e
]

pub Keyed-IsPaired : (c : Nodes) → Keyed c → IsPaired c
unfolding Keyed
Keyed-IsPaired nil h = tt
Keyed-IsPaired (cons k nil) h = absurd h
Keyed-IsPaired (cons k (cons v c)) h = Keyed-IsPaired c h.2

-- an entry that is replaced, and a new one, keep the keys
pub Keyed-put :
    (key : Bytes) (new old : Node) (c : Nodes)
    → Keyed c
    → find_map_value key c ≡ some old
    → Keyed (put_map_value key new c)
unfolding Keyed put_map_value find_map_value
Keyed-put key new old nil h found = h
Keyed-put key new old (cons k nil) h found = h
Keyed-put key new old (cons k (cons v c)) h found = elim (Bool-cases (equal (value_of k) key)) [
  | inl here ↦ rw here (h.0, h.1, h.2)
  | inr later ↦
      let behind : find_map_value key c ≡ some old = rw later at found in
      rw later (
        h.0,
        find_map_value-put key (value_of k) new old c behind
            ∙ rw (other_key (value_of k) key later) h.1,
        Keyed-put key new old c h.2 behind,
      )
]

pub Keyed-append :
    (key : Bytes) (new : Node) (c : Nodes)
    → Keyed c
    → find_map_value key c ≡ none
    → Keyed (append c (cons (plain_node key) (cons new nil)))
unfolding Keyed IsString find_map_value
Keyed-append key new nil h missing = (refl, refl, tt)
Keyed-append key new (cons k nil) h missing = absurd h
Keyed-append key new (cons k (cons v c)) h missing = elim (Bool-cases (equal (value_of k) key)) [
  | inl here ↦ cc (rw here at missing)
  | inr later ↦
      let behind : find_map_value key c ≡ none = rw later at missing in
      (
        h.0,
        find_map_value-append key (value_of k) new c (Keyed-IsPaired c h.2) behind
            ∙ rw (other_key (value_of k) key later) h.1,
        Keyed-append key new c h.2 behind,
      )
]

pub Keyed-pair : (key : Bytes) (new : Node) → Keyed (cons (plain_node key) (cons new nil))
unfolding Keyed IsString find_map_value
Keyed-pair key new = (refl, refl, tt)
