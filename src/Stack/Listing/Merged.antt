-- ===== src/Stack/Listing/Merged.antt =====
-- What a stack's entry in the list of stacks comes from.
use dockpal_agent.Base.{
  true, List, [], ◌∷◌, ◌≡◌, refl, ap, ◌∙◌, Option, none, some, ok, arith, Bool-cases, inl, inr,
  if◌then◌else◌,
}
use dockpal_agent.Base.Bytes.{Bytes, equal}
use dockpal_agent.Base.Bytes.Laws.{equal_iff}
use dockpal_agent.Stack.World.{World, Outside, ComposeLsEntry}
use dockpal_agent.Stack.Store.{Stack}
use dockpal_agent.Stack.Listing.{
  new_stack, drafts_of, refresh, merge, merge_all, listed, list_stacks,
}

-- The first stack of a name.
unfoldable pub find : Bytes → List Stack → Option Stack
find n [] = none
find n (s ∷ ss) = if equal s.name n then some s else find n ss

abbrev pub or_new : Bytes → Option Stack → Stack
or_new n none = new_stack n
or_new n (some s) = s

-- No name stands in the list twice.
pub data Distinct : List Stack → Type 0 where
  nil : Distinct []
  cons : {s : Stack} {ss : List Stack} → find s.name ss ≡ none → Distinct ss → Distinct (s ∷ ss)

-- What a project makes of the entry of a name.
abbrev pub after : Bytes → Bytes → ComposeLsEntry → Option Stack → Option Stack
after base n p old = if equal p.name n then some (refresh base p (or_new n old)) else old

-- What the projects make of the entry of a name, one after the other.
unfoldable pub after_all : Bytes → Bytes → List ComposeLsEntry → Option Stack → Option Stack
after_all base n [] old = old
after_all base n (p ∷ ps) old = after_all base n ps (after base n p old)

module _ (base : Bytes) where
  find-merge :
      (n : Bytes) (p : ComposeLsEntry) (ss : List Stack)
      → find n (merge base p ss) ≡ after base n p (find n ss)
  unfolding find merge refresh
  find-merge n p [] = elim (Bool-cases (equal p.name n)) [
    | inl same ↦
        rw same
          (ap (λ (m : Bytes). some (refresh base p (new_stack m))) ((equal_iff p.name n).0 same))
    | inr other ↦ rw other refl
  ]
  find-merge n p (s ∷ ss) =
      ground
        (arith, find-merge n p ss, equal_iff s.name p.name, equal_iff s.name n, equal_iff p.name n)

  find-merge_all :
      (n : Bytes) (ps : List ComposeLsEntry) (ss : List Stack)
      → find n (merge_all base ps ss) ≡ after_all base n ps (find n ss)
  unfolding merge_all after_all
  find-merge_all n [] ss = refl
  find-merge_all n (p ∷ ps) ss =
      find-merge_all n ps (merge base p ss) ∙ ap (after_all base n ps) (find-merge n p ss)

  merge-Distinct : (p : ComposeLsEntry) (ss : List Stack) → Distinct ss → Distinct (merge base p ss)
  unfolding merge refresh find
  merge-Distinct p [] nil = cons refl nil
  merge-Distinct p (s ∷ ss) (cons fresh rest) = elim (Bool-cases (equal s.name p.name)) [
    | inl same ↦ rw same (cons fresh rest)
    | inr other ↦
        let kept : find s.name (merge base p ss) ≡ none =
          find-merge s.name p ss
          ∙ ground (arith, fresh, equal_iff s.name p.name, equal_iff p.name s.name) in
        rw other (cons kept (merge-Distinct p ss rest))
  ]

  merge_all-Distinct :
      (ps : List ComposeLsEntry) (ss : List Stack) → Distinct ss → Distinct (merge_all base ps ss)
  unfolding merge_all
  merge_all-Distinct [] ss d = d
  merge_all-Distinct (p ∷ ps) ss d = merge_all-Distinct ps (merge base p ss) (merge-Distinct p ss d)

-- If docker compose lists the projects, and no name stands on the disk twice, then ListStacks returns
-- a list without a repeated name, in which the entry of any name is its entry from the disk, changed
-- by each of the projects of that name in turn (a new entry where the disk has none), and untouched
-- by the others.
pub list_stacks_lem :
    (o : Outside) (w : World) (ps : List ComposeLsEntry)
    → o.has_cli ≡ true
    → o.list_projects w.runs ≡ ok ps
    → Distinct (drafts_of o w (o.read_dir w))
    → (ss : List Stack) × (list_stacks o w ≡ ok ss)
      × Distinct ss
      × ((n : Bytes)
          → find n ss ≡ after_all o.compose_base_path n ps (find n (drafts_of o w (o.read_dir w))))
unfolding list_stacks listed
list_stacks_lem o w ps cli projects distinct =
    let on_disk = drafts_of o w (o.read_dir w) in
    (
      merge_all o.compose_base_path ps on_disk,
      rw (cli, projects, listed) refl,
      merge_all-Distinct o.compose_base_path ps on_disk distinct,
      (λ n. find-merge_all o.compose_base_path n ps on_disk),
    )
