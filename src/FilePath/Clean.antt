-- ===== src/FilePath/Clean.antt =====
-- `Clean` of a path from the root.
use mathlib.Core.List.{reverse-reverse, reverse-cons, append-nil, append_assoc}
use mathlib.Core.Path.{subst}
use dockpal_agent.Base.{
  Bool, true, false, List, [], ◌∷◌, ◌++◌, reverse, ◌≡◌, refl, sym, ap, ◌∙◌, All, All-append,
  Bool-cases, inl, inr,
}
use dockpal_agent.Base.Bytes.{Bytes, equal, split, join, contains_byte}
use dockpal_agent.Base.Bytes.Laws.{equal_iff}
use dockpal_agent.Base.Bytes.Segments.{IsSegment, split-join, All-split}
use dockpal_agent.FilePath.{dot, dot_dot, parent, clean_step, clean_onto, parts, render}

-- A component that stays: no slash, and none of "", "." and "..".
pub record IsPlain (w : Bytes) : Type 0 where
  pub no_slash : contains_byte w b'/' ≡ false
  pub not_empty : equal w [] ≡ false
  pub not_dot : equal w dot ≡ false
  pub not_dot_dot : equal w dot_dot ≡ false

IsPlain-IsSegment : (ws : List Bytes) → All IsPlain ws → All IsSegment ws
IsPlain-IsSegment [] h = tt
IsPlain-IsSegment (w ∷ ws) h =
    (((λ e. cc (h.0.not_empty, (equal_iff w []).1 e)), h.0.no_slash), IsPlain-IsSegment ws h.1)

clean_step-IsPlain :
    (out : List Bytes) (c : Bytes)
    → contains_byte c b'/' ≡ false
    → All IsPlain out
    → All IsPlain (clean_step true out c)
unfolding clean_step
clean_step-IsPlain out c s h = elim (Bool-cases (equal c [])) [
  | inl e ↦ rw e h
  | inr ne ↦ elim (Bool-cases (equal c dot)) [
    | inl d ↦ rw (ne, d) h
    | inr nd ↦ elim (Bool-cases (equal c dot_dot)) [
      | inl dd ↦ rw (ne, nd, dd) (up out h)
      | inr ndd ↦
          rw (ne, nd, ndd)
            (record { no_slash = s; not_empty = ne; not_dot = nd; not_dot_dot = ndd }, h)
    ]
  ]
]
  where
    up : (ws : List Bytes) → All IsPlain ws → All IsPlain (parent true ws)
    up [] k = unfold parent in tt
    up (w ∷ ws) k = unfold parent in rw k.0.not_dot_dot k.1

clean_onto-IsPlain :
    (out cs : List Bytes)
    → All (λ w. contains_byte w b'/' ≡ false) cs
    → All IsPlain out
    → All IsPlain (clean_onto true out cs)
unfolding clean_onto
clean_onto-IsPlain out [] s h = h
clean_onto-IsPlain out (c ∷ cs) s h =
    clean_onto-IsPlain (clean_step true out c) cs s.1 (clean_step-IsPlain out c s.0 h)

pub All-reverse {ℓ κ} : {A : Type ℓ} (P : A → Type κ) (xs : List A) → All P xs → All P (reverse xs)
All-reverse P [] h = tt
All-reverse P (x ∷ xs) h =
    subst (All P) (sym (reverse-cons x xs))
      (All-append P (reverse xs) (x ∷ []) (All-reverse P xs h.1) (h.0, tt))

-- The components that Clean keeps of a rooted path are plain: no ".." is left in it.
pub parts-IsPlain : (path : Bytes) → All IsPlain (parts true path)
unfolding parts
parts-IsPlain path =
    All-reverse IsPlain _ (clean_onto-IsPlain [] (split b'/' path) (All-split b'/' path) tt)

clean_onto-All :
    (rooted : Bool) (out cs : List Bytes)
    → All IsPlain cs
    → clean_onto rooted out cs ≡ reverse cs ++ out
unfolding clean_onto clean_step
clean_onto-All rooted out [] h = refl
clean_onto-All rooted out (c ∷ cs) h =
    rw (h.0.not_empty, h.0.not_dot, h.0.not_dot_dot)
      (clean_onto-All rooted (c ∷ out) cs h.1
        ∙ rw (reverse-cons c cs, append_assoc (reverse cs) (c ∷ []) out) refl)

-- A path of plain components is clean already.
pub parts_of_plain : (ws : List Bytes) → All IsPlain ws → parts true (render true ws) ≡ ws
unfolding parts split clean_onto clean_step equal join
parts_of_plain [] h = refl
parts_of_plain (w ∷ ws) h =
    ap (λ (l : List Bytes). reverse (clean_onto true [] l))
      (ap (◌∷◌ []) (split-join w ws (IsPlain-IsSegment (w ∷ ws) h)))
    ∙ ap reverse (clean_onto-All true [] (w ∷ ws) h ∙ append-nil (reverse (w ∷ ws)))
    ∙ reverse-reverse (w ∷ ws)
