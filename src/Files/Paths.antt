-- ===== src/Files/Paths.antt =====
-- What ValidatePath lets through.
use mathlib.Core.Path.{subst}
use dockpal_agent.Base.{
  ℕ, Bool, true, false, List, [], ◌∷◌, ◌++◌, ◌≡◌, refl, sym, ap, ◌∙◌, All, any, arith, Bool-cases,
  inl, inr, ok, ◌==◌,
}
use dockpal_agent.Base.Bytes.{
  Bytes, codes, equal, split, join, contains_byte, contains, has_prefix, cons_head,
}
use dockpal_agent.Base.Bytes.Laws.{equal_iff}
use dockpal_agent.Base.Bytes.Segments.{IsSegment, All-split}
use dockpal_agent.FilePath.{
  dot, dot_dot, parent, clean_step, clean_onto, parts, render, clean, starts_at_root,
}
use dockpal_agent.FilePath.Clean.{IsPlain, parts-IsPlain, parts_of_plain, All-reverse}
use dockpal_agent.Files.{validate_path, has_control, is_control}

-- What a component is made of that Clean keeps of a path without control characters.
abbrev Kept : Bytes → Type 0
Kept w = IsSegment w × (has_control w ≡ false)

-- What a component is made of before Clean.
abbrev Raw : Bytes → Type 0
Raw w = (contains_byte w b'/' ≡ false) × (has_control w ≡ false)

dot_dot-Kept : Kept dot_dot
unfolding contains_byte has_control
dot_dot-Kept = (((λ e. cc), refl), refl)

clean_step-Kept :
    (rooted : Bool) (out : List Bytes) (c : Bytes)
    → Raw c
    → All Kept out
    → All Kept (clean_step rooted out c)
unfolding clean_step parent
clean_step-Kept rooted out c raw h = elim (Bool-cases (equal c [])) [
  | inl e ↦ rw e h
  | inr ne ↦ elim (Bool-cases (equal c dot)) [
    | inl d ↦ rw (ne, d) h
    | inr nd ↦ elim (Bool-cases (equal c dot_dot)) [
      | inl dd ↦ rw (ne, nd, dd) (up rooted out h)
      | inr ndd ↦ rw (ne, nd, ndd) ((((λ e. cc ((equal_iff c []).1 e, ne)), raw.0), raw.1), h)
    ]
  ]
]
  where
    up : (rooted : Bool) (ws : List Bytes) → All Kept ws → All Kept (parent rooted ws)
    up true [] k = tt
    up false [] k = (dot_dot-Kept, tt)
    up rooted (w ∷ ws) k = elim (Bool-cases (equal w dot_dot)) [
      | inl e ↦ rw e (dot_dot-Kept, k)
      | inr e ↦ rw e k.1
    ]

clean_onto-Kept :
    (rooted : Bool) (out cs : List Bytes)
    → All Raw cs
    → All Kept out
    → All Kept (clean_onto rooted out cs)
unfolding clean_onto
clean_onto-Kept rooted out [] s h = h
clean_onto-Kept rooted out (c ∷ cs) s h =
    clean_onto-Kept rooted (clean_step rooted out c) cs s.1 (clean_step-Kept rooted out c s.0 h)

cons_head-any :
    (p : ℕ → Bool) (c : ℕ) (ws : List Bytes)
    → p c ≡ false
    → All (λ w. any p w ≡ false) ws
    → All (λ w. any p w ≡ false) (cons_head c ws)
unfolding cons_head
cons_head-any p c [] hc h = (ground arith, tt)
cons_head-any p c (w ∷ ws) hc h = (ground (arith, h.0), h.1)

split-any :
    (p : ℕ → Bool) (sep : ℕ) (s : Bytes)
    → any p s ≡ false
    → All (λ w. any p w ≡ false) (split sep s)
unfolding split
split-any p sep [] h = (refl, tt)
split-any p sep (c ∷ s) h =
    let rest = split-any p sep s (ground arith) in
    elim (Bool-cases (c == sep)) [
      | inl e ↦ rw e (refl, rest)
      | inr e ↦ rw e (cons_head-any p c (split sep s) (ground arith) rest)
    ]

All-both {ℓ κ μ} :
    {A : Type ℓ} (P : A → Type κ) (Q : A → Type μ) (xs : List A)
    → All P xs
    → All Q xs
    → All (λ x. P x × Q x) xs
All-both P Q [] h k = tt
All-both P Q (x ∷ xs) h k = ((h.0, k.0), All-both P Q xs h.1 k.1)

parts-Kept :
    (rooted : Bool) (path : Bytes) → has_control path ≡ false → All Kept (parts rooted path)
unfolding parts has_control
parts-Kept rooted path h = All-reverse Kept _ (
    clean_onto-Kept rooted [] (split b'/' path)
      (All-both _ _ (split b'/' path) (All-split b'/' path) (split-any is_control b'/' path h)) tt)

has_control-append :
    (v w : Bytes) → has_control v ≡ false → has_control w ≡ false → has_control (v ++ w) ≡ false
unfolding has_control
has_control-append [] w h k = k
has_control-append (c ∷ v) w h k =
    let rest = has_control-append v w (unfold has_control in ground arith) k in ground (arith, rest)

has_control-join : (ws : List Bytes) → All Kept ws → has_control (join (codes "/") ws) ≡ false
unfolding join has_control
has_control-join [] h = refl
has_control-join (w ∷ []) h = h.0.1
has_control-join (w ∷ v ∷ ws) h =
    has_control-append w (b'/' ∷ join (codes "/") (v ∷ ws)) h.0.1 (has_control-join (v ∷ ws) h.1)

relative : (ws : List Bytes) → All Kept ws → has_prefix (render false ws) (codes "/") ≡ false
unfolding join has_prefix contains_byte
relative [] h = refl
relative ([] ∷ ws) h = absurd (h.0.0.0 refl)
relative ((c ∷ w) ∷ []) h = ground (arith, h.0.0.1)
relative ((c ∷ w) ∷ v ∷ ws) h = ground (arith, h.0.0.1)

has_control-render : (ws : List Bytes) → All Kept ws → has_control (render true ws) ≡ false
unfolding has_control
has_control-render ws h = has_control-join ws h

-- A path that is let through starts at the root.
from_root :
    (rooted : Bool) (path : Bytes)
    → has_control path ≡ false
    → has_prefix (render rooted (parts rooted path)) (codes "/") ≡ true
    → rooted ≡ true
from_root true path h k = refl
from_root false path h k = cc (k, relative (parts false path) (parts-Kept false path h))

clean-render :
    (path : Bytes) → starts_at_root path ≡ true → clean path ≡ render true (parts true path)
unfolding clean
clean-render path h = rw h

-- Clean does not change what it has cleaned.
clean-clean : (path : Bytes) → starts_at_root path ≡ true → clean (clean path) ≡ clean path
unfolding equal
clean-clean path h =
    let once = clean-render path h in
    ap clean once
    ∙ clean-render (render true (parts true path)) refl
    ∙ ap (render true) (parts_of_plain (parts true path) (parts-IsPlain path))
    ∙ sym once

-- The tests of ValidatePath, from a result that is no error.
validate_path-tests :
    (path c : Bytes)
    → validate_path path ≡ ok c
    → (has_control path ≡ false)
      × (has_prefix (clean path) (codes "/") ≡ true)
      × (contains (clean path) (codes "..") ≡ false)
      × (clean path ≡ c)
unfolding validate_path
validate_path-tests path c h = elim (Bool-cases (has_control path)) [
  | inl control ↦ cc (rw control at h)
  | inr fine ↦ elim (Bool-cases (has_prefix (clean path) (codes "/"))) [
    | inr far ↦ cc (rw (fine, far) at h)
    | inl rooted ↦ elim (Bool-cases (contains (clean path) (codes ".."))) [
      | inl up ↦ cc (rw (fine, rooted, up) at h)
      | inr flat ↦
          let e : ok (clean path) ≡ ok c = rw (fine, rooted, flat) at h in (fine, rooted, flat, cc)
    ]
  ]
]

-- A path that ValidatePath returns is a slash before components, joined by slashes, none of which is
-- empty, "." or ".." or has a slash in it; it has no ".." anywhere; and ValidatePath returns it
-- unchanged when it is given back.
pub validate_path-IsPlain :
    (path c : Bytes)
    → validate_path path ≡ ok c
    → (ws : List Bytes) × (c ≡ render true ws)
      × All IsPlain ws
      × (contains c (codes "..") ≡ false)
      × (validate_path c ≡ ok c)
validate_path-IsPlain path c h =
    let (fine, prefixed, flat, e) = validate_path-tests path c h in
    let rooted = from_root (starts_at_root path) path fine (unfold clean in prefixed) in
    let form : clean path ≡ render true (parts true path) = clean-render path rooted in
    let calm : has_control (clean path) ≡ false =
      rw form (has_control-render (parts true path) (parts-Kept true path fine)) in
    let again : validate_path (clean path) ≡ ok (clean path) =
      unfold validate_path in rw (calm, clean-clean path rooted, prefixed, flat) in
    (
      parts true path,
      sym e ∙ form,
      parts-IsPlain path,
      subst (λ p. contains p (codes "..") ≡ false) e flat,
      subst (λ p. validate_path p ≡ ok p) e again,
    )
