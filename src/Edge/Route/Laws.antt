-- ===== src/Edge/Route/Laws.antt =====
-- What the path parameters of a path are, by its segments.
use mathlib.Core.List.{reverse-append, reverse-cons, reverse-reverse}
use dockpal_agent.Base.{
  ℕ, Bool, true, false, List, [], ◌∷◌, ◌++◌, reverse, ◌≡◌, refl, append_assoc, sym, ap, ◌∙◌, arith,
  ◌==◌, All, every, Bool-cases, inl, inr,
}
use dockpal_agent.Base.Bytes.{Bytes, codes, contains_byte, split, trim, trim_left, join}
use dockpal_agent.Base.Bytes.Laws.{split-append}
use dockpal_agent.Base.Bytes.Segments.{IsSegment, split-join}
use dockpal_agent.Edge.Route.{path_parts, get_or_empty, extract_path_param}

module _ (p : ℕ → Bool) where
  -- Trimming stops at a byte that is to stay.
  trim_left-keep :
      (xs ys : Bytes) (c : ℕ) → p c ≡ false → trim_left p (xs ++ c ∷ ys) ≡ trim_left p xs ++ c ∷ ys
  unfolding trim_left
  trim_left-keep [] ys c h = ground arith
  trim_left-keep (x ∷ xs) ys c h = ground (arith, trim_left-keep xs ys c h)

  trim_right-keep :
      (xs ys : Bytes) (c : ℕ)
      → p c ≡ false
      → reverse (trim_left p (reverse (xs ++ c ∷ ys)))
        ≡ xs ++ c ∷ reverse (trim_left p (reverse ys))
  trim_right-keep xs ys c h =
      rw (reverse-append xs (c ∷ ys), reverse-cons c ys, append_assoc)
        (rw (trim_left-keep (reverse ys) (reverse xs) c h) (
          rw (
            reverse-append (trim_left p (reverse ys)) (c ∷ reverse xs),
            reverse-cons c (reverse xs),
            reverse-reverse,
            append_assoc,
          )))

  trim-keep :
      (pre xs : Bytes) (c d : ℕ)
      → p c ≡ false
      → p d ≡ false
      → every p pre ≡ true
      → (l : Bytes) → c ∷ l ≡ xs ++ d ∷ []
      → trim p (pre ++ c ∷ l) ≡ c ∷ l
  unfolding trim trim_left
  trim-keep pre xs c d hc hd e l eq =
      let drop_left : trim_left p (pre ++ c ∷ l) ≡ c ∷ l = skip pre e in
      ap (λ (t : Bytes). reverse (trim_left p (reverse t))) (drop_left ∙ eq)
      ∙ trim_right-keep xs [] d hd
      ∙ sym eq
    where
      skip : (q : Bytes) → every p q ≡ true → trim_left p (q ++ c ∷ l) ≡ c ∷ l
      skip [] h = ground arith
      skip (x ∷ q) h = ground (arith, skip q)

-- /w₀/w₁/…
abbrev pub path_of : List Bytes → Bytes
path_of ws = b'/' ∷ join (codes "/") ws

abbrev not_slash : ℕ → Bool
not_slash c = c == b'/'

segment_last :
    (w : Bytes) → IsSegment w → (xs : Bytes) × (d : ℕ) × (w ≡ xs ++ d ∷ []) × (not_slash d ≡ false)
unfolding contains_byte
segment_last [] h = absurd (h.0 refl)
segment_last (c ∷ []) h = ([], c, refl, ground arith)
segment_last (c ∷ c' ∷ w) h =
    let (xs, d, e, n) = segment_last (c' ∷ w) (λ e. cc, ground arith) in
    (c ∷ xs, d, ap (◌∷◌ c) e, n)

join_last :
    (w : Bytes) (ws : List Bytes)
    → All IsSegment (w ∷ ws)
    → (xs : Bytes) × (d : ℕ) × (join (codes "/") (w ∷ ws) ≡ xs ++ d ∷ []) × (not_slash d ≡ false)
unfolding join
join_last w [] h = segment_last w h.0
join_last w (v ∷ ws) h =
    let (xs, d, e, n) = join_last v ws h.1 in
    (w ++ b'/' ∷ xs, d, rw e (sym (append_assoc w (b'/' ∷ xs) (d ∷ []))), n)

join_first :
    (w : Bytes) (ws : List Bytes)
    → IsSegment w
    → (c : ℕ) × (l : Bytes) × (join (codes "/") (w ∷ ws) ≡ c ∷ l) × (not_slash c ≡ false)
unfolding join contains_byte
join_first [] ws h = absurd (h.0 refl)
join_first (c ∷ w) [] h = (c, w, refl, ground arith)
join_first (c ∷ w) (v ∷ ws) h = (c, w ++ b'/' ∷ join (codes "/") (v ∷ ws), refl, ground arith)

-- The parts of a path are its segments.
pub path_parts-path_of :
    (w : Bytes) (ws : List Bytes) → All IsSegment (w ∷ ws) → path_parts (path_of (w ∷ ws)) ≡ w ∷ ws
unfolding path_parts
path_parts-path_of w ws h =
    let (xs, d, e, n) = join_last w ws h in
    let (c, l, e', n') = join_first w ws h.0 in
    let trimmed : trim not_slash (b'/' ∷ c ∷ l) ≡ c ∷ l =
      trim-keep not_slash (b'/' ∷ []) xs c d n' n refl l (sym e' ∙ e) in
    ap (λ (t : Bytes). split b'/' (trim not_slash (b'/' ∷ t))) e'
    ∙ ap (split b'/') (trimmed ∙ sym e')
    ∙ split-join w ws h

-- Of a path of segments, none empty or with a slash in it, `extractPathParam` gives the segment at the
-- index, counted from 0, and "" behind the last.
pub extract_path_param-path_of :
    (w : Bytes) (ws : List Bytes) (i : ℕ)
    → All IsSegment (w ∷ ws)
    → extract_path_param (path_of (w ∷ ws)) i ≡ get_or_empty (w ∷ ws) i
unfolding extract_path_param
extract_path_param-path_of w ws i h = rw (path_parts-path_of w ws h)

split_some : (s : Bytes) → (b : Bytes) × (sub : List Bytes) × (split b'/' s ≡ b ∷ sub)
unfolding split
split_some [] = ([], [], refl)
split_some (c ∷ s) =
    let (b, sub, e) = split_some s in
    elim (Bool-cases (c == b'/')) [
      | inl slash ↦ ([], split b'/' s, rw slash)
      | inr other ↦ (c ∷ b, sub, rw (other, e))
    ]

-- A path behind /docker/stacks has at least two parts, whatever follows.
pub path_parts_stacks :
    (r : Bytes)
    → (b : Bytes) × (sub : List Bytes) × (path_parts (codes "/docker/stacks" ++ r)
        ≡ codes "docker" ∷ b ∷ sub)
unfolding path_parts trim trim_left
path_parts_stacks r =
    let rest : Bytes = reverse (trim_left not_slash (reverse r)) in
    let (b, sub, e) = split_some (codes "stack" ++ b's' ∷ rest) in
    (
      b,
      sub,
      ap (split b'/') (trim_right-keep not_slash (codes "docker/stack") r b's' refl)
          ∙ split-append b'/' (codes "docker") (codes "stack" ++ b's' ∷ rest)
              (unfold contains_byte in refl)
          ∙ ap (◌∷◌ (codes "docker")) e,
    )
