-- ===== src/Base/Bytes/Segments.antt =====
-- Paths as lists of segments.
use Prim.Native.Nat.{ℕ}
use mathlib.Core.Path.{◌≡◌, refl, ap, ◌∙◌}
use mathlib.Core.Logic.{◌≢◌, inl, inr}
use mathlib.Core.Bool.{false}
use mathlib.Core.List.{List, [], ◌∷◌}
use dockpal_agent.Base.Tests.{◌==◌, Bool-cases}
use dockpal_agent.Base.Lists.{All}
use dockpal_agent.Base.Bytes.{Bytes, codes, contains_byte, split, cons_head, join}
use dockpal_agent.Base.Bytes.Laws.{split_single, split-append}

-- A segment of a path: not empty, and with no slash in it.
abbrev pub IsSegment : Bytes → Type 0
IsSegment w = (w ≢ []) × (contains_byte w b'/' ≡ false)

pub split-join :
    (w : Bytes) (ws : List Bytes)
    → All IsSegment (w ∷ ws)
    → split b'/' (join (codes "/") (w ∷ ws)) ≡ w ∷ ws
unfolding join
split-join w [] h = split_single b'/' w h.0.1
split-join w (v ∷ ws) h =
    split-append b'/' w (join (codes "/") (v ∷ ws)) h.0.1 ∙ ap (◌∷◌ w) (split-join v ws h.1)

cons_head-All :
    (sep c : ℕ) (ws : List Bytes)
    → (c == sep) ≡ false
    → All (λ w. contains_byte w sep ≡ false) ws
    → All (λ w. contains_byte w sep ≡ false) (cons_head c ws)
unfolding cons_head contains_byte
cons_head-All sep c [] other h = (rw other refl, tt)
cons_head-All sep c (w ∷ ws) other h = (rw other h.0, h.1)

-- No piece of a split text has the separator in it.
pub All-split : (sep : ℕ) (s : Bytes) → All (λ w. contains_byte w sep ≡ false) (split sep s)
unfolding split contains_byte
All-split sep [] = (refl, tt)
All-split sep (c ∷ s) = elim (Bool-cases (c == sep)) [
  | inl here ↦ rw here (refl, All-split sep s)
  | inr other ↦ rw other (cons_head-All sep c (split sep s) other (All-split sep s))
]
