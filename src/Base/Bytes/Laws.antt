-- ===== src/Base/Bytes/Laws.antt =====
-- Laws of the string calls.
use Prim.Native.Nat.{ℕ}
use mathlib.Core.Path.{◌≡◌, refl}
use mathlib.Core.Logic.{◌↔◌}
use mathlib.Core.Bool.{true, false}
use mathlib.Core.List.{[], ◌∷◌, ◌++◌}
use native.Mathlib.Omega.{arith}
use dockpal_agent.Base.Bytes.{
  Bytes, equal, has_prefix, contains_byte, split, split_first, mem, lookup, insert,
}
use mathlib.Core.List.{List}
use mathlib.Core.Bool.{◌||◌}
use mathlib.Core.Option.{some}
use dockpal_agent.Base.Tests.{if◌then◌else◌}

pub equal_iff : (a b : Bytes) → (equal a b ≡ true) ↔ (a ≡ b)
unfolding equal
equal_iff [] [] = ground arith
equal_iff (x ∷ a) (y ∷ b) = ground (arith, equal_iff a b)
equal_iff _ _ = ground arith

pub equal_refl : (a : Bytes) → equal a a ≡ true
equal_refl a = (equal_iff a a).1 refl

pub has_prefix-append : (p s : Bytes) → has_prefix (p ++ s) p ≡ true
unfolding has_prefix
has_prefix-append [] [] = refl
has_prefix-append [] (c ∷ s) = refl
has_prefix-append (c ∷ p) s = ground (arith, has_prefix-append p s)

-- A text has a prefix exactly when the rest can be named.
pub has_prefix-split : (s p : Bytes) → has_prefix s p ≡ true → (r : Bytes) × (s ≡ p ++ r)
unfolding has_prefix
has_prefix-split s [] h = (s, refl)
has_prefix-split [] (y ∷ ys) h = cc
has_prefix-split (x ∷ xs) (y ∷ ys) h =
    let (r, e) = has_prefix-split xs ys (ground arith) in (r, ground (arith, e))

-- A text with no separator splits into itself.
pub split_single : (sep : ℕ) (w : Bytes) → contains_byte w sep ≡ false → split sep w ≡ w ∷ []
unfolding split contains_byte
split_single sep [] h = refl
split_single sep (c ∷ w) h = ground (arith, split_single sep w)

pub split-append :
    (sep : ℕ) (w s : Bytes)
    → contains_byte w sep ≡ false
    → split sep (w ++ sep ∷ s) ≡ w ∷ split sep s
unfolding split contains_byte
split-append sep [] s h = ground arith
split-append sep (c ∷ w) s h = ground (arith, split-append sep w s)

pub mem-append : (x : Bytes) (ys zs : List Bytes) → mem x (ys ++ zs) ≡ (mem x ys || mem x zs)
unfolding mem
mem-append x [] zs = refl
mem-append x (y ∷ ys) zs = ground (arith, mem-append x ys zs)

pub mem-concat_self : (x : Bytes) (ys : List Bytes) → mem x (ys ++ x ∷ []) ≡ true
unfolding mem
mem-concat_self x [] = ground (arith, equal_iff x x)
mem-concat_self x (y ∷ ys) = ground (arith, mem-concat_self x ys)

pub mem-concat : (x y : Bytes) (ys : List Bytes) → mem x ys ≡ true → mem x (ys ++ y ∷ []) ≡ true
mem-concat x y ys h = rw (mem-append, h)

module _ {ℓ} {V : Type ℓ} where
  pub lookup-insert :
      (k j : Bytes) (v : V) (m : List (Bytes × V))
      → lookup j (insert k v m) ≡ (if equal k j then some v else lookup j m)
  unfolding lookup insert
  lookup-insert k j v [] = refl
  lookup-insert k j v ((i, w) ∷ m) =
      ground (arith, equal_iff k j, equal_iff i k, equal_iff i j, lookup-insert k j v m)

-- strings.SplitN(key + sep + rest, sep, 2)
pub split_first-append :
    (b : ℕ) (k v : Bytes) → contains_byte k b ≡ false → split_first b (k ++ b ∷ v) ≡ (k, some v)
unfolding split_first contains_byte
split_first-append b [] v h = ground arith
split_first-append b (c ∷ k) v h = ground (arith, split_first-append b k v)
