-- ===== src/Stack/Names/Child.antt =====
-- The directory of a stack.
use dockpal_agent.Base.{
  ℕ, true, false, List, [], ◌∷◌, ◌++◌, ◌≡◌, refl, sym, ap, ◌∙◌, ok, err, every, arith, All,
  All-append, append_assoc, Bool-cases, inl, inr,
}
use dockpal_agent.Base.Bytes.{Bytes, codes, equal, has_prefix, contains, contains_byte, join}
use dockpal_agent.Base.Bytes.Laws.{has_prefix-append}
use dockpal_agent.FilePath.{clean, join_path, render, dot_dot}
use dockpal_agent.FilePath.Clean.{IsPlain, parts_of_plain}
use dockpal_agent.Stack.Names.{is_name_byte, bad_name, validate_stack_name, checked_dir, stack_dir}

unfoldable pub IsName : Bytes → Type 0
IsName w = every is_name_byte w ≡ true

no_byte : (b : ℕ) (w : Bytes) → is_name_byte b ≡ false → IsName w → contains_byte w b ≡ false
unfolding contains_byte IsName
no_byte b [] hb h = refl
no_byte b (c ∷ w) hb h = ground (arith, no_byte b w hb)

no_dots : (w : Bytes) → IsName w → contains w dot_dot ≡ false
unfolding contains has_prefix IsName
no_dots [] h = refl
no_dots (c ∷ w) h = ground (arith, no_dots w)

pub name-IsPlain : (c : ℕ) (w : Bytes) → IsName (c ∷ w) → IsPlain (c ∷ w)
unfolding IsName equal
name-IsPlain c w h = record {
  no_slash = no_byte b'/' (c ∷ w) refl h;
  not_empty = refl;
  not_dot = ground arith;
  not_dot_dot = ground arith;
}

clean_of_plain : (ws : List Bytes) → All IsPlain ws → clean (render true ws) ≡ render true ws
unfolding clean equal
clean_of_plain ws h = ap (render true) (parts_of_plain ws h)

pub join-snoc :
    (v : Bytes) (ws : List Bytes) (w : Bytes)
    → join (codes "/") ((v ∷ ws) ++ w ∷ []) ≡ join (codes "/") (v ∷ ws) ++ (b'/' ∷ w)
unfolding join
join-snoc v [] w = refl
join-snoc v (u ∷ ws) w =
    rw (join-snoc u ws w) (sym (append_assoc v (b'/' ∷ join (codes "/") (u ∷ ws)) (b'/' ∷ w)))

longer : (w : Bytes) (c : ℕ) (s : Bytes) → equal (w ++ c ∷ s) w ≡ false
unfolding equal
longer [] c s = refl
longer (x ∷ w) c s = ground (arith, longer w c s)

pub IsName-bytes : (w : Bytes) → validate_stack_name w ≡ ok tt → IsName w
unfolding validate_stack_name IsName
IsName-bytes [] h = cc
IsName-bytes (c ∷ s) h = elim (Bool-cases (every is_name_byte (c ∷ s))) [
  | inl good ↦ good
  | inr bad ↦ cc (rw bad at h)
]

pub clean_child :
    (v : Bytes) (vs : List Bytes) (w : Bytes)
    → All IsPlain (v ∷ vs)
    → IsPlain w
    → clean (render true (v ∷ vs) ++ (b'/' ∷ w)) ≡ render true (v ∷ vs) ++ (b'/' ∷ w)
clean_child v vs w plain p =
    let form : render true (v ∷ vs) ++ (b'/' ∷ w) ≡ render true ((v ∷ vs) ++ w ∷ []) =
      ap (◌∷◌ b'/') (sym (join-snoc v vs w)) in
    ap clean form
    ∙ clean_of_plain ((v ∷ vs) ++ w ∷ []) (All-append IsPlain (v ∷ vs) (w ∷ []) plain (p, tt))
    ∙ sym form

checked_dir_lem :
    (v : Bytes) (vs : List Bytes) (c : ℕ) (s : Bytes)
    → All IsPlain (v ∷ vs)
    → IsPlain (c ∷ s)
    → checked_dir (render true (v ∷ vs)) (c ∷ s) ≡ ok (render true (v ∷ vs) ++ (b'/' ∷ c ∷ s))
unfolding checked_dir join_path
checked_dir_lem v vs c s plain p =
    let base : Bytes = render true (v ∷ vs) in
    let once : clean (base ++ (b'/' ∷ c ∷ s)) ≡ base ++ (b'/' ∷ c ∷ s) =
      clean_child v vs (c ∷ s) plain p in
    let below : has_prefix (base ++ (b'/' ∷ c ∷ s)) (base ++ codes "/") ≡ true =
      rw (← append_assoc base (codes "/") (c ∷ s))
        (has_prefix-append (base ++ codes "/") (c ∷ s)) in
    rw once (rw once (rw (longer base b'/' (c ∷ s), below)))

-- Below a base directory that is a path from the root of plain components (and not the root itself),
-- StackDir gives every valid name the directory base/name.
pub stack_dir_lem :
    (v : Bytes) (vs : List Bytes) (name : Bytes)
    → All IsPlain (v ∷ vs)
    → validate_stack_name name ≡ ok tt
    → stack_dir (render true (v ∷ vs)) name ≡ ok (render true (v ∷ vs) ++ (codes "/" ++ name))
unfolding stack_dir
stack_dir_lem v vs [] plain h = let e : err bad_name ≡ ok tt = unfold validate_stack_name in h in cc
stack_dir_lem v vs (c ∷ s) plain h =
    let w = IsName-bytes (c ∷ s) h in
    rw h (
      rw (no_dots (c ∷ s) w, no_byte b'/' (c ∷ s) refl w, no_byte b'\\' (c ∷ s) refl w)
        (rw (clean_of_plain (v ∷ vs) plain) (checked_dir_lem v vs c s plain (name-IsPlain c s w))))
