-- ===== src/Files/Quote.antt =====
-- The script of WriteFile as a shell reads it.
use dockpal_agent.Base.{
  ℕ, Bool, false, List, [], ◌∷◌, ◌++◌, Option, none, some, ◌≡◌, refl, sym, ap, ◌∙◌, ◌==◌,
  if◌then◌else◌, any, arith, Bool-cases, inl, inr, append_assoc, append-nil, ==_iff,
}
use dockpal_agent.Base.Bytes.{Bytes, codes, contains_byte, replace_byte}
use dockpal_agent.Files.{base64, base64_char, escape, write_script}

-- A token of a command line: a word behind its quotes are taken away, or an operator.
pub data Token : Type 0 where
  word : Bytes → Token
  operator : ℕ → Token

abbrev is_operator : ℕ → Bool
is_operator c = any (λ d. c == d) (codes "|&;<>()$`\"")

pub data Mode : Type 0 where
  outside inside behind : Mode

-- How far a shell has read: outside quotes, inside single quotes or behind a backslash; the word that
-- has begun, if one has; and the tokens before it.
pub record Reader : Type 0 where
  pub mode : Mode
  pub begun : Option Bytes
  pub tokens : List Token

abbrev pub begin : Option Bytes → Bytes
begin none = []
begin (some w) = w

-- The tokens with the word that has begun.
abbrev pub closed : Option Bytes → List Token → List Token
closed none ts = ts
closed (some w) ts = ts ++ word w ∷ []

abbrev add_byte : ℕ → Reader → Reader
add_byte c r = record { mode = r.mode; begun = some (begin r.begun ++ c ∷ []); tokens = r.tokens }

abbrev in_mode : Mode → Reader → Reader
in_mode m r = record { mode = m; begun = some (begin r.begun); tokens = r.tokens }

abbrev outside_step : ℕ → Reader → Reader
outside_step c r =
    if c == 39
    then in_mode inside r
    else if c == b'\\'
    then in_mode behind r
    else if c == b' '
    then record { mode = outside; begun = none; tokens = closed r.begun r.tokens }
    else if is_operator c
    then record {
      mode = outside;
      begun = none;
      tokens = closed r.begun r.tokens ++ operator c ∷ [];
    }
    else add_byte c r

abbrev pub step : Mode → ℕ → Reader → Reader
step outside c r = outside_step c r
step inside c r = if c == 39 then in_mode outside r else add_byte c r
step behind c r = in_mode outside (add_byte c r)

unfoldable pub run : Reader → Bytes → Reader
run r [] = r
run r (c ∷ s) = run (step r.mode c r) s

abbrev pub finish : Mode → Reader → Option (List Token)
finish outside r = some (closed r.begun r.tokens)
finish inside r = none
finish behind r = none

-- What a shell reads from a text; `none` where a quote is left open.
unfoldable pub shell_tokens : Bytes → Option (List Token)
shell_tokens s =
    let r = run (record { mode = outside; begun = none; tokens = [] }) s in finish r.mode r

abbrev quoting : Bytes → List Token → Reader
quoting w ts = record { mode = inside; begun = some w; tokens = ts }

run-append : (r : Reader) (s t : Bytes) → run r (s ++ t) ≡ run (run r s) t
unfolding run
run-append r [] t = refl
run-append r (c ∷ s) t = run-append (step r.mode c r) s t

-- Between quotes, a text without quotes stands for itself.
run-quoting :
    (w s : Bytes) (ts : List Token)
    → contains_byte s 39 ≡ false
    → run (quoting w ts) s ≡ quoting (w ++ s) ts
unfolding run contains_byte
run-quoting w [] ts h = ap (λ (v : Bytes). quoting v ts) (sym (append-nil w))
run-quoting w (c ∷ s) ts h =
    let other : (c == 39) ≡ false = ground arith in
    rw other (
      run-quoting (w ++ c ∷ []) s ts (ground arith)
      ∙ ap (λ (v : Bytes). quoting v ts) (append_assoc w (c ∷ []) s))

step_quoting :
    (w s : Bytes) (c : ℕ) (ts : List Token)
    → (c == 39) ≡ false
    → run (quoting w ts) (c ∷ s) ≡ run (quoting (w ++ c ∷ []) ts) s
unfolding run
step_quoting w s c ts h = rw h refl

-- An escaped text stands for the text before it was escaped.
run-escape : (w s : Bytes) (ts : List Token) → run (quoting w ts) (escape s) ≡ quoting (w ++ s) ts
unfolding run escape replace_byte
run-escape w [] ts = ap (λ (v : Bytes). quoting v ts) (sym (append-nil w))
run-escape w (c ∷ s) ts = elim (Bool-cases (c == 39)) [
  | inl quote ↦
      let is : c ≡ 39 = (==_iff c 39).0 quote in
      rw quote (
        run-escape (w ++ 39 ∷ []) s ts
        ∙ ap (λ (v : Bytes). quoting v ts)
            (append_assoc w (39 ∷ []) s ∙ ap (λ (d : ℕ). w ++ d ∷ s) (sym is)))
  | inr other ↦ rw other (
      step_quoting w (escape s) c ts other
      ∙ (run-escape (w ++ c ∷ []) s ts
          ∙ ap (λ (v : Bytes). quoting v ts) (append_assoc w (c ∷ []) s)))
]

no_quote_char : (n : ℕ) → (base64_char n == 39) ≡ false
unfolding base64_char
no_quote_char n = ground arith

base64_no_quote : (s : Bytes) → contains_byte (base64 s) 39 ≡ false
unfolding base64 contains_byte
base64_no_quote [] = refl
base64_no_quote (a ∷ []) = simp no_quote_char
base64_no_quote (a ∷ b ∷ []) = simp no_quote_char
base64_no_quote (a ∷ b ∷ c ∷ s) = simp (no_quote_char, base64_no_quote s)

-- A shell reads WriteFile's script as printf '%s' and the encoded content, piped to base64 -d and
-- written to the path, for every content and every path, whatever quotes, blanks or operators the
-- path has in it.
pub shell_tokens-write_script :
    (content path : Bytes)
    → shell_tokens (write_script (base64 content) (escape path))
      ≡ some (
          word (codes "printf")
          ∷ word (codes "%s")
          ∷ word (base64 content)
          ∷ operator b'|'
          ∷ word (codes "base64")
          ∷ word (codes "-d")
          ∷ operator b'>'
          ∷ word path
          ∷ [])
unfolding shell_tokens write_script run
shell_tokens-write_script content path =
    let before : List Token = word (codes "printf") ∷ word (codes "%s") ∷ [] in
    let between : List Token =
      before
      ++ word (base64 content)
        ∷ operator b'|'
        ∷ word (codes "base64")
        ∷ word (codes "-d")
        ∷ operator b'>'
        ∷ [] in
    let rest : Bytes = codes "' | base64 -d > '" ++ (escape path ++ codes "'") in
    ap (λ (r : Reader). finish r.mode r)
      (run-append (quoting [] before) (base64 content) rest
        ∙ ap (λ (r : Reader). run r rest)
            (run-quoting [] (base64 content) before (base64_no_quote content))
        ∙ run-append (quoting [] between) (escape path) (codes "'")
        ∙ ap (λ (r : Reader). run r (codes "'")) (run-escape [] path between))
