-- ===== src/Exec/Demux.antt =====
-- Streams of whole frames, as docker sends them (internal/docker/exec.go).
use dockpal_agent.Base.{
  ℕ, suc, ◌+◌, ◌-◌, ◌*◌, ◌≤◌, Bool, true, false, List, [], ◌∷◌, ◌++◌, ◌≡◌, refl, sym, ap, ◌∙◌,
  length, length-append, ltb, leb, ◌==◌, if◌then◌else◌, arith, Bool-cases, inl, inr, All,
  append-nil, append_assoc,
}
use dockpal_agent.Base.Bytes.{Bytes}
use dockpal_agent.Exec.{
  exec_max_output, take, drop, Capture, put, write, chunk_size, frame_size, header, inside, demux,
  empty, captured,
}
use dockpal_agent.Exec.Capped.{demux_fuel, cost}

-- A frame of docker's stdio stream: the type byte, three bytes that are not read, the four bytes of
-- the size, and the payload.
pub record Frame : Type 0 where
  pub kind : ℕ
  pub p1 : ℕ
  pub p2 : ℕ
  pub p3 : ℕ
  pub b4 : ℕ
  pub b5 : ℕ
  pub b6 : ℕ
  pub b7 : ℕ
  pub payload : Bytes

-- The size is that of the payload, which is read in one chunk.
pub record IsWhole (f : Frame) : Type 0 where
  pub size : frame_size f.b4 f.b5 f.b6 f.b7 ≡ length f.payload
  pub one_chunk : length f.payload ≤ 65536

abbrev pub frames_bytes : List Frame → Bytes
frames_bytes [] = []
frames_bytes (f ∷ fs) =
    f.kind ∷ f.p1 ∷ f.p2 ∷ f.p3 ∷ f.b4 ∷ f.b5 ∷ f.b6 ∷ f.b7 ∷ (f.payload ++ frames_bytes fs)

-- The payloads of one kind, joined: stderr is kind 2, stdout every other.
abbrev payloads : Bool → List Frame → Bytes
payloads is_err [] = []
payloads true (f ∷ fs) = if f.kind == 2 then f.payload ++ payloads true fs else payloads true fs
payloads false (f ∷ fs) = if f.kind == 2 then payloads false fs else f.payload ++ payloads false fs

abbrev pub total : List Frame → ℕ
total [] = 0
total (f ∷ fs) = length f.payload + total fs

abbrev collect : List Frame → Capture → Capture
collect [] cap = cap
collect (f ∷ fs) cap = collect fs (put (f.kind == 2) f.payload cap)

take-append : (p r : Bytes) → take (length p) (p ++ r) ≡ p
unfolding take
take-append [] [] = refl
take-append [] (c ∷ r) = refl
take-append (c ∷ p) r = ground (arith, take-append p r)

drop-append : (p r : Bytes) → drop (length p) (p ++ r) ≡ r
unfolding drop
drop-append [] [] = refl
drop-append [] (c ∷ r) = refl
drop-append (c ∷ p) r = ground (arith, drop-append p r)

Room : Capture → ℕ → Type 0
Room cap n = length cap.out + length cap.err + n ≤ exec_max_output

write-put :
    (is_err : Bool) (chunk : Bytes) (cap : Capture)
    → length cap.out + length cap.err + length chunk ≤ exec_max_output
    → write is_err chunk cap ≡ put is_err chunk cap
unfolding write
write-put is_err chunk cap h =
    let small : leb (length cap.out + length cap.err + length chunk) exec_max_output ≡ true =
      ground (arith, h) in
    rw small refl

whole_chunk : (n : ℕ) → n ≤ 65536 → chunk_size n ≡ n
whole_chunk n h = ground (arith, h)

chunk_step :
    (g : ℕ) (is_err : Bool) (n : ℕ) (s : Bytes) (cap : Capture)
    → (n == 0) ≡ false
    → ltb (length (take (chunk_size n) s)) (chunk_size n) ≡ false
    → demux (suc g) (inside is_err n) s cap
      ≡ demux g
          (inside is_err (n - chunk_size n))
          (drop (chunk_size n) s)
          (write is_err (take (chunk_size n) s) cap)
unfolding demux
chunk_step g is_err n s cap more full = rw (more, full) refl

frame_end :
    (g : ℕ) (is_err : Bool) (s : Bytes) (cap : Capture)
    → demux (suc g) (inside is_err 0) s cap ≡ demux g header s cap
unfolding demux
frame_end g is_err s cap = refl

-- A chunk that is not empty, and the end of its frame.
inside_whole :
    (g : ℕ) (is_err : Bool) (n : ℕ) (s : Bytes) (cap : Capture)
    → (n == 0) ≡ false
    → n ≤ 65536
    → length (take n s) ≡ n
    → demux (suc (suc g)) (inside is_err n) s cap
      ≡ demux g header (drop n s) (write is_err (take n s) cap)
inside_whole g is_err n s cap more small full =
    let one : chunk_size n ≡ n = whole_chunk n small in
    let enough : ltb (length (take (chunk_size n) s)) (chunk_size n) ≡ false =
      rw one (ground (arith, full)) in
    let left : n - chunk_size n ≡ 0 = rw one (omega arith) in
    chunk_step (suc g) is_err n s cap more enough ∙ rw left (frame_end g is_err _ _ ∙ rw one refl)

put_nothing : (is_err : Bool) (cap : Capture) → put is_err [] cap ≡ cap
put_nothing true cap = ap (λ (e : Bytes). record cap { err = e }) (append-nil cap.err)
put_nothing false cap = ap (λ (e : Bytes). record cap { out = e }) (append-nil cap.out)

-- One whole frame, whatever fuel is left behind it.
frame_step :
    (g : ℕ) (is_err : Bool) (p rest : Bytes) (cap : Capture)
    → length p ≤ 65536
    → length cap.out + length cap.err + length p ≤ exec_max_output
    → (g' : ℕ) × (g ≤ g')
      × (demux (suc (suc g)) (inside is_err (length p)) (p ++ rest) cap
          ≡ demux g' header rest (put is_err p cap))
frame_step g is_err [] rest cap small room = (
  suc g,
  omega arith,
  frame_end (suc g) is_err rest cap ∙ ap (demux (suc g) header rest) (sym (put_nothing is_err cap)),
)
frame_step g is_err (c ∷ p) rest cap small room = (
  g,
  omega arith,
  inside_whole g is_err (length (c ∷ p)) ((c ∷ p) ++ rest) cap (ground arith) small
        (ap length (take-append (c ∷ p) rest))
      ∙ rw (take-append (c ∷ p) rest, drop-append (c ∷ p) rest, write-put is_err (c ∷ p) cap room)
          refl,
)

Room-put :
    (is_err : Bool) (p : Bytes) (cap : Capture) (n : ℕ)
    → Room cap (length p + n)
    → Room (put is_err p cap) n
unfolding Room
Room-put true p cap n h = omega (arith, h, length-append cap.err p)
Room-put false p cap n h = omega (arith, h, length-append cap.out p)

demux-frames :
    (fs : List Frame) (f : ℕ) (cap : Capture)
    → All IsWhole fs
    → Room cap (total fs)
    → cost header (frames_bytes fs) ≤ f
    → demux f header (frames_bytes fs) cap ≡ collect fs cap
unfolding Room
demux-frames [] f cap whole room h =
    demux_fuel f 1 header [] cap h (omega arith) ∙ (unfold demux in refl)
demux-frames (fr ∷ fs) f cap whole room h =
    let stream : Bytes = frames_bytes (fr ∷ fs) in
    let rest : Bytes = frames_bytes fs in
    let g : ℕ = cost header stream in
    let is_err : Bool = fr.kind == 2 in
    let lengths = length-append fr.payload rest in
    let (g', enough, step) =
      frame_step g is_err fr.payload rest cap whole.0.one_chunk (omega (arith, room)) in
    let head : demux (suc (suc (suc g))) header stream cap
        ≡ demux (suc (suc g)) (inside is_err (frame_size fr.b4 fr.b5 fr.b6 fr.b7))
            (fr.payload ++ rest) cap =
      unfold demux in refl in
    demux_fuel f (suc (suc (suc g))) header stream cap h (omega arith)
    ∙ head
    ∙ ap (λ (n : ℕ). demux (suc (suc g)) (inside is_err n) (fr.payload ++ rest) cap) whole.0.size
    ∙ step
    ∙ demux-frames fs g' (put is_err fr.payload cap) whole.1
        (Room-put is_err fr.payload cap (total fs) room) (omega (arith, enough, lengths))

abbrev pub both : Bytes → Bytes → Bool → Capture
both out err truncated = record { out = out; err = err; truncated = truncated }

collect-payloads :
    (fs : List Frame) (cap : Capture)
    → collect fs cap
      ≡ both (cap.out ++ payloads false fs) (cap.err ++ payloads true fs) cap.truncated
collect-payloads [] cap =
    ap (λ (o : Bytes). both o cap.err cap.truncated) (sym (append-nil cap.out))
    ∙ ap (λ (e : Bytes). both (cap.out ++ []) e cap.truncated) (sym (append-nil cap.err))
collect-payloads (f ∷ fs) cap = elim (Bool-cases (f.kind == 2)) [
  | inl yes' ↦ rw yes' (
      collect-payloads fs (put true f.payload cap)
      ∙ ap (λ (e : Bytes). both (cap.out ++ payloads false fs) e cap.truncated)
          (append_assoc cap.err f.payload (payloads true fs)))
  | inr no' ↦ rw no' (
      collect-payloads fs (put false f.payload cap)
      ∙ ap (λ (o : Bytes). both o (cap.err ++ payloads true fs) cap.truncated)
          (append_assoc cap.out f.payload (payloads false fs)))
]

-- A stream of whole frames, of at most 64 KiB each and 512 KiB together, is captured complete and in
-- order: the payloads of kind 2 as stderr, all others as stdout, and nothing is marked as truncated.
pub captured-frames :
    (fs : List Frame)
    → All IsWhole fs
    → total fs ≤ exec_max_output
    → captured (frames_bytes fs) ≡ both (payloads false fs) (payloads true fs) false
unfolding captured Room
captured-frames fs whole fits =
    demux-frames fs (2 * length (frames_bytes fs) + 1) empty whole (omega (arith, fits))
      (omega arith)
    ∙ collect-payloads fs empty
