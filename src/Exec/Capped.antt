-- ===== src/Exec/Capped.antt =====
-- The size of what ExecCommand captures, and the fuel of its loop (internal/docker/exec.go).
use dockpal_agent.Base.{
  ℕ, zero, suc, ◌+◌, ◌-◌, ◌*◌, ◌≤◌, Bool, true, false, [], ◌∷◌, ◌≡◌, refl, length, length-append,
  ltb, leb, ◌==◌, ==_iff, arith, Bool-cases, inl, inr,
}
use dockpal_agent.Base.Bytes.{Bytes}
use dockpal_agent.Exec.{
  exec_max_output, take, drop, Capture, put, write, chunk_size, frame_size, Position, header,
  inside, demux,
}

abbrev pub Fits : Capture → Type 0
Fits cap = length cap.out + length cap.err ≤ exec_max_output

put-Fits :
    (is_err : Bool) (chunk : Bytes) (cap : Capture)
    → length cap.out + length cap.err + length chunk ≤ exec_max_output
    → Fits (put is_err chunk cap)
put-Fits true chunk cap h = omega (arith, h, length-append cap.err chunk)
put-Fits false chunk cap h = omega (arith, h, length-append cap.out chunk)

write-Fits :
    (is_err : Bool) (chunk : Bytes) (cap : Capture) → Fits cap → Fits (write is_err chunk cap)
unfolding write
write-Fits is_err chunk cap h =
    elim (Bool-cases (leb (length cap.out + length cap.err + length chunk) exec_max_output)) [
      | inl small ↦ rw small (put-Fits is_err chunk cap (ground (arith, small)))
      | inr large ↦ rw large h
    ]

-- The captured stdout and stderr never hold more than 512 KiB together, whatever the stream.
pub demux-Fits :
    (fuel : ℕ) (pos : Position) (stream : Bytes) (cap : Capture)
    → Fits cap
    → Fits (demux fuel pos stream cap)
unfolding demux
demux-Fits zero pos stream cap h = h
demux-Fits (suc fuel) header (b0 ∷ b1 ∷ b2 ∷ b3 ∷ b4 ∷ b5 ∷ b6 ∷ b7 ∷ stream) cap h =
    demux-Fits fuel _ stream cap h
demux-Fits (suc fuel) header [] cap h = h
demux-Fits (suc fuel) header (b0 ∷ []) cap h = h
demux-Fits (suc fuel) header (b0 ∷ b1 ∷ []) cap h = h
demux-Fits (suc fuel) header (b0 ∷ b1 ∷ b2 ∷ []) cap h = h
demux-Fits (suc fuel) header (b0 ∷ b1 ∷ b2 ∷ b3 ∷ []) cap h = h
demux-Fits (suc fuel) header (b0 ∷ b1 ∷ b2 ∷ b3 ∷ b4 ∷ []) cap h = h
demux-Fits (suc fuel) header (b0 ∷ b1 ∷ b2 ∷ b3 ∷ b4 ∷ b5 ∷ []) cap h = h
demux-Fits (suc fuel) header (b0 ∷ b1 ∷ b2 ∷ b3 ∷ b4 ∷ b5 ∷ b6 ∷ []) cap h = h
demux-Fits (suc fuel) (inside is_err size) stream cap h = elim (Bool-cases (size == 0)) [
  | inl done ↦ rw done (demux-Fits fuel header stream cap h)
  | inr more ↦ elim (Bool-cases (ltb (length (take (chunk_size size) stream)) (chunk_size size))) [
    | inl short ↦ rw (more, short) (write-Fits is_err _ cap h)
    | inr full ↦ rw (more, full) (demux-Fits fuel _ _ _ (write-Fits is_err _ cap h))
  ]
]

-- How many iterations a position and a stream can take at most.
abbrev pub cost : Position → Bytes → ℕ
cost header stream = 2 * length stream + 1
cost (inside is_err size) stream = 2 * length stream + 2

length-drop :
    (n : ℕ) (s : Bytes) → (ltb (length (take n s)) n) ≡ false → length (drop n s) + n ≡ length s
unfolding take drop
length-drop n [] h = ground (arith, h)
length-drop n (c ∷ s) h = elim (Bool-cases (n == 0)) [
  | inl none ↦ let e : n ≡ 0 = (==_iff n 0).0 none in rw none (omega (arith, e))
  | inr some ↦
      let h' : ltb (length (c ∷ take (n - 1) s)) n ≡ false = rw some at h in
      let rest = length-drop (n - 1) s (ground (arith, h')) in rw some (ground (arith, rest, some))
]

cost-pos : (pos : Position) (stream : Bytes) → 1 ≤ cost pos stream
cost-pos header stream = omega arith
cost-pos (inside is_err size) stream = omega arith

-- The step behind a full chunk costs less.
cost-drop :
    (is_err : Bool) (size : ℕ) (stream : Bytes) (fuel : ℕ)
    → (size == 0) ≡ false
    → ltb (length (take (chunk_size size) stream)) (chunk_size size) ≡ false
    → cost (inside is_err size) stream ≤ suc fuel
    → cost (inside is_err (size - chunk_size size)) (drop (chunk_size size) stream) ≤ fuel
cost-drop is_err size stream fuel more full h =
    let e = length-drop (chunk_size size) stream full in
    let n : 1 ≤ chunk_size size = ground (arith, more) in omega (arith, e, n, h)

-- Fuel for twice the stream's length is enough: any two fuels from there on give the same result, so
-- that the loop ends by itself.
pub demux_fuel :
    (f g : ℕ) (pos : Position) (stream : Bytes) (cap : Capture)
    → cost pos stream ≤ f
    → cost pos stream ≤ g
    → demux f pos stream cap ≡ demux g pos stream cap
unfolding demux
demux_fuel zero g pos stream cap h k = absurd (omega (arith, cost-pos pos stream, h))
demux_fuel (suc f) zero pos stream cap h k = absurd (omega (arith, cost-pos pos stream, k))
demux_fuel (suc f) (suc g) header (b0 ∷ b1 ∷ b2 ∷ b3 ∷ b4 ∷ b5 ∷ b6 ∷ b7 ∷ stream) cap h k =
    demux_fuel f g (inside (b0 == 2) (frame_size b4 b5 b6 b7)) stream cap (omega (arith, h))
      (omega (arith, k))
demux_fuel (suc f) (suc g) header [] cap h k = refl
demux_fuel (suc f) (suc g) header (b0 ∷ []) cap h k = refl
demux_fuel (suc f) (suc g) header (b0 ∷ b1 ∷ []) cap h k = refl
demux_fuel (suc f) (suc g) header (b0 ∷ b1 ∷ b2 ∷ []) cap h k = refl
demux_fuel (suc f) (suc g) header (b0 ∷ b1 ∷ b2 ∷ b3 ∷ []) cap h k = refl
demux_fuel (suc f) (suc g) header (b0 ∷ b1 ∷ b2 ∷ b3 ∷ b4 ∷ []) cap h k = refl
demux_fuel (suc f) (suc g) header (b0 ∷ b1 ∷ b2 ∷ b3 ∷ b4 ∷ b5 ∷ []) cap h k = refl
demux_fuel (suc f) (suc g) header (b0 ∷ b1 ∷ b2 ∷ b3 ∷ b4 ∷ b5 ∷ b6 ∷ []) cap h k = refl
demux_fuel (suc f) (suc g) (inside is_err size) stream cap h k = elim (Bool-cases (size == 0)) [
  | inl done ↦ rw done (demux_fuel f g header stream cap (omega (arith, h)) (omega (arith, k)))
  | inr more ↦ elim (Bool-cases (ltb (length (take (chunk_size size) stream)) (chunk_size size))) [
    | inl short ↦ rw (more, short) refl
    | inr full ↦
        rw (more, full)
          (demux_fuel f g (inside is_err (size - chunk_size size)) (drop (chunk_size size) stream) _
            (cost-drop is_err size stream f more full h)
            (cost-drop is_err size stream g more full k))
  ]
]
