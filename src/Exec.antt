-- ===== src/Exec.antt =====
-- internal/docker/exec.go: how ExecCommand splits the output stream. The
-- stream is the list of all bytes that the connection delivers before it ends.
pub mod Capped
pub mod Demux
mod Examples
use dockpal_agent.Base.{
  ℕ, zero, suc, ◌+◌, ◌-◌, ◌*◌, ◌^◌, Bool, true, false, List, [], ◌∷◌, ◌++◌, length, ltb, leb, ◌==◌,
  if◌then◌else◌,
}
use dockpal_agent.Base.Bytes.{Bytes}

abbrev pub exec_max_output : ℕ
exec_max_output = 524288

-- n bytes of the stream, or all of it where it is shorter
unfoldable pub take : ℕ → Bytes → Bytes
take n [] = []
take n (c ∷ s) = let rest = take (n - 1) s in if n == 0 then [] else c ∷ rest

unfoldable pub drop : ℕ → Bytes → Bytes
drop n [] = []
drop n (c ∷ s) = let rest = drop (n - 1) s in if n == 0 then c ∷ s else rest

-- outBuf, errBuf and truncated
pub record Capture : Type 0 where
  pub out : Bytes
  pub err : Bytes
  pub truncated : Bool

abbrev pub empty : Capture
empty = record { out = []; err = []; truncated = false }

-- dst.Write(chunk[:rn]); dst is errBuf for the stream type 2
abbrev pub put : Bool → Bytes → Capture → Capture
put true chunk cap = record cap { err = cap.err ++ chunk }
put false chunk cap = record cap { out = cap.out ++ chunk }

unfoldable pub write : Bool → Bytes → Capture → Capture
write is_err chunk cap =
    if leb (length cap.out + length cap.err + length chunk) exec_max_output
    then put is_err chunk cap
    else record cap { truncated = true }

abbrev pub chunk_size : ℕ → ℕ
chunk_size size = if ltb 65536 size then 65536 else size

-- size of the frame header, a big-endian uint32
unfoldable pub frame_size : ℕ → ℕ → ℕ → ℕ → ℕ
frame_size b4 b5 b6 b7 = b4 * 2 ^ 24 + b5 * 2 ^ 16 + b6 * 2 ^ 8 + b7

-- Where the loop stands: before a header, or inside a frame of which this many bytes are left.
pub data Position : Type 0 where
  header : Position
  inside : Bool → ℕ → Position

-- One iteration per unit of fuel: a header, or a chunk of at most 64 KiB. A read that comes short
-- ends the loop, a short chunk after it has been written.
unfoldable pub demux : ℕ → Position → Bytes → Capture → Capture
demux zero pos stream cap = cap
demux (suc fuel) header (b0 ∷ b1 ∷ b2 ∷ b3 ∷ b4 ∷ b5 ∷ b6 ∷ b7 ∷ stream) cap =
    demux fuel (inside (b0 == 2) (frame_size b4 b5 b6 b7)) stream cap
demux (suc fuel) header _ cap = cap
demux (suc fuel) (inside is_err size) stream cap =
    let n = chunk_size size in
    let chunk = take n stream in
    let next = demux fuel (inside is_err (size - n)) (drop n stream) (write is_err chunk cap) in
    let frame = demux fuel header stream cap in
    if size == 0 then frame else if ltb (length chunk) n then write is_err chunk cap else next

-- The whole stream, with fuel for all of it.
unfoldable pub captured : Bytes → Capture
captured stream = demux (2 * length stream + 1) header stream empty
