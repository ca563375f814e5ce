-- ===== src/Exec/Examples.antt =====
-- Two frames, "hi" on stdout and "no" on stderr.
use dockpal_agent.Base.{false, [], ◌∷◌, ◌≡◌, refl, arith}
use dockpal_agent.Base.Bytes.{codes}
use dockpal_agent.Exec.{Capture, empty, exec_max_output, demux, captured, header, inside}
use dockpal_agent.Exec.Capped.{Fits, demux-Fits, demux_fuel}
use dockpal_agent.Exec.Demux.{Frame, IsWhole, frames_bytes, both, captured-frames}

abbrev hi : Frame
hi = record {
  kind = 1;
  p1 = 0;
  p2 = 0;
  p3 = 0;
  b4 = 0;
  b5 = 0;
  b6 = 0;
  b7 = 2;
  payload = codes "hi";
}

abbrev refused : Frame
refused = record {
  kind = 2;
  p1 = 0;
  p2 = 0;
  p3 = 0;
  b4 = 0;
  b5 = 0;
  b6 = 0;
  b7 = 2;
  payload = codes "no";
}

hi-IsWhole : IsWhole hi
unfolding dockpal_agent.Exec.frame_size
hi-IsWhole = record { size = refl; one_chunk = omega arith }

refused-IsWhole : IsWhole refused
unfolding dockpal_agent.Exec.frame_size
refused-IsWhole = record { size = refl; one_chunk = omega arith }

captured-frames_example :
    captured (frames_bytes (hi ∷ refused ∷ [])) ≡ both (codes "hi") (codes "no") false
captured-frames_example =
    captured-frames (hi ∷ refused ∷ []) (hi-IsWhole, (refused-IsWhole, tt)) (omega arith)

demux-Fits_example : Fits (demux 7 header (frames_bytes (hi ∷ refused ∷ [])) empty)
demux-Fits_example = demux-Fits 7 header (frames_bytes (hi ∷ refused ∷ [])) empty (omega arith)

demux_fuel_example :
    demux 21 header (frames_bytes (hi ∷ [])) empty ≡ demux 90 header (frames_bytes (hi ∷ [])) empty
demux_fuel_example =
    demux_fuel 21 90 header (frames_bytes (hi ∷ [])) empty (omega arith) (omega arith)

-- A stream that ends inside a frame gives what has arrived of it.
cut_off : captured (1 ∷ 0 ∷ 0 ∷ 0 ∷ 0 ∷ 0 ∷ 0 ∷ 9 ∷ codes "abc") ≡ both (codes "abc") [] false
unfolding captured demux dockpal_agent.Exec.frame_size dockpal_agent.Exec.take
    dockpal_agent.Exec.write
cut_off = refl
