-- ===== src/Examples/Buffers.antt =====
-- Concrete inputs for the theorems about the packet buffers.
use lhjsample.Common.{
  ℕ, ◌≡◌, refl, List, [], ◌∷◌, ◌++◌, some, arith, replicate, length-replicate, length-append,
  read_u16,
}
use lhjsample.User.Buffer.{PacketBuffer, IsValid, get_packet}
use lhjsample.User.Buffer.Append.{contents}
use lhjsample.User.Buffer.Histories.{Call, receive, fetch, run, spec_run, outcome, run-spec_run}
use lhjsample.User.Buffer.Frames.{Frame, packet_of, run-frames}
use lhjsample.Examples.{storage, login_packet, zeros}
use mathlib.Core.Option

abbrev pub empty_buffer : PacketBuffer
empty_buffer = record { bytes = storage 0; wpos = 0; rpos = 0 }

pub empty_buffer-IsValid : IsValid empty_buffer
empty_buffer-IsValid = record {
  storage = length-replicate {A = ℕ} 8096 0;
  ordered = omega arith;
  within = omega arith;
}

-- A buffer with one login packet in it.
abbrev pub login_buffer : PacketBuffer
login_buffer = record { bytes = login_packet ++ zeros 8069; wpos = 27; rpos = 0 }

pub login_buffer-IsValid : IsValid login_buffer
login_buffer-IsValid = record {
  storage = omega (arith, length-append login_packet (zeros 8069), length-replicate {A = ℕ} 8069 0);
  ordered = omega arith;
  within = omega arith;
}

abbrev full_buffer : PacketBuffer
full_buffer = record { bytes = storage 0; wpos = 8096; rpos = 0 }

full_buffer-IsValid : IsValid full_buffer
full_buffer-IsValid = record {
  storage = length-replicate {A = ℕ} 8096 0;
  ordered = omega arith;
  within = omega arith;
}

abbrev calls : List Call
calls = receive (5 ∷ 0 ∷ []) ∷ fetch ∷ receive (200 ∷ 0 ∷ 0 ∷ []) ∷ fetch ∷ []

run-spec_run_example :
    Option.map outcome (run calls login_buffer) ≡ spec_run calls (contents login_buffer)
run-spec_run_example = run-spec_run calls login_buffer login_buffer-IsValid

abbrev fetched_buffer : PacketBuffer
fetched_buffer = record login_buffer { rpos = 27 }

fetches : run (fetch ∷ []) login_buffer ≡ some ((210, login_packet) ∷ [], fetched_buffer)
unfolding run get_packet read_u16
fetches = refl

abbrev login_frame : Frame
login_frame = record { id = 210; kind = 0; body = 97 ∷ 98 ∷ zeros 9 ++ 112 ∷ 119 ∷ zeros 9 }

run-frames_example :
    Option.map outcome (run (replicate 1 fetch) login_buffer)
    ≡ some (packet_of login_frame ∷ [], [])
run-frames_example =
    run-frames (login_frame ∷ []) [] login_buffer login_buffer-IsValid refl
      ((omega arith, omega arith), tt)
