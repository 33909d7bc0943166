-- ===== src/Protocol/Framer/Tests.antt =====
-- Runs of the framer, and its theorems at concrete inputs.
use game_net_core.Prelude.{ℕ, ◌≤◌, ◌≡◌, refl, Bool, true, false, none, List, [], ◌∷◌, ◌++◌, arith}
use game_net_core.Protocol.Ring.{ring_read, ring_write, ring_move}
use game_net_core.Protocol.Framer.{
  PacketFramer, PacketFramerOptions, Limits, contents, create, grow, push, encode, append_length,
  finish, decode, round, append_if_any, append_bytes, write_bytes, grow_storage, payload_bytes_at,
  byte_at, consume, trim_retained_capacity, clear_buffer, copy_payload, frames_ready,
}
use game_net_core.Protocol.Framer.Storage.{IsValid, create-IsValid, grow_bounds}
use game_net_core.Protocol.Framer.Wire.{wire}
use game_net_core.Protocol.Framer.Push.{push_lem}
use game_net_core.Protocol.Framer.Stream.{feed, feed_lem, flatten}
use game_net_core.Protocol.Framer.RoundTrip.{push-wire, push-encode}

abbrev exact : ℕ → ℕ
exact n = n

abbrev always : ℕ → Bool
always n = true

abbrev small_limits : Limits
small_limits = record {
  max_payload_bytes = 5;
  max_buffered_bytes = 18;
  max_frames_per_push = 2;
  max_frame_bytes_per_push = 18;
  max_retained_capacity_bytes = 9;
  trim_threshold_bytes = 9;
}

-- One byte of a length field is held, at the last index of the ring.
abbrev wrapped : PacketFramer
wrapped = record {
  limits = small_limits;
  storage = 7 ∷ 7 ∷ 0 ∷ [];
  capacity = 3;
  head = 2;
  buffered_bytes = 1;
  peak_retained_capacity_bytes = 3;
  trim_count = 0;
  trim_armed = false;
  faulted = false;
}

abbrev idle : PacketFramer
idle = record wrapped { head = 0; buffered_bytes = 0 }

abbrev small_options : PacketFramerOptions
small_options = record {
  max_payload_bytes = 5;
  max_buffered_bytes = 18;
  max_frames_per_push = 2;
  max_frame_bytes_per_push = 18;
  max_retained_capacity_bytes = none;
  trim_threshold_bytes = none;
}

wrapped-IsValid : IsValid wrapped
wrapped-IsValid = omega arith

idle-IsValid : IsValid idle
idle-IsValid = omega arith

-- A frame that is completed, and the beginning of the next.
push-wrapped :
    (push exact always wrapped (0 ∷ 0 ∷ 2 ∷ 8 ∷ 9 ∷ 0 ∷ [])).0
    ≡ record { status = frames_ready; frames = (8 ∷ 9 ∷ []) ∷ []; needs_continuation = false }
unfolding push finish decode round append_if_any append_bytes write_bytes grow_storage
    payload_bytes_at byte_at ring_write ring_move copy_payload ring_read
push-wrapped = refl

push_lem_example : IsValid (push exact always wrapped (0 ∷ 0 ∷ 2 ∷ 8 ∷ 9 ∷ 0 ∷ [])).1
unfolding ring_read
push_lem_example =
    (push_lem exact always wrapped (0 ∷ 0 ∷ 2 ∷ 8 ∷ 9 ∷ 0 ∷ []) wrapped-IsValid refl (omega arith)
      (omega arith)).0

abbrev chunks : List (List ℕ)
chunks = (0 ∷ 0 ∷ []) ∷ (0 ∷ 1 ∷ 9 ∷ 0 ∷ []) ∷ []

feed-chunks : (feed exact always idle chunks).1.faulted ≡ false
unfolding feed push finish decode round append_if_any append_bytes write_bytes grow_storage
    payload_bytes_at byte_at consume trim_retained_capacity clear_buffer ring_write ring_move
    copy_payload ring_read
feed-chunks = refl

feed_lem_example :
    contents idle ++ flatten chunks
    ≡ wire (feed exact always idle chunks).0 ++ contents (feed exact always idle chunks).1
unfolding ring_read
feed_lem_example = feed_lem exact always idle chunks idle-IsValid refl tt (omega arith) feed-chunks

push-wire_example :
    (push exact always idle (wire ((8 ∷ 9 ∷ []) ∷ [] ∷ []))).0.frames ≡ (8 ∷ 9 ∷ []) ∷ [] ∷ []
unfolding ring_read append_length
push-wire_example =
    (push-wire exact always idle ((8 ∷ 9 ∷ []) ∷ [] ∷ []) idle-IsValid refl refl (omega arith)
      (omega arith) (omega arith) (omega arith)).0

push-encode_example : (push exact always idle (0 ∷ 0 ∷ 0 ∷ 1 ∷ 6 ∷ [])).0.frames ≡ (6 ∷ []) ∷ []
unfolding encode ring_read append_length
push-encode_example =
    (push-encode exact always wrapped idle (6 ∷ []) (0 ∷ 0 ∷ 0 ∷ 1 ∷ 6 ∷ []) idle-IsValid refl refl
      (omega arith) refl).0

create-IsValid_example : IsValid (record idle {
  limits = record small_limits { trim_threshold_bytes = 9 };
  storage = [];
  capacity = 0;
  peak_retained_capacity_bytes = 0;
})
unfolding create
create-IsValid_example = (create-IsValid small_options _ (omega arith) (omega arith) refl).0

grow_bounds_example : (5 ≤ grow 5 18 5 3) × (grow 5 18 5 3 ≤ 18)
grow_bounds_example = grow_bounds 5 18 5 3 (omega arith) (omega arith) (omega arith) (omega arith)
