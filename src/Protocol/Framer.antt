-- ===== src/Protocol/Framer.antt =====
-- `PacketFramer` of include/gamenet/protocol/PacketFramer.h and src/protocol/PacketFramer.cc.
-- Bytes are numbers below 256. `alloc n` is the capacity of a new `std::vector` of n bytes, and
-- `can_trim n` says whether the allocation that `trimRetainedCapacity` makes succeeds; both are
-- the standard library's.
pub mod Storage
pub mod Wire
pub mod Decode
pub mod Push
pub mod Stream
pub mod RoundTrip
mod Tests
use game_net_core.Prelude.{
  ℕ, zero, suc, ◌+◌, ◌-◌, ◌*◌, ◌/◌, ◌%◌, ◌^◌, Bool, true, false, not, ◌||◌, ◌&&◌, Option, none,
  some, List, [], ◌∷◌, ◌++◌, ltb, leb, ◌==◌, if◌then◌else◌, length, get_or, min, max, add64, sub64,
}
use game_net_core.Protocol.Ring.{ring_read, ring_write, ring_move}

pub data FrameStatus : Type 0 where
  need_more_data frames_ready budget_exhausted frame_too_large buffer_limit_exceeded faulted :
      FrameStatus

pub record FrameResult : Type 0 where
  pub status : FrameStatus
  pub frames : List (List ℕ)
  pub needs_continuation : Bool

pub record PacketFramerOptions : Type 0 where
  pub max_payload_bytes : ℕ
  pub max_buffered_bytes : ℕ
  pub max_frames_per_push : ℕ
  pub max_frame_bytes_per_push : ℕ
  pub max_retained_capacity_bytes : Option ℕ
  pub trim_threshold_bytes : Option ℕ

-- `options_` after the constructor, which fills both optional limits in.
pub record Limits : Type 0 where
  pub max_payload_bytes : ℕ
  pub max_buffered_bytes : ℕ
  pub max_frames_per_push : ℕ
  pub max_frame_bytes_per_push : ℕ
  pub max_retained_capacity_bytes : ℕ
  pub trim_threshold_bytes : ℕ

pub record PacketFramer : Type 0 where
  pub limits : Limits
  pub storage : List ℕ
  pub capacity : ℕ
  pub head : ℕ
  pub buffered_bytes : ℕ
  pub peak_retained_capacity_bytes : ℕ
  pub trim_count : ℕ
  pub trim_armed : Bool
  pub faulted : Bool

pub record PacketFramerRetentionSnapshot : Type 0 where
  pub retained_capacity_bytes : ℕ
  pub peak_retained_capacity_bytes : ℕ
  pub trim_count : ℕ
  pub trim_armed : Bool

abbrev pub length_bytes : ℕ
length_bytes = 4

abbrev pub uint32_max : ℕ
uint32_max = 2 ^ 32 - 1

abbrev pub value_or {ℓ} : {A : Type ℓ} → Option A → A → A
value_or none d = d
value_or (some a) d = a

abbrev resolve : PacketFramerOptions → Limits
resolve o =
    let retained = value_or o.max_retained_capacity_bytes (length_bytes + o.max_payload_bytes) in
    record {
      max_payload_bytes = o.max_payload_bytes;
      max_buffered_bytes = o.max_buffered_bytes;
      max_frames_per_push = o.max_frames_per_push;
      max_frame_bytes_per_push = o.max_frame_bytes_per_push;
      max_retained_capacity_bytes = retained;
      trim_threshold_bytes = value_or o.trim_threshold_bytes retained;
    }

abbrev fresh : Limits → PacketFramer
fresh l = record {
  limits = l;
  storage = [];
  capacity = 0;
  head = 0;
  buffered_bytes = 0;
  peak_retained_capacity_bytes = 0;
  trim_count = 0;
  trim_armed = false;
  faulted = false;
}

-- The constructor; `none` is the exception `std::invalid_argument`.
unfoldable pub create : PacketFramerOptions → Option PacketFramer
create o =
    if ltb uint32_max o.max_payload_bytes || ltb (2 ^ 64 - 1 - length_bytes) o.max_payload_bytes
    then none
    else let maximum_frame_bytes = length_bytes + o.max_payload_bytes in
      if ltb o.max_buffered_bytes maximum_frame_bytes
        || (o.max_frames_per_push == 0 || ltb o.max_frame_bytes_per_push maximum_frame_bytes)
      then none
      else let l = resolve o in
        if ltb l.max_buffered_bytes l.max_retained_capacity_bytes
          || ltb l.max_retained_capacity_bytes l.trim_threshold_bytes
        then none
        else some (fresh l)

-- The constructor from a payload limit alone.
unfoldable pub options_for_payload_limit : ℕ → Option PacketFramerOptions
options_for_payload_limit n =
    if ltb uint32_max n || ltb (2 ^ 64 - 1 - length_bytes) n
    then none
    else let frame_bytes = length_bytes + n in
      some (record {
        max_payload_bytes = n;
        max_buffered_bytes =
            if leb frame_bytes ((2 ^ 64 - 1) / 2) then frame_bytes * 2 else frame_bytes;
        max_frames_per_push = 64;
        max_frame_bytes_per_push = frame_bytes;
        max_retained_capacity_bytes = none;
        trim_threshold_bytes = none;
      })

-- The bytes that the ring holds, oldest first.
abbrev pub contents : PacketFramer → List ℕ
contents f = ring_read f.storage f.head f.buffered_bytes

unfoldable pub byte_at : PacketFramer → ℕ → ℕ
byte_at f offset = get_or f.storage (add64 f.head offset % length f.storage) 0

unfoldable pub copy_payload : PacketFramer → ℕ → ℕ → List ℕ
copy_payload f offset n =
    if n == 0 then [] else ring_read f.storage (add64 f.head offset % length f.storage) n

-- The `while` loop of `appendBytes`. Each round grows by one at least until `required` is reached,
-- so `required` rounds are enough.
unfoldable pub grow_step : ℕ → ℕ → ℕ → ℕ
grow_step limit required grown =
    let next = grown + min (sub64 limit grown) (max (grown / 2) 1) in
    if ltb next required && next == limit then required else next

unfoldable pub grow : ℕ → ℕ → ℕ → ℕ → ℕ
unfolding grow_step
grow zero limit required grown = grown
grow (suc fuel) limit required grown =
    let rest = grow fuel limit required (grow_step limit required grown) in
    if ltb grown required then rest else grown

unfoldable pub update_retention_state : PacketFramer → PacketFramer
update_retention_state f = record f {
  peak_retained_capacity_bytes = max f.peak_retained_capacity_bytes f.capacity;
  trim_armed = if ltb f.limits.max_retained_capacity_bytes f.capacity then true else f.trim_armed;
}

module _ (alloc : ℕ → ℕ) (can_trim : ℕ → Bool) where
  unfoldable pub trim_retained_capacity : PacketFramer → Bool × PacketFramer
  trim_retained_capacity f =
      let retained = f.limits.max_retained_capacity_bytes in
      if not f.trim_armed || ltb f.limits.trim_threshold_bytes f.buffered_bytes
      then (false, f)
      else if can_trim retained
      then (
        true,
        record f {
          storage = ring_move f.storage f.head f.buffered_bytes retained;
          capacity = alloc retained;
          head = 0;
          trim_count = add64 f.trim_count 1;
          trim_armed = ltb retained (alloc retained);
        },
      )
      else (false, f)

  unfoldable pub grow_storage : PacketFramer → ℕ → PacketFramer
  unfolding grow update_retention_state
  grow_storage f required =
      let limit = f.limits.max_buffered_bytes in
      let start = if length f.storage == 0 then min 64 limit else length f.storage in
      let grown = grow required limit required start in
      update_retention_state (record f {
        storage = ring_move f.storage f.head f.buffered_bytes grown;
        capacity = alloc grown;
        head = 0;
      })

  unfoldable pub write_bytes : PacketFramer → List ℕ → PacketFramer
  write_bytes f bytes =
      let tail = add64 f.head f.buffered_bytes % length f.storage in
      record f {
        storage = ring_write f.storage tail bytes;
        buffered_bytes = add64 f.buffered_bytes (length bytes);
      }

  unfoldable pub append_bytes : PacketFramer → List ℕ → PacketFramer
  append_bytes f bytes =
      let required = add64 f.buffered_bytes (length bytes) in
      write_bytes (if ltb (length f.storage) required then grow_storage f required else f) bytes

  unfoldable pub consume : PacketFramer → ℕ → PacketFramer
  unfolding trim_retained_capacity
  consume f bytes =
      let left = sub64 f.buffered_bytes bytes in
      (trim_retained_capacity (record f {
        head = if left == 0 then 0 else add64 f.head bytes % length f.storage;
        buffered_bytes = left;
      })).1

  unfoldable pub clear_buffer : PacketFramer → PacketFramer
  clear_buffer f = (trim_retained_capacity (record f { head = 0; buffered_bytes = 0 })).1

  unfoldable pub reset : PacketFramer → PacketFramer
  unfolding clear_buffer
  reset f = record (clear_buffer f) { faulted = false }

unfoldable pub retention_snapshot : PacketFramer → PacketFramerRetentionSnapshot
retention_snapshot f = record {
  retained_capacity_bytes = f.capacity;
  peak_retained_capacity_bytes = f.peak_retained_capacity_bytes;
  trim_count = f.trim_count;
  trim_armed = f.trim_armed;
}

-- The length field at an offset of the buffered bytes. The four shifted bytes have no bit in
-- common, so `|` is `+`.
unfoldable pub payload_bytes_at : PacketFramer → ℕ → ℕ
payload_bytes_at f consumed =
    byte_at f consumed * 2 ^ 24
    + byte_at f (consumed + 1) * 2 ^ 16
    + byte_at f (consumed + 2) * 2 ^ 8
    + byte_at f (consumed + 3)

-- How the `while` loop of `push` ends: too few bytes for a frame, an exhausted budget, or a
-- length field above the limit.
pub data LoopEnd : Type 0 where
  short budget too_large : LoopEnd

-- One round: the loop ends, or the next frame, of so many payload bytes, is taken.
pub data Round : Type 0 where
  stop : LoopEnd → Round
  take_frame : ℕ → Round

unfoldable pub round : PacketFramer → ℕ → ℕ → ℕ → Round
round f consumed processed count =
    let payload_bytes = payload_bytes_at f consumed in
    let frame_bytes = length_bytes + payload_bytes in
    if ltb (sub64 f.buffered_bytes consumed) length_bytes
    then stop short
    else if ltb f.limits.max_payload_bytes payload_bytes
    then stop too_large
    else if ltb (sub64 f.buffered_bytes consumed) frame_bytes
    then stop short
    else if leb f.limits.max_frames_per_push count
        || ltb (sub64 f.limits.max_frame_bytes_per_push processed) frame_bytes
    then stop budget
    else take_frame payload_bytes

abbrev pub Decoded : Type 0
Decoded = List (List ℕ) × ℕ × LoopEnd

abbrev pub push_frame : List ℕ → Decoded → Decoded
push_frame payload (frames, consumed, end_of_loop) = (payload ∷ frames, consumed, end_of_loop)

-- The loop; `count` is `result.frames.size()` so far. Each round that goes on consumes four bytes
-- at least, so one round more than there are buffered bytes is enough.
unfoldable pub decode : PacketFramer → ℕ → ℕ → ℕ → ℕ → Decoded
decode f zero consumed processed count = ([], consumed, short)
decode f (suc fuel) consumed processed count = elim (round f consumed processed count) [
  | stop e ↦ ([], consumed, e)
  | take_frame n ↦
      push_frame (copy_payload f (consumed + length_bytes) n)
        (decode f fuel (consumed + (length_bytes + n)) (processed + (length_bytes + n)) (count + 1))
]

abbrev pub status_of : List (List ℕ) → FrameStatus
status_of [] = need_more_data
status_of (x ∷ xs) = frames_ready

module _ (alloc : ℕ → ℕ) (can_trim : ℕ → Bool) where
  -- What `push` does after the loop.
  unfoldable pub finish : PacketFramer → Decoded → FrameResult × PacketFramer
  finish f (frames, consumed, too_large) = (
    record { status = frame_too_large; frames = []; needs_continuation = false },
    record (clear_buffer alloc can_trim f) { faulted = true },
  )
  finish f (frames, consumed, short) =
      let g = if consumed == 0 then f else consume alloc can_trim f consumed in
      (
        record { status = status_of frames; frames = frames; needs_continuation = false },
        (trim_retained_capacity alloc can_trim g).1,
      )
  finish f (frames, consumed, budget) =
      let g = if consumed == 0 then f else consume alloc can_trim f consumed in
      (
        record { status = budget_exhausted; frames = frames; needs_continuation = true },
        (trim_retained_capacity alloc can_trim g).1,
      )

  -- `if (!bytes.empty()) appendBytes(bytes)`
  unfoldable pub append_if_any : PacketFramer → List ℕ → PacketFramer
  append_if_any f bytes = if length bytes == 0 then f else append_bytes alloc can_trim f bytes

  unfoldable pub push : PacketFramer → List ℕ → FrameResult × PacketFramer
  push f bytes =
      if f.faulted
      then (record { status = faulted; frames = []; needs_continuation = false }, f)
      else if ltb (sub64 f.limits.max_buffered_bytes f.buffered_bytes) (length bytes)
      then (
        record { status = buffer_limit_exceeded; frames = []; needs_continuation = false },
        record (clear_buffer alloc can_trim f) { faulted = true },
      )
      else let g = append_if_any f bytes in finish g (decode g (suc g.buffered_bytes) 0 0 0)

-- `appendLength`: four bytes, the highest first.
unfoldable pub append_length : ℕ → List ℕ
append_length n = n / 2 ^ 24 % 256 ∷ n / 2 ^ 16 % 256 ∷ n / 2 ^ 8 % 256 ∷ n % 256 ∷ []

-- `none` is `std::nullopt`.
unfoldable pub encode : PacketFramer → List ℕ → Option (List ℕ)
unfolding append_length
encode f payload =
    if ltb f.limits.max_payload_bytes (length payload) || ltb uint32_max (length payload)
    then none
    else some (append_length (length payload % 2 ^ 32) ++ payload)
