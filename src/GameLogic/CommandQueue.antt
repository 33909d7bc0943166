-- ===== src/GameLogic/CommandQueue.antt =====
-- `GameCommandQueue` of include/gamenet/game_logic/GameCommandQueue.h and
-- src/game_logic/GameCommandQueue.cc. Every method holds the queue's mutex for its whole body, so a
-- method is one step on the state. The counters are 64-bit words.
pub mod Invariant
pub mod Order
mod Tests
use game_net_core.Prelude.{
  ℕ, zero, suc, ◌-◌, ◌≡◌, Bool, true, false, ◌||◌, Option, none, some, List, [], ◌∷◌, ◌++◌, ltb,
  leb, ◌==◌, if◌then◌else◌, length, take, drop, add64, sub64, max, min, ◌+◌,
}
use game_net_core.Session.Binding.{SessionBinding}

pub data CommandPriority : Type 0 where
  low normal high : CommandPriority

-- A payload is its bytes; `enqueued_at` counts clock ticks, zero for the default time point.
pub record GameCommand : Type 0 where
  pub session_id : ℕ
  pub transport_id : ℕ
  pub binding : SessionBinding
  pub message_id : ℕ
  pub request_id : ℕ
  pub priority : CommandPriority
  pub payload : List ℕ
  pub enqueued_at : ℕ

pub data SubmitResult : Type 0 where
  accepted queue_full payload_too_large stopped stale_binding : SubmitResult

pub record QueueLimits : Type 0 where
  pub max_commands : ℕ
  pub max_queued_bytes : ℕ
  pub max_payload_bytes : ℕ

pub record CommandQueue : Type 0 where
  pub limits : QueueLimits
  pub queue : List GameCommand
  pub queued_bytes : ℕ
  pub depth_high_watermark : ℕ
  pub bytes_high_watermark : ℕ
  pub accepted_count : ℕ
  pub rejected_full : ℕ
  pub rejected_payload : ℕ
  pub rejected_stopped : ℕ
  pub dropped_on_stop : ℕ
  pub dropped_bytes_on_stop : ℕ
  pub accepting : Bool

pub record QueueSnapshot : Type 0 where
  pub depth : ℕ
  pub queued_bytes : ℕ
  pub depth_high_watermark : ℕ
  pub bytes_high_watermark : ℕ
  pub accepted_count : ℕ
  pub rejected_full : ℕ
  pub rejected_payload : ℕ
  pub rejected_stopped : ℕ
  pub rejected_stale : ℕ
  pub dropped_stale : ℕ
  pub dropped_on_stop : ℕ
  pub dropped_bytes_on_stop : ℕ
  pub accepting : Bool

pub record QueueDiscardSummary : Type 0 where
  pub dropped_commands : ℕ
  pub dropped_bytes : ℕ

abbrev pub payload_size : GameCommand → ℕ
payload_size c = length c.payload

-- The constructor's check; `none` is the exception `std::invalid_argument`.
unfoldable pub create : QueueLimits → Option CommandQueue
create l =
    if l.max_commands == 0
      || (l.max_queued_bytes == 0
          || (l.max_payload_bytes == 0 || ltb l.max_queued_bytes l.max_payload_bytes))
    then none
    else some (record {
      limits = l;
      queue = [];
      queued_bytes = 0;
      depth_high_watermark = 0;
      bytes_high_watermark = 0;
      accepted_count = 0;
      rejected_full = 0;
      rejected_payload = 0;
      rejected_stopped = 0;
      dropped_on_stop = 0;
      dropped_bytes_on_stop = 0;
      accepting = true;
    })

-- A command without a time is stamped with `now`, the reading of the clock.
abbrev pub stamp : ℕ → GameCommand → GameCommand
stamp now c = if c.enqueued_at == 0 then record c { enqueued_at = now } else c

unfoldable pub admit : ℕ → CommandQueue → GameCommand → CommandQueue
admit now q c =
    let bytes = add64 q.queued_bytes (payload_size c) in
    let queue = q.queue ++ (stamp now c ∷ []) in
    record q {
      queued_bytes = bytes;
      queue = queue;
      accepted_count = add64 q.accepted_count 1;
      depth_high_watermark = max q.depth_high_watermark (length queue);
      bytes_high_watermark = max q.bytes_high_watermark bytes;
    }

unfoldable pub submit : ℕ → CommandQueue → GameCommand → SubmitResult × CommandQueue
submit now q c =
    if q.accepting
    then (if ltb q.limits.max_payload_bytes (payload_size c)
        then (payload_too_large, record q { rejected_payload = add64 q.rejected_payload 1 })
        else if leb q.limits.max_commands (length q.queue)
            || ltb (sub64 q.limits.max_queued_bytes q.queued_bytes) (payload_size c)
        then (queue_full, record q { rejected_full = add64 q.rejected_full 1 })
        else (accepted, admit now q c))
    else (stopped, record q { rejected_stopped = add64 q.rejected_stopped 1 })

-- The `for` loop of `drain`: `n` rounds, each moving the front command to the result.
unfoldable pub drain_loop : ℕ → List GameCommand → ℕ → List GameCommand × List GameCommand × ℕ
drain_loop zero queue bytes = ([], queue, bytes)
drain_loop (suc n) [] bytes = ([], [], bytes)
drain_loop (suc n) (c ∷ queue) bytes =
    let (out, rest, left) = drain_loop n queue (sub64 bytes (payload_size c)) in
    (c ∷ out, rest, left)

unfoldable pub drain : ℕ → CommandQueue → List GameCommand × CommandQueue
unfolding drain_loop
drain max_commands q =
    let count = min max_commands (length q.queue) in
    let (out, rest, left) = drain_loop count q.queue q.queued_bytes in
    (out, record q { queue = rest; queued_bytes = left })

unfoldable pub snapshot : CommandQueue → QueueSnapshot
snapshot q = record {
  depth = length q.queue;
  queued_bytes = q.queued_bytes;
  depth_high_watermark = q.depth_high_watermark;
  bytes_high_watermark = q.bytes_high_watermark;
  accepted_count = q.accepted_count;
  rejected_full = q.rejected_full;
  rejected_payload = q.rejected_payload;
  rejected_stopped = q.rejected_stopped;
  rejected_stale = 0;
  dropped_stale = 0;
  dropped_on_stop = q.dropped_on_stop;
  dropped_bytes_on_stop = q.dropped_bytes_on_stop;
  accepting = q.accepting;
}

unfoldable pub close : CommandQueue → CommandQueue
close q = record q { accepting = false }

unfoldable pub close_and_discard : CommandQueue → QueueDiscardSummary × CommandQueue
close_and_discard q =
    let commands = length q.queue in
    (
      record { dropped_commands = commands; dropped_bytes = q.queued_bytes },
      record q {
        accepting = false;
        dropped_on_stop = add64 q.dropped_on_stop commands;
        dropped_bytes_on_stop = add64 q.dropped_bytes_on_stop q.queued_bytes;
        queue = [];
        queued_bytes = 0;
      },
    )

-- What the owners of a queue can ask of it; `now` is the clock at the call.
pub data Call : Type 0 where
  submits : ℕ → GameCommand → Call
  drains : ℕ → Call
  closes : Call
  discards : Call

unfoldable pub step : CommandQueue → Call → CommandQueue
unfolding submit drain close close_and_discard
step q (submits now c) = (submit now q c).1
step q (drains n) = (drain n q).1
step q closes = close q
step q discards = (close_and_discard q).1

unfoldable pub run : CommandQueue → List Call → CommandQueue
unfolding step
run q [] = q
run q (c ∷ cs) = run (step q c) cs

-- What the calls accept, in order, and what they take out, by `drain` or by discarding.
unfoldable pub admitted : CommandQueue → List Call → List GameCommand
admitted q [] = []
admitted q (submits now c ∷ cs) =
    let rest = admitted (submit now q c).1 cs in
    elim (submit now q c).0 [ accepted ↦ stamp now c ∷ rest | _ ↦ rest ]
admitted q (drains n ∷ cs) = admitted (drain n q).1 cs
admitted q (closes ∷ cs) = admitted (close q) cs
admitted q (discards ∷ cs) = admitted (close_and_discard q).1 cs

unfoldable pub removed : CommandQueue → List Call → List GameCommand
removed q [] = []
removed q (submits now c ∷ cs) = removed (submit now q c).1 cs
removed q (drains n ∷ cs) = (drain n q).0 ++ removed (drain n q).1 cs
removed q (closes ∷ cs) = removed (close q) cs
removed q (discards ∷ cs) = q.queue ++ removed (close_and_discard q).1 cs
