-- ===== src/GameLogic/CommandQueue/Tests.antt =====
-- Runs of the command queue, and its theorems at concrete inputs.
use game_net_core.Prelude.{ℕ, ◌≡◌, refl, ◌++◌, inl, true, List, [], ◌∷◌, arith}
use game_net_core.Session.Binding.{untracked}
use game_net_core.GameLogic.CommandQueue.{
  GameCommand, CommandQueue, QueueLimits, Call, submits, drains, closes, discards, accepted,
  stopped, queue_full, normal, create, submit, admit, drain, step, run, admitted, removed,
}
use game_net_core.GameLogic.CommandQueue.Invariant.{IsValid, run-create-IsValid, drain_lem}
use game_net_core.GameLogic.CommandQueue.Order.{queue-run, submit-accepted_iff, submit-after_close}

abbrev limits : QueueLimits
limits = record { max_commands = 2; max_queued_bytes = 10; max_payload_bytes = 6 }

abbrev empty : CommandQueue
empty = record {
  limits = limits;
  queue = [];
  queued_bytes = 0;
  depth_high_watermark = 0;
  bytes_high_watermark = 0;
  accepted_count = 0;
  rejected_full = 0;
  rejected_payload = 0;
  rejected_stopped = 0;
  dropped_on_stop = 0;
  dropped_bytes_on_stop = 0;
  accepting = true;
}

abbrev command : ℕ → List ℕ → GameCommand
command id payload = record {
  session_id = 1;
  transport_id = 2;
  binding = untracked;
  message_id = id;
  request_id = 0;
  priority = normal;
  payload = payload;
  enqueued_at = 5;
}

abbrev first : GameCommand
first = command 1 (1 ∷ 2 ∷ 3 ∷ [])

abbrev second : GameCommand
second = command 2 (4 ∷ [])

abbrev calls : List Call
calls = submits 9 first ∷ submits 9 second ∷ drains 1 ∷ discards ∷ submits 9 first ∷ []

empty-IsValid : IsValid empty
empty-IsValid = omega arith

-- The third command finds two queued already.
submit_full : (submit 9 (run empty (submits 9 first ∷ submits 9 second ∷ [])) first).0 ≡ queue_full
unfolding submit admit run
submit_full = refl

run-create-IsValid_example : IsValid (run empty calls)
unfolding create
run-create-IsValid_example = run-create-IsValid limits empty calls (omega arith) refl

drain_lem_example :
    (drain 1 (record empty {
      queue = first ∷ second ∷ [];
      queued_bytes = 4;
      depth_high_watermark = 2;
      bytes_high_watermark = 4;
    })).0
    ≡ first ∷ []
drain_lem_example =
    (drain_lem 1
      (record empty {
        queue = first ∷ second ∷ [];
        queued_bytes = 4;
        depth_high_watermark = 2;
        bytes_high_watermark = 4;
      })
      (omega arith)).0

queue-run_example : [] ++ admitted empty calls ≡ removed empty calls ++ (run empty calls).queue
queue-run_example = queue-run empty calls empty-IsValid

submit-accepted_iff_example : (submit 9 empty first).0 ≡ accepted
submit-accepted_iff_example =
    (submit-accepted_iff 9 empty first empty-IsValid).1
      (refl, omega arith, omega arith, omega arith)

submit-after_close_example : (submit 9 (run (step empty closes) calls) first).0 ≡ stopped
submit-after_close_example = (submit-after_close empty closes calls 9 first (inl refl)).0
