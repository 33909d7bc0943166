-- ===== src/GameLogic/LogicLoop/Tests.antt =====
-- Runs of the logic loop, and its theorems at concrete inputs.
use game_net_core.Prelude.{
  subst, ◌+◌, ℕ, ◌≡◌, ◌≤◌, refl, true, false, List, [], ◌∷◌, Option, none, some, arith,
}
use game_net_core.Session.Binding.{untracked, tracked}
use game_net_core.GameLogic.CommandQueue
use game_net_core.GameLogic.CommandQueue.{GameCommand, normal}
use game_net_core.GameLogic.LogicLoop.{
  World, Action, submits, starts, stops, running, stopped, restart_refused, start, stop, submit,
  perform, perform_all, tick, LogicTickMetric, handle_all, handle, deliver, tick_running, end_tick,
  queue_snapshot,
}
use game_net_core.GameLogic.LogicLoop.Lifecycle.{stop_final}
use game_net_core.GameLogic.LogicLoop.Batch.{tick_bounds, tick_batch, AllQuiet}

abbrev command : ℕ → GameCommand
command id = record {
  session_id = 1;
  transport_id = 2;
  binding = untracked;
  message_id = id;
  request_id = 0;
  priority = normal;
  payload = 7 ∷ [];
  enqueued_at = 5;
}

abbrev queued : CommandQueue.CommandQueue
queued = record {
  limits = record { max_commands = 4; max_queued_bytes = 10; max_payload_bytes = 6 };
  queue = command 1 ∷ command 2 ∷ command 3 ∷ [];
  queued_bytes = 3;
  depth_high_watermark = 3;
  bytes_high_watermark = 3;
  accepted_count = 3;
  rejected_full = 0;
  rejected_payload = 0;
  rejected_stopped = 0;
  dropped_on_stop = 0;
  dropped_bytes_on_stop = 0;
  accepting = true;
}

abbrev world : World
world = record {
  loop = record {
    options = record {
      tick_interval = 50;
      max_commands_per_tick = 2;
      queue_limits = queued.limits;
    };
    queue = queued;
    timer = true;
    tick_count = 0;
    state = running;
    rejected_stale = 0;
    dropped_stale = 0;
    alive = true;
  };
  cells = λ cell. 0;
}

-- Stops the loop at each command, and lists the commands it has seen.
abbrev recorder : List ℕ → GameCommand → Option GameCommand × List Action × List ℕ
recorder seen c = (some c, stops ∷ [], c.message_id ∷ seen)

-- Sends an output, and tries to start the loop again.
abbrev sender : List ℕ → GameCommand → List Action × List ℕ
sender seen o = (starts true true ∷ [], (100 + o.message_id) ∷ seen)

abbrev sample : LogicTickMetric
sample = record {
  tick = 1;
  drained = 2;
  produced = 0;
  queue = record {
    depth = 0;
    queued_bytes = 0;
    depth_high_watermark = 3;
    bytes_high_watermark = 3;
    accepted_count = 3;
    rejected_full = 0;
    rejected_payload = 0;
    rejected_stopped = 0;
    rejected_stale = 0;
    dropped_stale = 0;
    dropped_on_stop = 1;
    dropped_bytes_on_stop = 1;
    accepting = false;
  };
}

-- A call of `start`, a command, and what is left of the stopped loop.
abbrev after_stop : World
after_stop = perform_all (perform world stops) (starts true true ∷ submits 5 (command 4) ∷ [])

stop_final_example :
    (after_stop.loop.state ≡ stopped)
    × (start true true after_stop.loop ≡ (restart_refused, after_stop.loop))
    × (tick recorder (some sender) after_stop [] ≡ (after_stop, [], none))
    × ((submit (λ cell. 0) 5 after_stop.loop (command 4)).0 ≡ CommandQueue.stopped)
unfolding tracked
stop_final_example =
    stop_final world (starts true true ∷ submits 5 (command 4) ∷ []) (λ cell. 0) 5 (command 4) true
      true recorder (some sender) [] tt refl

sender-quiet :
    (callback : List ℕ → GameCommand → List Action × List ℕ)
    → some sender ≡ some callback
    → (s : List ℕ) (o : GameCommand) → AllQuiet (callback s o).0
sender-quiet callback same s o =
    let here : sender ≡ callback = cc in subst (λ k. AllQuiet (k s o).0) here (tt, tt)

-- Although the first command stops the loop, the second one is handled too, and the output of each
-- is sent after it.
tick_batch_example : (tick recorder (some sender) world []).1 ≡ 102 ∷ 2 ∷ 101 ∷ 1 ∷ []
unfolding tracked
tick_batch_example =
    tick_batch recorder (some sender) (λ seen c. (tt, tt)) sender-quiet world [] (omega arith) refl
      refl (refl, (refl, tt))

tick_bounds_example : (2 ≤ 2) × (0 ≤ 2)
unfolding tick tick_running end_tick handle_all handle deliver perform_all perform submit stop
    queue_snapshot CommandQueue.drain tracked CommandQueue.snapshot CommandQueue.close_and_discard
tick_bounds_example = tick_bounds recorder none world [] sample (omega arith) refl
