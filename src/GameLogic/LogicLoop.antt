-- ===== src/GameLogic/LogicLoop.antt =====
-- `LogicLoop` of include/gamenet/game_logic/LogicLoop.h and src/game_logic/LogicLoop.cc. The
-- handler and the output callback are the client's: functions of a client state, each of which
-- answers with the calls that it makes on the loop, or that happen elsewhere, while it runs.
pub mod Lifecycle
pub mod Batch
mod Tests
use game_net_core.Prelude.{
  ℕ, zero, suc, ◌+◌, ◌≡◌, Bool, true, false, not, ◌&&◌, ◌||◌, Option, none, some, List, [], ◌∷◌,
  ◌==◌, if◌then◌else◌, length, add64,
}
use game_net_core.Session.Binding.{SessionBinding, Cells, tracked, is_current, store_generation}
use game_net_core.GameLogic.CommandQueue
use game_net_core.GameLogic.CommandQueue.{
  GameCommand, QueueLimits, QueueSnapshot, SubmitResult, stale_binding, drain, close_and_discard,
}

pub data LogicLoopState : Type 0 where
  created running stopping stopped : LogicLoopState

pub record LogicStopSummary : Type 0 where
  pub dropped_commands : ℕ
  pub dropped_bytes : ℕ

pub record LogicLoopOptions : Type 0 where
  pub tick_interval : ℕ
  pub max_commands_per_tick : ℕ
  pub queue_limits : QueueLimits

pub record LogicTickMetric : Type 0 where
  pub tick : ℕ
  pub drained : ℕ
  pub produced : ℕ
  pub queue : QueueSnapshot

-- `alive` is the lifetime flag that the destructor revokes; `timer` says whether the repeating
-- timer is armed.
pub record LogicLoop : Type 0 where
  pub options : LogicLoopOptions
  pub queue : CommandQueue.CommandQueue
  pub timer : Bool
  pub tick_count : ℕ
  pub state : LogicLoopState
  pub rejected_stale : ℕ
  pub dropped_stale : ℕ
  pub alive : Bool

-- The constructor; `none` is the exception. `has_owner` is `ownerLoop != nullptr`.
unfoldable pub create : Bool → LogicLoopOptions → Option LogicLoop
create has_owner o = elim (CommandQueue.create o.queue_limits) [
  | none ↦ none
  | some q ↦
      if not has_owner || (o.tick_interval == 0 || o.max_commands_per_tick == 0)
      then none
      else some (record {
        options = o;
        queue = q;
        timer = false;
        tick_count = 0;
        state = created;
        rejected_stale = 0;
        dropped_stale = 0;
        alive = true;
      })
]

pub data StartResult : Type 0 where
  started already_running restart_refused no_handler timer_refused : StartResult

-- `armed` says whether `runEvery` arms the timer or throws.
unfoldable pub start : Bool → Bool → LogicLoop → StartResult × LogicLoop
start has_handler armed l = elim l.state [
  | running ↦ (already_running, l)
  | created ↦
      if has_handler
      then (if armed
          then (started, record l { state = running; timer = true })
          else (timer_refused, record l { state = created }))
      else (no_handler, l)
  | _ ↦ (restart_refused, l)
]

abbrev discarding : LogicLoop → LogicStopSummary × LogicLoop
discarding l =
    let (summary, q) = close_and_discard l.queue in
    (
      record { dropped_commands = summary.dropped_commands; dropped_bytes = summary.dropped_bytes },
      record l { timer = false; queue = q; state = stopped },
    )

unfoldable pub stop : LogicLoop → LogicStopSummary × LogicLoop
stop l = elim l.state [
  | stopped ↦ (record { dropped_commands = 0; dropped_bytes = 0 }, l)
  | stopping ↦ (record { dropped_commands = 0; dropped_bytes = 0 }, l)
  | _ ↦ discarding l
]

-- A command is stale if its binding is tracked and no longer current.
abbrev pub is_stale : Cells → GameCommand → Bool
is_stale cells c = tracked c.binding && not (is_current cells c.binding)

unfoldable pub submit : Cells → ℕ → LogicLoop → GameCommand → SubmitResult × LogicLoop
submit cells now l c =
    if is_stale cells c
    then (stale_binding, record l { rejected_stale = add64 l.rejected_stale 1 })
    else let (r, q) = CommandQueue.submit now l.queue c in (r, record l { queue = q })

unfoldable pub queue_snapshot : LogicLoop → QueueSnapshot
queue_snapshot l = record (CommandQueue.snapshot l.queue) {
  rejected_stale = l.rejected_stale;
  dropped_stale = l.dropped_stale;
}

-- What happens while a callback runs: calls of this loop, a change of some session's binding, or
-- the destruction of the loop. A call of `start` comes with whether there is a handler and whether
-- the timer can be armed.
pub data Action : Type 0 where
  submits : ℕ → GameCommand → Action
  starts : Bool → Bool → Action
  stops : Action
  binds : ℕ → ℕ → Action
  destroys : Action

pub record World : Type 0 where
  pub loop : LogicLoop
  pub cells : Cells

-- The destructor stops a running loop after revoking its lifetime.
unfoldable pub perform : World → Action → World
unfolding submit start stop
perform w (submits now c) = record w { loop = (submit w.cells now w.loop c).1 }
perform w (starts has_handler armed) = record w { loop = (start has_handler armed w.loop).1 }
perform w stops = record w { loop = (stop w.loop).1 }
perform w (binds cell g) = record w { cells = store_generation w.cells cell g }
perform w destroys =
    let l = record w.loop { alive = false } in
    record w { loop = elim l.state [ running ↦ (stop l).1 | _ ↦ l ] }

unfoldable pub perform_all : World → List Action → World
unfolding perform
perform_all w [] = w
perform_all w (a ∷ as') = perform_all (perform w a) as'

abbrev pub count_stale : World → World
count_stale w = record w { loop = record w.loop { dropped_stale = add64 w.loop.dropped_stale 1 } }

module _ {S : Type 0} (handler : S → GameCommand → Option GameCommand × List Action × S)
    (output_callback : Option (S → GameCommand → List Action × S)) where
  -- What the `for` loop does with the handler's output; the count is that of outputs passed on.
  unfoldable pub deliver : World → S → Option GameCommand → World × S × ℕ
  deliver w s none = (w, s, 0)
  deliver w s (some o) = elim output_callback [
    | none ↦ (w, s, 0)
    | some callback ↦
        if is_stale w.cells o
        then (count_stale w, s, 0)
        else let (actions, s') = callback s o in (perform_all w actions, s', 1)
  ]

  -- One command of the batch.
  unfoldable pub handle : World → S → GameCommand → World × S × ℕ
  unfolding deliver
  handle w s c =
      if is_stale w.cells c
      then (count_stale w, s, 0)
      else let (out, actions, s') = handler s c in
        let w' = perform_all w actions in if w'.loop.alive then deliver w' s' out else (w', s', 0)

  -- The `for` loop over the drained commands, with the count of outputs so far; it is left at once
  -- when the loop has been destroyed.
  unfoldable pub handle_all : World → S → ℕ → List GameCommand → World × S × ℕ
  handle_all w s produced [] = (w, s, produced)
  handle_all w s produced (c ∷ cs) =
      let (w', s', n) = handle w s c in
      let rest = handle_all w' s' (produced + n) cs in
      if w'.loop.alive then rest else (w', s', produced + n)

  unfoldable pub end_tick : World → S → ℕ → ℕ → World × S × Option LogicTickMetric
  end_tick w s drained produced =
      let l = record w.loop { tick_count = add64 w.loop.tick_count 1 } in
      let sample : LogicTickMetric = record {
        tick = l.tick_count;
        drained = drained;
        produced = produced;
        queue = queue_snapshot l;
      } in
      if w.loop.alive then (record w { loop = l }, s, some sample) else (w, s, none)

  unfoldable pub tick_running : World → S → World × S × Option LogicTickMetric
  unfolding end_tick
  tick_running w s =
      let (commands, q) = drain w.loop.options.max_commands_per_tick w.loop.queue in
      let (w', s', produced) =
        handle_all (record w { loop = record w.loop { queue = q } }) s 0 commands in
      end_tick w' s' (length commands) produced

  -- `tick`; the option is the sample for the metric callback.
  unfoldable pub tick : World → S → World × S × Option LogicTickMetric
  unfolding tick_running
  tick w s = elim w.loop.state [ running ↦ tick_running w s | _ ↦ (w, s, none) ]
