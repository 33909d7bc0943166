-- ===== src/GameLogic/LogicLoop/Lifecycle.antt =====
-- The logic loop runs once: what stopping it ends.
use game_net_core.Prelude.{ℕ, ◌≡◌, Bool, false, List, [], ◌∷◌, arith, Option, none}
use game_net_core.Session.Binding.{Cells}
use game_net_core.GameLogic.CommandQueue
use game_net_core.GameLogic.CommandQueue.{GameCommand, close_and_discard}
use game_net_core.GameLogic.CommandQueue.Order.{submit_stopped}
use game_net_core.GameLogic.LogicLoop.{
  LogicLoop, World, Action, submits, starts, stops, binds, destroys, created, running, stopped,
  LogicLoopState, restart_refused, is_stale, start, stop, submit, perform, perform_all, tick,
}

-- Stopped for good: the state, and a queue that admits nothing.
pub record IsOver (l : LogicLoop) : Type 0 where
  pub over : l.state ≡ stopped
  pub closed : l.queue.accepting ≡ false

abbrev LivesOn : LogicLoopState → Type 0
LivesOn created = Unit {0}
LivesOn running = Unit {0}
LivesOn _ = ⊥

stop-IsOver : (l : LogicLoop) → LivesOn l.state → IsOver (stop l).1
unfolding stop close_and_discard
stop-IsOver l h = ground arith

submit-IsOver :
    (cells : Cells) (now : ℕ) (l : LogicLoop) (c : GameCommand)
    → IsOver l
    → IsOver (submit cells now l c).1
unfolding submit CommandQueue.submit
submit-IsOver cells now l c v = ground arith

start-IsOver :
    (has_handler armed : Bool) (l : LogicLoop) → IsOver l → IsOver (start has_handler armed l).1
unfolding start
start-IsOver has_handler armed l v = ground (arith, v.over, v.closed)

perform-IsOver : (w : World) (a : Action) → IsOver w.loop → IsOver (perform w a).loop
unfolding perform stop
perform-IsOver w (submits now c) v = submit-IsOver w.cells now w.loop c v
perform-IsOver w (starts has_handler armed) v = start-IsOver has_handler armed w.loop v
perform-IsOver w stops v = ground arith
perform-IsOver w (binds cell g) v = v
perform-IsOver w destroys v = ground arith

perform_all-IsOver :
    (w : World) (actions : List Action) → IsOver w.loop → IsOver (perform_all w actions).loop
unfolding perform_all
perform_all-IsOver w [] v = v
perform_all-IsOver w (a ∷ actions) v =
    perform_all-IsOver (perform w a) actions (perform-IsOver w a v)

over-answers :
    (w : World) (cells : Cells) (now : ℕ) (c : GameCommand) (has_handler armed : Bool) {S : Type 0}
    (handler : S → GameCommand → Option GameCommand × List Action × S)
    (output : Option (S → GameCommand → List Action × S)) (s : S)
    → IsOver w.loop
    → is_stale cells c ≡ false
    → (start has_handler armed w.loop ≡ (restart_refused, w.loop))
      × (tick handler output w s ≡ (w, s, none))
      × ((submit cells now w.loop c).0 ≡ CommandQueue.stopped)
unfolding start tick submit
over-answers w cells now c has_handler armed handler output s v fresh =
    let answer = (submit_stopped now w.loop.queue c v.closed).0 in
    (simp (start, v.over), simp (tick, v.over), rw fresh answer)

-- Stopping a loop that was created or runs is final. Whatever happens afterwards, calls of `start`
-- included, it stays stopped, `start` refuses to restart it and leaves it as it is, a tick changes
-- nothing, and every command that is not stale is answered that the queue is stopped.
pub stop_final :
    (w : World) (actions : List Action) (cells : Cells) (now : ℕ) (c : GameCommand)
    (has_handler armed : Bool) {S : Type 0}
    (handler : S → GameCommand → Option GameCommand × List Action × S)
    (output : Option (S → GameCommand → List Action × S)) (s : S)
    → LivesOn w.loop.state
    → is_stale cells c ≡ false
    → let w' = perform_all (perform w stops) actions in
      (w'.loop.state ≡ stopped)
      × (start has_handler armed w'.loop ≡ (restart_refused, w'.loop))
      × (tick handler output w' s ≡ (w', s, none))
      × ((submit cells now w'.loop c).0 ≡ CommandQueue.stopped)
unfolding perform
stop_final w actions cells now c has_handler armed handler output s h fresh =
    let v = perform_all-IsOver (perform w stops) actions (stop-IsOver w.loop h) in
    let (a, b, d) =
      over-answers (perform_all (perform w stops) actions) cells now c has_handler armed handler
        output s v fresh in
    (v.over, a, b, d)
