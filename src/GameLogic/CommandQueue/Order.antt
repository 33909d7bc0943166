-- ===== src/GameLogic/CommandQueue/Order.antt =====
-- The order of the command queue, its admission, and the end of admission.
use game_net_core.Prelude.{
  ℕ, ◌+◌, ◌≤◌, ◌<◌, ◌≡◌, refl, sym, ap, ap₂, ◌∙◌, ◌↔◌, ◌⊎◌, inl, inr, true, false, List, [], ◌∷◌,
  ◌++◌, arith, length, take-append-drop, append_assoc, append-nil, min,
}
use game_net_core.GameLogic.CommandQueue.{
  GameCommand, CommandQueue, Call, SubmitResult, accepted, stopped, submits, drains, closes,
  discards, payload_size, stamp, admit, submit, drain, close, close_and_discard, step, run,
  admitted, removed,
}
use game_net_core.GameLogic.CommandQueue.Invariant.{IsValid, total_bytes, drain_lem, step-IsValid}

-- An accepted command goes to the end; any other answer leaves the queue as it was.
abbrev queue_after : List GameCommand → GameCommand → SubmitResult → List GameCommand
queue_after queue c accepted = queue ++ (c ∷ [])
queue_after queue c _ = queue

queue-submit :
    (now : ℕ) (q : CommandQueue) (c : GameCommand)
    → (submit now q c).1.queue ≡ queue_after q.queue (stamp now c) (submit now q c).0
unfolding submit admit
queue-submit now q c = ground arith

drain-splits :
    (n : ℕ) (q : CommandQueue) → IsValid q → (drain n q).0 ++ (drain n q).1.queue ≡ q.queue
drain-splits n q v =
    ap₂ ◌++◌ (drain_lem n q v).0 (drain_lem n q v).1
    ∙ take-append-drop (min n (length q.queue)) q.queue

-- First in, first out, and nothing lost: what is queued and what the calls accept is, in this
-- order, what the calls take out and what stays queued.
pub queue-run :
    (q : CommandQueue) (cs : List Call)
    → IsValid q
    → q.queue ++ admitted q cs ≡ removed q cs ++ (run q cs).queue
unfolding admitted removed run step close close_and_discard
queue-run q [] v = append-nil q.queue
queue-run q (submits now c ∷ cs) v = ground (
  arith,
  queue-submit now q c,
  append_assoc q.queue (stamp now c ∷ []) (admitted (submit now q c).1 cs),
  queue-run (submit now q c).1 cs (step-IsValid q (submits now c) v),
)
queue-run q (drains n ∷ cs) v =
    ap (λ xs. xs ++ admitted (drain n q).1 cs) (sym (drain-splits n q v))
    ∙ append_assoc (drain n q).0 (drain n q).1.queue (admitted (drain n q).1 cs)
    ∙ ap (◌++◌ (drain n q).0) (queue-run (drain n q).1 cs (step-IsValid q (drains n) v))
    ∙ sym (append_assoc (drain n q).0 (removed (drain n q).1 cs) (run (drain n q).1 cs).queue)
queue-run q (closes ∷ cs) v = queue-run (close q) cs (step-IsValid q closes v)
queue-run q (discards ∷ cs) v =
    ap (◌++◌ q.queue) (queue-run (close_and_discard q).1 cs (step-IsValid q discards v))
    ∙ sym (
        append_assoc q.queue (removed (close_and_discard q).1 cs)
          (run (close_and_discard q).1 cs).queue)

-- A command is accepted exactly when the queue is open, its payload fits the payload limit, and
-- both the depth and the queued bytes leave room for it.
pub submit-accepted_iff :
    (now : ℕ) (q : CommandQueue) (c : GameCommand)
    → IsValid q
    → ((submit now q c).0 ≡ accepted) ↔ (
        (q.accepting ≡ true)
        × (payload_size c ≤ q.limits.max_payload_bytes)
        × (length q.queue < q.limits.max_commands)
        × (total_bytes q.queue + payload_size c ≤ q.limits.max_queued_bytes))
unfolding submit
submit-accepted_iff now q c v = ground arith

step_closed : (q : CommandQueue) (c : Call) → q.accepting ≡ false → (step q c).accepting ≡ false
unfolding step submit drain close close_and_discard
step_closed q (submits now c) e = ground arith
step_closed q (drains n) e = e
step_closed q closes e = refl
step_closed q discards e = refl

run_closed :
    (q : CommandQueue) (cs : List Call) → q.accepting ≡ false → (run q cs).accepting ≡ false
unfolding run
run_closed q [] e = e
run_closed q (c ∷ cs) e = run_closed (step q c) cs (step_closed q c e)

step_closes :
    (q : CommandQueue) (c : Call) → (c ≡ closes) ⊎ (c ≡ discards) → (step q c).accepting ≡ false
unfolding step close close_and_discard
step_closes q c (inl e) = rw e
step_closes q c (inr e) = rw e

pub submit_stopped :
    (now : ℕ) (q : CommandQueue) (x : GameCommand)
    → q.accepting ≡ false
    → ((submit now q x).0 ≡ stopped) × ((submit now q x).1.queue ≡ q.queue)
unfolding submit
submit_stopped now q x e = ground arith

-- Closing is final: once `close` or `closeAndDiscard` has run, whatever calls follow, every later
-- `submit` answers that the queue is stopped and leaves the queued commands as they are.
pub submit-after_close :
    (q : CommandQueue) (c : Call) (cs : List Call) (now : ℕ) (x : GameCommand)
    → (c ≡ closes) ⊎ (c ≡ discards)
    → ((submit now (run (step q c) cs) x).0 ≡ stopped)
      × ((submit now (run (step q c) cs) x).1.queue ≡ (run (step q c) cs).queue)
submit-after_close q c cs now x h =
    submit_stopped now (run (step q c) cs) x (run_closed (step q c) cs (step_closes q c h))
