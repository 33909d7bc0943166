-- ===== src/GameLogic/CommandQueue/Invariant.antt =====
-- The limits of the command queue, and what becomes of each accepted command.
use game_net_core.Prelude.{
  ℕ, zero, suc, ◌+◌, ◌^◌, ◌≤◌, ◌<◌, ◌≡◌, refl, sym, ◌∙◌, List, [], ◌∷◌, ◌++◌, arith, length,
  length-append, length-drop, take, drop, min, some, sub64, ap,
}
use game_net_core.GameLogic.CommandQueue.{
  GameCommand, CommandQueue, QueueLimits, Call, submits, drains, closes, discards, payload_size,
  stamp, create, admit, submit, drain_loop, drain, close, close_and_discard, step, run,
}

-- The bytes that the queued commands hold.
abbrev pub total_bytes : List GameCommand → ℕ
total_bytes [] = 0
total_bytes (c ∷ cs) = payload_size c + total_bytes cs

total_bytes-append :
    (xs ys : List GameCommand) → total_bytes (xs ++ ys) ≡ total_bytes xs + total_bytes ys
total_bytes-append [] ys = omega arith
total_bytes-append (x ∷ xs) ys = omega (arith, total_bytes-append xs ys)

total_bytes-stamp : (now : ℕ) (c : GameCommand) → payload_size (stamp now c) ≡ payload_size c
total_bytes-stamp now c = ground arith

pub record IsValid (q : CommandQueue) : Type 0 where
  pub counted : q.queued_bytes ≡ total_bytes q.queue
  pub bytes_bounded : q.queued_bytes ≤ q.limits.max_queued_bytes
  pub depth_bounded : length q.queue ≤ q.limits.max_commands
  pub bytes_marked : q.queued_bytes ≤ q.bytes_high_watermark
  pub depth_marked : length q.queue ≤ q.depth_high_watermark
  pub marks_bounded : q.bytes_high_watermark ≤ q.limits.max_queued_bytes
  pub depth_marks_bounded : q.depth_high_watermark ≤ q.limits.max_commands
  pub word_limits : q.limits.max_queued_bytes < 2 ^ 64

pub create-IsValid :
    (l : QueueLimits) {q : CommandQueue}
    → l.max_queued_bytes < 2 ^ 64
    → create l ≡ some q
    → IsValid q
unfolding create
create-IsValid l w e = grind arith

admit-IsValid :
    (now : ℕ) (q : CommandQueue) (c : GameCommand)
    → IsValid q
    → length q.queue < q.limits.max_commands
    → payload_size c ≤ sub64 q.limits.max_queued_bytes q.queued_bytes
    → IsValid (admit now q c)
unfolding admit
admit-IsValid now q c v room fits = omega (
  arith,
  total_bytes-append q.queue (stamp now c ∷ []),
  length-append q.queue (stamp now c ∷ []),
  total_bytes-stamp now c,
)

submit-IsValid :
    (now : ℕ) (q : CommandQueue) (c : GameCommand) → IsValid q → IsValid (submit now q c).1
unfolding submit
submit-IsValid now q c v = ground (arith, admit-IsValid now q c v)

-- What the loop of `drain` moves, and the bytes that it leaves counted.
pub drain_loop-take :
    (n : ℕ) (queue : List GameCommand) (bytes : ℕ)
    → bytes ≡ total_bytes queue
    → bytes < 2 ^ 64
    → ((drain_loop n queue bytes).0 ≡ take n queue)
      × ((drain_loop n queue bytes).1 ≡ drop n queue)
      × (n ≤ length queue → (drain_loop n queue bytes).2 ≡ total_bytes (drop n queue))
unfolding drain_loop
drain_loop-take zero queue bytes e w = (refl, refl, λ h. e)
drain_loop-take (suc n) [] bytes e w = (refl, refl, λ h. omega arith)
drain_loop-take (suc n) (c ∷ queue) bytes e w =
    let ih = drain_loop-take n queue (sub64 bytes (payload_size c)) (omega arith) (omega arith) in
    (ap (◌∷◌ c) ih.0, ih.1, λ h. ih.2 (omega arith))

total_bytes-drop-le : (n : ℕ) (xs : List GameCommand) → total_bytes (drop n xs) ≤ total_bytes xs
total_bytes-drop-le zero xs = omega arith
total_bytes-drop-le (suc n) [] = omega arith
total_bytes-drop-le (suc n) (x ∷ xs) = omega (arith, total_bytes-drop-le n xs)

-- `drain` returns the oldest commands, at most as many as asked, and leaves the rest.
pub drain_lem :
    (n : ℕ) (q : CommandQueue)
    → IsValid q
    → ((drain n q).0 ≡ take (min n (length q.queue)) q.queue)
      × ((drain n q).1.queue ≡ drop (min n (length q.queue)) q.queue)
      × ((drain n q).1.queued_bytes ≡ total_bytes (drain n q).1.queue)
unfolding drain
drain_lem n q v =
    let parts =
      drain_loop-take (min n (length q.queue)) q.queue q.queued_bytes v.counted (omega arith) in
    (parts.0, parts.1, parts.2 (omega arith) ∙ sym (ap total_bytes parts.1))

drain-IsValid : (n : ℕ) (q : CommandQueue) → IsValid q → IsValid (drain n q).1
unfolding drain
drain-IsValid n q v = omega (
  arith,
  (drain_lem n q v).2,
  ap length (drain_lem n q v).1,
  ap total_bytes (drain_lem n q v).1,
  total_bytes-drop-le (min n (length q.queue)) q.queue,
  length-drop (min n (length q.queue)) q.queue,
)

close_and_discard-IsValid : (q : CommandQueue) → IsValid q → IsValid (close_and_discard q).1
unfolding close_and_discard
close_and_discard-IsValid q v = omega arith

close-IsValid : (q : CommandQueue) → IsValid q → IsValid (close q)
unfolding close
close-IsValid q v = omega arith

pub step-IsValid : (q : CommandQueue) (c : Call) → IsValid q → IsValid (step q c)
unfolding step
step-IsValid q (submits now c) v = submit-IsValid now q c v
step-IsValid q (drains n) v = drain-IsValid n q v
step-IsValid q closes v = close-IsValid q v
step-IsValid q discards v = close_and_discard-IsValid q v

pub run-IsValid : (q : CommandQueue) (cs : List Call) → IsValid q → IsValid (run q cs)
unfolding run
run-IsValid q [] v = v
run-IsValid q (c ∷ cs) v = run-IsValid (step q c) cs (step-IsValid q c v)

-- A queue that the constructor accepts keeps, after any calls, its depth and its bytes within the
-- limits, its byte count equal to the payloads that it holds, and its watermarks above both and
-- within the limits, provided that the byte limit is a 64-bit word.
pub run-create-IsValid :
    (l : QueueLimits) (q : CommandQueue) (cs : List Call)
    → l.max_queued_bytes < 2 ^ 64
    → create l ≡ some q
    → IsValid (run q cs)
run-create-IsValid l q cs w e = run-IsValid q cs (create-IsValid l w e)
