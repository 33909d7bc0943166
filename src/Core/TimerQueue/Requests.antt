-- ===== src/Core/TimerQueue/Requests.antt =====
-- What other threads ask of the queue. `posted` are the timers whose insert they have posted to the
-- loop's executor, which is yet to run.
use game_net_core.Prelude.{
  ℕ, ◌≤◌, ◌<◌, ◌≡◌, inl, inr, refl, sym, ap, ◌∙◌, Bool, false, Option, none, some, List, [], ◌∷◌,
  ◌++◌, ◌==◌, if◌then◌else◌, arith, Bool-cases, find,
}
use game_net_core.Core.TimerQueue.{
  TimerQueue, Timer, RepeatingTimerOptions, with_timer, valid_options, try_add_timer, post_timer,
  add_timer_in_loop, cancel_in_loop, insert,
}
use game_net_core.Core.TimerQueue.Indexed.{
  Status, unknown, waiting, running, stopped, AreIndexed, count, count-append, insert-AreIndexed,
  fresh-unknown, try_add_timer-AreIndexed, cancel_in_loop-AreIndexed,
}
use game_net_core.Core.TimerQueue.Canceled.{IsGone, insert-IsGone, cancel_in_loop-IsGone}

-- Another thread adds a timer or cancels one, or the next posted insert runs. A post of a
-- cancellation counts when it runs; during a callback, another thread's call counts as before or
-- after it.
pub data Request : Type 0 where
  posts : Bool → ℕ → ℕ → RepeatingTimerOptions → Request
  inserts : Request
  withdraws : ℕ → Request

abbrev with_posted : Option ℕ → List ℕ → List ℕ
with_posted none posted = posted
with_posted (some id) posted = posted ++ (id ∷ [])

unfoldable pub request : List ℕ → TimerQueue → Request → List ℕ × TimerQueue
unfolding valid_options post_timer add_timer_in_loop cancel_in_loop
request posted q (posts accepted when interval o) =
    if valid_options interval o
    then (let (answer, q') = post_timer accepted when interval o q in
        (with_posted answer posted, q'))
    else (posted, q)
request [] q inserts = ([], q)
request (id ∷ posted) q inserts = (posted, add_timer_in_loop id q)
request posted q (withdraws id) = (posted, if id == 0 then q else cancel_in_loop id q)

-- The posted timers were given their numbers, are each posted once, and not known yet.
unfoldable pub ArePosted : List ℕ → TimerQueue → Type 0
ArePosted [] q = Unit {0}
ArePosted (e ∷ posted) q = IsGone e q × (count e posted ≡ 0) × ArePosted posted q

pub keeps-ArePosted :
    (posted : List ℕ) (q q' : TimerQueue)
    → ((e : ℕ) → IsGone e q → IsGone e q')
    → ArePosted posted q
    → ArePosted posted q'
unfolding ArePosted
keeps-ArePosted [] q q' keep p = tt
keeps-ArePosted (e ∷ posted) q q' keep (g, once, p) =
    (keep e g, once, keeps-ArePosted posted q q' keep p)

pub posted-IsGone :
    (posted : List ℕ) (id : ℕ) (q : TimerQueue)
    → ArePosted posted q
    → 0 < count id posted
    → IsGone id q
unfolding ArePosted IsGone
posted-IsGone [] id q p some_there = absurd (omega (arith, some_there))
posted-IsGone (e ∷ posted) id q (g, once, p) some_there = elim (Bool-cases (e == id)) [
  | inl y ↦
      let same : e ≡ id = ground (arith, y) in
      (ap (λ k. find k q.by_id) (sym same) ∙ g.0, ground (arith, y, g.1))
  | inr n ↦ posted-IsGone posted id q p (ground (arith, n, some_there))
]

fresh-posted :
    (posted : List ℕ) (id : ℕ) (q : TimerQueue)
    → ArePosted posted q
    → q.next_sequence ≤ id
    → count id posted ≡ 0
unfolding ArePosted IsGone
fresh-posted [] id q p beyond = refl
fresh-posted (e ∷ posted) id q (g, once, p) beyond =
    ground (arith, g.1, beyond, fresh-posted posted id q p beyond)

append-ArePosted :
    (posted : List ℕ) (id : ℕ) (q : TimerQueue)
    → ArePosted posted q
    → IsGone id q
    → count id posted ≡ 0
    → ArePosted (posted ++ (id ∷ [])) q
unfolding ArePosted
append-ArePosted [] id q p g fresh = (g, refl, tt)
append-ArePosted (e ∷ posted) id q (h, once, p) g fresh = (
  h,
  ground (arith, count-append e posted (id ∷ []), once, fresh),
  append-ArePosted posted id q p g (ground (arith, fresh)),
)

insert-ArePosted :
    (posted : List ℕ) (id : ℕ) (q : TimerQueue)
    → ArePosted posted q
    → count id posted ≡ 0
    → ArePosted posted (insert id q)
unfolding ArePosted
insert-ArePosted [] id q p other = tt
insert-ArePosted (e ∷ posted) id q (g, once, p) other = (
  insert-IsGone e id q (ground (arith, other)) g,
  once,
  insert-ArePosted posted id q p (ground (arith, other)),
)

with_timer-IsGone :
    (when interval : ℕ) (o : RepeatingTimerOptions) (id : ℕ) (q : TimerQueue)
    → IsGone id q
    → IsGone id (with_timer when interval o q)
unfolding IsGone
with_timer-IsGone when interval o id q (k, b) = (k, omega (arith, b))

with_timer-AreIndexed :
    (when interval : ℕ) (o : RepeatingTimerOptions) (q : TimerQueue)
    → AreIndexed [] q
    → AreIndexed [] (with_timer when interval o q)
unfolding try_add_timer
with_timer-AreIndexed when interval o q v =
    try_add_timer-AreIndexed when interval o [] (record q { admitting = false }) v

gone-held :
    {next s n : ℕ} {f : Option ℕ} {ts : List ℕ} {t : Timer}
    → Status next s n f ts t
    → f ≡ none
    → ts ≡ []
gone-held (unknown k h z) e = h
gone-held (waiting k h z i c b) e = absurd (cc)
gone-held (running k h z i b) e = h
gone-held (stopped k h z c b) e = h

insert_posted-AreIndexed :
    (id : ℕ) (q : TimerQueue) → AreIndexed [] q → IsGone id q → AreIndexed [] (insert id q)
unfolding IsGone
insert_posted-AreIndexed id q v (k, b) =
    insert-AreIndexed id [] q (λ s n. v s) (gone-held (v id) k) refl b

pub request-AreIndexed :
    (posted : List ℕ) (q : TimerQueue) (r : Request)
    → AreIndexed [] q
    → ArePosted posted q
    → AreIndexed [] (request posted q r).1
unfolding request post_timer add_timer_in_loop ArePosted
request-AreIndexed posted q (posts accepted when interval o) v p =
    elim (Bool-cases (valid_options interval o)) [
      | inl fine ↦ simp (request, fine) (with_timer-AreIndexed when interval o q v)
      | inr bad ↦ simp (request, bad) v
    ]
request-AreIndexed [] q inserts v p = v
request-AreIndexed (e ∷ posted) q inserts v p = insert_posted-AreIndexed e q v p.0
request-AreIndexed posted q (withdraws id) v p = elim (Bool-cases (id == 0)) [
  | inl invalid ↦ simp (request, invalid) v
  | inr valid ↦ simp (request, valid) (cancel_in_loop-AreIndexed id [] q v)
]

fresh-IsGone :
    (when interval : ℕ) (o : RepeatingTimerOptions) (q : TimerQueue)
    → find q.next_sequence q.by_id ≡ none
    → IsGone q.next_sequence (with_timer when interval o q)
unfolding IsGone
fresh-IsGone when interval o q k = (k, omega arith)

inserted-ArePosted :
    (posted : List ℕ) (e : ℕ) (q : TimerQueue)
    → ArePosted (e ∷ posted) q
    → ArePosted posted (insert e q)
unfolding ArePosted
inserted-ArePosted posted e q (g, once, rest) = insert-ArePosted posted e q rest once

pub request-ArePosted :
    (posted : List ℕ) (q : TimerQueue) (r : Request)
    → AreIndexed [] q
    → ArePosted posted q
    → ArePosted (request posted q r).0 (request posted q r).1
unfolding request post_timer add_timer_in_loop
request-ArePosted posted q (posts accepted when interval o) v p =
    let q' = with_timer when interval o q in
    let (k, h, z) = fresh-unknown (omega arith) (v q.next_sequence) in
    let p' = keeps-ArePosted posted q q' (λ e. with_timer-IsGone when interval o e q) p in
    elim (Bool-cases (valid_options interval o)) [
      | inr bad ↦ simp (request, bad) p
      | inl fine ↦ elim (Bool-cases accepted) [
        | inr refused ↦ simp (request, fine, refused) p'
        | inl taken ↦
            simp (request, fine, taken)
              (append-ArePosted posted q.next_sequence q' p' (fresh-IsGone when interval o q k)
                (fresh-posted posted q.next_sequence q p (omega arith)))
      ]
    ]
request-ArePosted [] q inserts v p = p
request-ArePosted (e ∷ posted) q inserts v p = inserted-ArePosted posted e q p
request-ArePosted posted q (withdraws id) v p = elim (Bool-cases (id == 0)) [
  | inl invalid ↦ simp (request, invalid) p
  | inr valid ↦
      simp (request, valid)
        (keeps-ArePosted posted q (cancel_in_loop id q) (λ e. cancel_in_loop-IsGone e id q) p)
]

-- A timer that is gone, and is not posted, stays so.
pub request-IsGone :
    (posted : List ℕ) (id : ℕ) (q : TimerQueue) (r : Request)
    → IsGone id q
    → count id posted ≡ 0
    → IsGone id (request posted q r).1 × (count id (request posted q r).0 ≡ 0)
unfolding request post_timer add_timer_in_loop IsGone
request-IsGone posted id q (posts accepted when interval o) g out =
    elim (Bool-cases (valid_options interval o)) [
      | inr bad ↦ simp (request, bad) (g, out)
      | inl fine ↦ elim (Bool-cases accepted) [
        | inr refused ↦ simp (request, fine, refused) ((g.0, omega (arith, g.1)), out)
        | inl taken ↦
            simp (request, fine, taken)
              (
                (g.0, omega (arith, g.1)),
                ground (arith, count-append id posted (q.next_sequence ∷ []), out, g.1),
              )
      ]
    ]
request-IsGone [] id q inserts g out = (g, out)
request-IsGone (e ∷ posted) id q inserts g out =
    (insert-IsGone id e q (ground (arith, out)) g, ground (arith, out))
request-IsGone posted id q (withdraws e) g out = elim (Bool-cases (e == 0)) [
  | inl invalid ↦ simp (request, invalid) (g, out)
  | inr valid ↦ simp (request, valid) (cancel_in_loop-IsGone id e q g, out)
]
