-- ===== src/Core/TimerQueue/Runs.antt =====
-- What happens to the queue from its loop and from other threads, in sequence.
use game_net_core.Prelude.{
  ℕ, ◌≤◌, ◌<◌, ◌≡◌, refl, ◌∙◌, Bool, true, false, List, [], ◌∷◌, ◌++◌, ◌==◌, arith,
}
use game_net_core.Core.TimerQueue.{
  TimerQueue, Action, try_cancel, cancel_in_loop, reset, perform_all, run_callbacks, handle_expired,
}
use game_net_core.Core.TimerQueue.Indexed.{
  AreIndexed, count, count-append, cancel_in_loop-AreIndexed,
}
use game_net_core.Core.TimerQueue.Expired.{
  perform_all-AreIndexed, reset-AreIndexed, run_callbacks-AreIndexed, handle_expired-AreIndexed,
}
use game_net_core.Core.TimerQueue.Canceled.{
  IsGone, cancel_in_loop-IsGone, cancel_in_loop-unknown, perform_all-IsGone, run_callbacks-IsGone,
  reset-IsGone, handle_expired-IsGone,
}
use game_net_core.Core.TimerQueue.Requests.{
  Request, request, ArePosted, keeps-ArePosted, request-AreIndexed, request-ArePosted,
  request-IsGone,
}

-- Calls on the loop outside of a timer's callback, timers that expire, and other threads' requests.
pub data Step : Type 0 where
  acts : List Action → Step
  expires : ℕ → ℕ → ℕ → ℕ → Step
  asks : Request → Step

module _ {S : Type 0} (callback : S → ℕ → List Action × Bool × S) where
  unfoldable pub step : List ℕ → TimerQueue → S → Step → List ℕ × TimerQueue × S × List ℕ
  unfolding perform_all handle_expired request
  step posted q s (acts actions) = (posted, perform_all q actions, s, [])
  step posted q s (expires now max_count reset_at counted_at) =
      let (q', s', fired, drained, remaining) =
        handle_expired callback now max_count reset_at counted_at q s in
      (posted, q', s', fired)
  step posted q s (asks r) = let (posted', q') = request posted q r in (posted', q', s, [])

  -- The callbacks run, in their order.
  unfoldable pub run : List ℕ → TimerQueue → S → List Step → List ℕ
  unfolding step
  run posted q s [] = []
  run posted q s (x ∷ xs) =
      let (posted', q', s', fired) = step posted q s x in fired ++ run posted' q' s' xs

  pub acts-ArePosted :
      (actions : List Action) (posted : List ℕ) (q : TimerQueue)
      → ArePosted posted q
      → ArePosted posted (perform_all q actions)
  acts-ArePosted actions posted q p =
      keeps-ArePosted posted q (perform_all q actions) (λ e. perform_all-IsGone actions e q) p

  pub expires-ArePosted :
      (now max_count reset_at counted_at : ℕ) (posted : List ℕ) (q : TimerQueue) (s : S)
      → AreIndexed [] q
      → ArePosted posted q
      → ArePosted posted (handle_expired callback now max_count reset_at counted_at q s).0
  expires-ArePosted now max_count reset_at counted_at posted q s v p =
      keeps-ArePosted posted q (handle_expired callback now max_count reset_at counted_at q s).0
        (λ e g. (handle_expired-IsGone callback e now max_count reset_at counted_at q s v g).1) p

  pub run-gone :
      (id : ℕ) (steps : List Step) (posted : List ℕ) (q : TimerQueue) (s : S)
      → AreIndexed [] q
      → ArePosted posted q
      → IsGone id q
      → count id posted ≡ 0
      → count id (run posted q s steps) ≡ 0
  unfolding run step
  run-gone id [] posted q s v p g out = refl
  run-gone id (acts actions ∷ steps) posted q s v p g out =
      run-gone id steps posted (perform_all q actions) s (perform_all-AreIndexed actions [] q v)
        (acts-ArePosted actions posted q p) (perform_all-IsGone actions id q g) out
  run-gone id (expires now max_count reset_at counted_at ∷ steps) posted q s v p g out =
      let (none_now, g') =
        handle_expired-IsGone callback id now max_count reset_at counted_at q s v g in
      let after = handle_expired callback now max_count reset_at counted_at q s in
      let none_later =
        run-gone id steps posted after.0 after.1
          (handle_expired-AreIndexed callback now max_count reset_at counted_at q s v)
          (expires-ArePosted now max_count reset_at counted_at posted q s v p) g' out in
      count-append id after.2 (run posted after.0 after.1 steps)
      ∙ omega (arith, none_now, none_later)
  run-gone id (asks r ∷ steps) posted q s v p g out =
      let (g', out') = request-IsGone posted id q r g out in
      run-gone id steps (request posted q r).0 (request posted q r).1 s
        (request-AreIndexed posted q r v p) (request-ArePosted posted q r v p) g' out'

  -- A timer that is canceled on its loop's thread before admission closes, and whose insert is not
  -- still posted, never runs again: neither later in the batch of expired timers whose callback
  -- cancels it, where it may be among those still to run, nor in anything that happens on the loop
  -- or is posted to it afterwards.
  pub try_cancel-run :
      (id : ℕ) (es left : List ℕ) (reset_at : ℕ) (steps : List Step) (posted : List ℕ)
      (q : TimerQueue) (s : S)
      → AreIndexed es q
      → ArePosted posted q
      → ((e : ℕ) → count e left ≤ count e es)
      → 0 < id
      → id < q.next_sequence
      → count id posted ≡ 0
      → q.admitting ≡ true
      → let (accepted, q₁) = try_cancel id q in
        let (q₂, s', fired) = run_callbacks callback q₁ s left in
        (accepted ≡ true) × (count id (fired ++ run posted (reset reset_at es q₂) s' steps) ≡ 0)
  unfolding try_cancel
  try_cancel-run id es left reset_at steps posted q s v p within valid given out in_time =
      let real : (id == 0) ≡ false = ground (arith, valid) in
      let q₁ : TimerQueue = cancel_in_loop id q in
      let v₁ = cancel_in_loop-AreIndexed id es q v in
      let batch = run_callbacks callback q₁ s left in
      let (none_now, g') =
        run_callbacks-IsGone callback id es q₁ s left within v₁
          (cancel_in_loop-unknown id q given) in
      let p' : ArePosted posted (reset reset_at es batch.0) =
        keeps-ArePosted posted q (reset reset_at es batch.0)
          (λ e g.
            reset-IsGone reset_at es e batch.0
              (run_callbacks-IsGone callback e es q₁ s left within v₁
                (cancel_in_loop-IsGone e id q g)).1)
          p in
      let none_later =
        run-gone id steps posted (reset reset_at es batch.0) batch.1
          (reset-AreIndexed reset_at es batch.0
            (run_callbacks-AreIndexed callback es q₁ s left within v₁))
          p' (reset-IsGone reset_at es id batch.0 g') out in
      simp (try_cancel, real, in_time)
        (
          refl,
          count-append id batch.2 (run posted (reset reset_at es batch.0) batch.1 steps)
              ∙ omega (arith, none_now, none_later),
        )
