-- ===== src/Core/OutputBudget/Tests.antt =====
-- The output budget's theorem at a concrete run of two threads.
use game_net_core.Prelude.{ℕ, ◌≡◌, ◌≤◌, refl, true, false, arith, ◌+◌}
use game_net_core.Core.OutputBudget.{
  OutputBudgetOptions, done, released, reserve_step, admission, enter,
}
use game_net_core.Core.OutputBudget.Concurrent.{
  System, Reach, here, next, enter_reserve, go_reserve, update, gained, IsAccounted,
  Reach-IsAccounted,
}

abbrev options : OutputBudgetOptions
options = record { hard_limit_bytes = 10; recovery_threshold_bytes = 4 }

abbrev idle : System
idle = record {
  budget = record {
    options = options;
    pending_bytes = 0;
    peak_pending_bytes = 0;
    rejected_reservations = 0;
    overloaded = false;
  };
  held = 0;
  reserving = λ i. done true;
  releasing = λ i. released;
}

idle-IsAccounted : IsAccounted options idle
idle-IsAccounted = record {
  fixed = refl;
  exact = refl;
  limited = omega arith;
  fits = λ i. tt;
  sound = λ i. tt;
}

abbrev entered : ℕ → ℕ → System → System
entered i bytes w = record w { reserving = update w.reserving i (enter bytes) }

abbrev went : ℕ → System → System
went i w = record w {
  budget = (reserve_step false w.budget (w.reserving i)).0;
  held = w.held + gained false w.budget (w.reserving i);
  reserving = update w.reserving i (reserve_step false w.budget (w.reserving i)).1;
}

-- Thread 1 gets 6 bytes before thread 2, which asked for 7, has looked at the budget.
abbrev both : System
both = entered 2 7 (entered 1 6 idle)

abbrev busy : System
busy = went 2 (went 1 (went 1 (went 1 both)))

Reach-IsAccounted_example : busy.held ≤ 10
unfolding enter reserve_step admission
Reach-IsAccounted_example =
    let asked : Reach idle both =
      next (next here (enter_reserve idle 1 6 true (omega arith) refl))
        (enter_reserve (entered 1 6 idle) 2 7 true (omega arith) refl) in
    let got : Reach idle (went 1 (went 1 (went 1 both))) =
      next (next (next asked (go_reserve both 1 false)) (go_reserve (went 1 both) 1 false))
        (go_reserve (went 1 (went 1 both)) 1 false) in
    (Reach-IsAccounted options (omega arith) idle-IsAccounted
      (next got (go_reserve (went 1 (went 1 (went 1 both))) 2 false))).limited

-- Thread 1 holds its bytes.
busy_held : busy.held ≡ 6
unfolding enter reserve_step admission
busy_held = refl
