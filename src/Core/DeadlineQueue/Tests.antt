-- ===== src/Core/DeadlineQueue/Tests.antt =====
-- The deadline queue's theorems at concrete inputs.
use game_net_core.Prelude.{
  ℕ, ◌≤◌, ◌<◌, ◌≡◌, refl, Bool, false, some, [], ◌∷◌, arith, find, ◌==◌, Bool-cases, inl, inr,
}
use game_net_core.Core.DeadlineQueue.{
  DeadlineQueue, DeadlineAdvanceResult, Entry, schedule, cancel, advance, quantize, max_time,
  is_ready,
}
use game_net_core.Core.DeadlineQueue.Advance.{quantize_bounds, Takes}
use game_net_core.Core.DeadlineQueue.Agree.{IsConsistent}
use game_net_core.Core.DeadlineQueue.Schedule.{schedule_lem}
use game_net_core.Core.DeadlineQueue.Cancel.{cancel_lem, Canceled}
use game_net_core.Core.DeadlineQueue.Progress.{advance_lem}
use game_net_core.Core.DeadlineQueue.Consistent.{with_key}

abbrev entry : Entry
entry = record { token = record { key = 3; generation = 1 }; deadline = 7 }

-- One entry, of key 3, due at 10.
abbrev queue : DeadlineQueue
queue = record {
  options = record { resolution = 10; max_expired_per_advance = 2 };
  next_generation = 2;
  buckets = (10, entry ∷ []) ∷ [];
  entries = (3, record { bucket_deadline = 10; entry = entry }) ∷ [];
}

queue-IsConsistent : IsConsistent queue
unfolding find
queue-IsConsistent = record {
  agree = record {
    matched = λ k. elim (Bool-cases (3 == k)) [ inl e ↦ rw e refl | inr e ↦ rw e refl ];
    ordered = (omega arith, (λ eq. absurd (cc)), tt);
    keyed = λ k l there. ground arith;
  };
  resolved = omega arith;
  budgeted = omega arith;
  first = omega arith;
}

quantize_bounds_example :
    (7 ≤ quantize queue.options 7)
    × (quantize queue.options 7 < 17)
    × (quantize queue.options 7 ≤ max_time)
quantize_bounds_example = quantize_bounds queue.options 7 (omega arith) (omega arith)

schedule_lem_example :
    (q' : DeadlineQueue) × (schedule queue 3 25 ≡ some (record { key = 3; generation = 2 }, q'))
    × IsConsistent q'
    × (with_key 3 q'.buckets
        ≡ record {
          bucket_deadline = quantize queue.options 25;
          entry = record { token = record { key = 3; generation = 2 }; deadline = 25 };
        }
          ∷ [])
    × ((k : ℕ) → (3 == k) ≡ false → with_key k q'.buckets ≡ with_key k queue.buckets)
schedule_lem_example = schedule_lem queue 3 25 queue-IsConsistent (omega arith)

cancel_lem_example :
    (found : Bool) × (q' : DeadlineQueue) × (cancel queue entry.token ≡ some (found, q'))
    × Canceled queue q' entry.token found
cancel_lem_example = cancel_lem queue entry.token queue-IsConsistent

advance_lem_example :
    (r : DeadlineAdvanceResult) × (q' : DeadlineQueue) × (advance queue 12 ≡ some (r, q'))
    × IsConsistent q'
    × Takes 12 2 queue.buckets q'.buckets r.expired
    × (r.ready_remaining ≡ is_ready 12 q'.buckets)
advance_lem_example = advance_lem queue 12 queue-IsConsistent
