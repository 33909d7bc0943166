-- ===== src/Broadcast/Dispatcher/Tests.antt =====
-- Runs of the dispatcher, and its theorems at concrete inputs.
use game_net_core.Prelude.{
  ℕ, ◌≤◌, ◌≡◌, ◌⊎◌, refl, Bool, true, false, Option, none, some, List, [], ◌∷◌, ◌==◌, if◌then◌else◌,
  arith, length,
}
use game_net_core.Session.Binding.{untracked}
use game_net_core.Broadcast.Router.{
  low, normal, BroadcastReason, RoutedEndpoint, BroadcastPlan, BroadcastLimits, BroadcastTarget,
  route,
}
use game_net_core.Broadcast.Reservations.{
  DispatchLimits, DispatcherState, OwnerOutstanding, new_dispatcher, try_reserve, coherent_limits,
  no_reservations,
}
use game_net_core.Broadcast.Reservations.Rollback.{IsTaken, IsRolledBack, try_reserve_lem}
use game_net_core.Broadcast.Progress.{PostResult, EndpointResult, Dispatching, DispatchProgress}
use game_net_core.Broadcast.Dispatcher.{Outside, dispatch}
use game_net_core.Broadcast.Delivery.{run_tasks}
use game_net_core.Broadcast.Dispatcher.Accounted.{IsAccounted}
use game_net_core.Broadcast.Dispatcher.Covered.{IsCovered, tasks_at, bytes_at}
use game_net_core.Broadcast.Dispatcher.Plans.{dispatch_lem, marked_routed}
use game_net_core.Broadcast.Dispatcher.Owned.{marked_in}
use game_net_core.Broadcast.Dispatcher.Once.{has_id}
use game_net_core.Broadcast.Dispatcher.Finished.{IsFinishing, willing_in, dispatch-run_tasks}
use game_net_core.Broadcast.Dispatcher.Broadcasts.{route-dispatch}

abbrev limits : DispatchLimits
limits = record {
  max_endpoints_per_task = 2;
  max_bytes_per_task = 100;
  max_outstanding_tasks_per_owner = 2;
  max_outstanding_bytes_per_owner = 90;
  max_global_outstanding_bytes = 80;
  low_priority_outstanding_bytes = 30;
}

abbrev start : DispatcherState
unfolding new_dispatcher
start = new_dispatcher limits

abbrev owner : OwnerOutstanding
owner = record {
  owner_id = 7;
  task_limit = 2;
  byte_limit = 90;
  tasks = no_reservations;
  bytes = no_reservations;
}

abbrev reason_of : Option (BroadcastReason × OwnerOutstanding × DispatcherState) → BroadcastReason
reason_of none = BroadcastReason.no_reason
reason_of (some (reason, o, s)) = reason

-- Beyond the soft limit of low priority, but not beyond the global limit.
soft_limit :
    reason_of (try_reserve owner 40 low false start) ≡ BroadcastReason.low_priority_soft_limit
unfolding try_reserve start
soft_limit = refl

try_reserve_lem_example :
    (reason : BroadcastReason) × (o' : OwnerOutstanding) × (s' : DispatcherState) × (try_reserve
        owner 40 low false start
      ≡ some (reason, o', s'))
    × (IsTaken 40 low false owner start reason o' s' ⊎ IsRolledBack owner start reason o' s')
unfolding start
try_reserve_lem_example = try_reserve_lem owner 40 low false start (omega arith)

abbrev endpoint : ℕ → RoutedEndpoint
endpoint n = record { id = n; owner = 7; owner_available = true; is_open = true }

abbrev plan : BroadcastPlan
plan = record {
  payload_bytes = 20;
  batches =
      record {
        owner_executor = 7;
        endpoints = endpoint 1 ∷ endpoint 2 ∷ endpoint 3 ∷ endpoint 4 ∷ [];
      }
      ∷ [];
  accepted = 4;
  dropped = 1;
  priority = normal;
  reason_counts = λ i. if i == 1 then 1 else 0;
}

-- The second endpoint is closed; the second post is refused.
abbrev outside : Outside
outside = record {
  is_open = λ id. if id == 2 then false else true;
  post = λ n. if n == 0 then PostResult.accepted else PostResult.queue_full;
  closes = λ n. false;
}

abbrev counts : Option Dispatching → ℕ × ℕ × ℕ
counts none = (0, 0, 0)
counts (some d) =
    (d.summary.scheduled_endpoints, d.summary.dropped_endpoints, d.state.global_bytes.current)

dispatched : counts (dispatch limits outside (some plan) start) ≡ (2, 3, 40)
unfolding dispatch start
dispatched = refl

dispatch_lem_example :
    (d : Dispatching) × (dispatch limits outside (some plan) start ≡ some d)
    × IsAccounted start.global_tasks.current start.global_bytes.current 5 d
    × (d.progress.is_sealed ≡ true)
    × (d.progress.complete ≡ (length d.tasks == 0))
    × IsCovered (tasks_at start.owners) (bytes_at start.owners) d.state.owners d.tasks
    × ((f : RoutedEndpoint → Bool) → marked_in f d.tasks ≤ marked_routed f plan.batches)
unfolding start coherent_limits
dispatch_lem_example = dispatch_lem limits outside plan start refl refl (omega arith)

-- The last task left runs first; the first endpoint takes the payload, the others throw.
abbrev send : ℕ → Option EndpointResult
send id = if id == 1 then some EndpointResult.accepted else none

dispatch-run_tasks_example :
    (d : Dispatching) × (s' : DispatcherState) × (p' : DispatchProgress) × (dispatch limits outside
        (some plan)
        start
      ≡ some d)
    × (run_tasks (λ n. n) (λ id. true) send (length d.tasks) d.tasks d.state d.progress
        ≡ some ([], s', p'))
    × IsFinishing (λ id. true) send start 5 (willing_in (λ id. true) send d.tasks) [] s' p'
    × ((f : RoutedEndpoint → Bool) → marked_in f d.tasks ≤ marked_routed f plan.batches)
unfolding start coherent_limits
dispatch-run_tasks_example =
    dispatch-run_tasks limits outside plan start (λ n. n) (λ id. true) send refl refl (omega arith)

-- Two targets of one loop, and one whose session is not eligible.
abbrev target : ℕ → Bool → BroadcastTarget
target n marked = record {
  endpoint = some (endpoint n);
  binding = untracked;
  marked_eligible = marked;
}

abbrev route_limits : BroadcastLimits
route_limits = record { soft_fanout = 4; hard_fanout = 4; soft_bytes = 100; hard_bytes = 100 }

abbrev targets : List BroadcastTarget
targets = target 1 true ∷ target 2 false ∷ target 3 true ∷ []

route-dispatch_example :
    (plan : BroadcastPlan) × (d : Dispatching) × (s' : DispatcherState) × (p' : DispatchProgress)
    × (route (λ cell. 0) route_limits (some 20) targets normal ≡ some plan)
    × (dispatch limits outside (some plan) start ≡ some d)
    × (run_tasks (λ n. n) (λ id. true) send (length d.tasks) d.tasks d.state d.progress
        ≡ some ([], s', p'))
    × IsFinishing (λ id. true) send start 3 (willing_in (λ id. true) send d.tasks) [] s' p'
    × ((id : ℕ) → marked_in (has_id id) d.tasks ≤ 1)
unfolding start coherent_limits
route-dispatch_example =
    route-dispatch (λ cell. 0) route_limits 20 targets normal limits outside start (λ n. n)
      (λ id. true) send refl refl (omega arith)
