-- ===== src/Broadcast/Dispatcher/Broadcasts.antt =====
-- A broadcast from its targets to its last delivery: the router and the dispatcher together.
use game_net_core.Prelude.{
  ℕ, ◌+◌, ◌^◌, ◌<◌, ◌≤◌, ◌≡◌, ap, subst, Bool, true, Option, some, List, [], arith, length,
}
use game_net_core.Session.Binding.{Cells}
use game_net_core.Broadcast.Router.{
  BroadcastLimits, BroadcastTarget, BroadcastPriority, BroadcastPlan, route, route_targets,
  empty_routing,
}
use game_net_core.Broadcast.Router.Limits.{routed, route-IsWithin}
use game_net_core.Broadcast.Reservations.{DispatchLimits, DispatcherState, coherent_limits}
use game_net_core.Broadcast.Reservations.Registry.{ascends}
use game_net_core.Broadcast.Progress.{EndpointResult, Dispatching, DispatchProgress}
use game_net_core.Broadcast.Dispatcher.{Outside, dispatch}
use game_net_core.Broadcast.Delivery.{run_tasks}
use game_net_core.Broadcast.Dispatcher.Owned.{marked_in}
use game_net_core.Broadcast.Dispatcher.Plans.{marked_routed}
use game_net_core.Broadcast.Dispatcher.Once.{has_id, route-once}
use game_net_core.Broadcast.Dispatcher.Finished.{IsFinishing, willing_in, dispatch-run_tasks}

-- A payload that is routed to targets, dispatched, and delivered by the posted tasks in any order:
-- with coherent limits of the dispatcher, its registry in order and fewer tasks than a counter
-- holds, each step succeeds. No endpoint's id stands twice in the tasks. In the end the endpoints
-- accepted and dropped are as many as the targets; those accepted are as many as the tasks held that
-- are open and whose own `send` accepts; the progress is complete; and the dispatcher, and each
-- owner in its registry, has as much reserved as before.
pub route-dispatch :
    (cells : Cells) (l : BroadcastLimits) (payload_bytes : ℕ) (targets : List BroadcastTarget)
    (priority : BroadcastPriority) (limits : DispatchLimits) (outside : Outside)
    (s : DispatcherState) (picks : ℕ → ℕ) (is_open : ℕ → Bool) (send : ℕ → Option EndpointResult)
    → coherent_limits limits ≡ true
    → ascends 0 s.owners ≡ true
    → s.global_tasks.current + length targets < 2 ^ 64
    → (plan : BroadcastPlan) × (d : Dispatching) × (s' : DispatcherState) × (p' : DispatchProgress)
      × (route cells l (some payload_bytes) targets priority ≡ some plan)
      × (dispatch limits outside (some plan) s ≡ some d)
      × (run_tasks picks is_open send (length d.tasks) d.tasks d.state d.progress
          ≡ some ([], s', p'))
      × IsFinishing is_open send s (length targets) (willing_in is_open send d.tasks) [] s' p'
      × ((id : ℕ) → marked_in (has_id id) d.tasks ≤ 1)
unfolding route
route-dispatch cells l payload_bytes targets priority limits outside s picks is_open send fine
      ordered room =
    let (plan, planned, carried, within) = route-IsWithin cells l payload_bytes targets priority in
    let total : plan.dropped + routed plan.batches ≡ length targets =
      omega (arith, within.all, within.counted) in
    let (d, s', p', dispatched, ran, f, from) =
      dispatch-run_tasks limits outside plan s picks is_open send fine ordered
        (omega (arith, total, room)) in
    let routing = route_targets cells l (empty_routing payload_bytes priority) targets in
    let same : routing.plan ≡ plan = cc in
    let once : (id : ℕ) → marked_in (has_id id) d.tasks ≤ 1 = λ id. omega (
      arith,
      from (has_id id),
      route-once cells l payload_bytes priority targets id,
      ap (λ p. marked_routed (has_id id) p.batches) same,
    ) in
    (
      plan,
      d,
      s',
      p',
      planned,
      dispatched,
      ran,
      subst (λ n. IsFinishing is_open send s n (willing_in is_open send d.tasks) [] s' p') total f,
      once,
    )
