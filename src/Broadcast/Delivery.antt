-- ===== src/Broadcast/Delivery.antt =====
-- The tasks that `BroadcastDispatcher::dispatch` of src/broadcast/BroadcastDispatcher.cc posts.
-- Whether an endpoint is open and what its `send` answers, none if it throws, are arguments. A task
-- runs after the dispatch that posted it.
use game_net_core.Prelude.{
  ℕ, zero, suc, ◌+◌, Bool, not, Option, none, some, List, [], ◌∷◌, if◌then◌else◌, ◌>>=◌,
}
use game_net_core.Broadcast.Router.{BroadcastReason, RoutedEndpoint}
use game_net_core.Broadcast.Reservations.{DispatcherState, find_owner, store_owner}
use game_net_core.Broadcast.Progress.{
  DispatchProgress, EndpointResult, Task, counting, endpoint_failure_reason, is_none,
  release_reservation,
}

-- One endpoint of a running task.
unfoldable pub deliver :
    (ℕ → Bool) → (ℕ → Option EndpointResult) → RoutedEndpoint → DispatchProgress → DispatchProgress
unfolding endpoint_failure_reason counting
deliver is_open send e p =
    let sent : BroadcastReason = elim (send e.id) [
      | none ↦ BroadcastReason.send_rejected
      | some result ↦ endpoint_failure_reason result
    ] in
    let reason = if not (is_open e.id) then BroadcastReason.endpoint_closed else sent in
    if is_none reason
    then record p { accepted_endpoints = p.accepted_endpoints + 1 }
    else record p {
      dropped_endpoints = p.dropped_endpoints + 1;
      reason_counts = counting reason p.reason_counts;
    }

unfoldable pub deliver_all :
    (ℕ → Bool)
    → (ℕ → Option EndpointResult)
    → List RoutedEndpoint
    → DispatchProgress
    → DispatchProgress
unfolding deliver
deliver_all is_open send [] p = p
deliver_all is_open send (e ∷ es) p = deliver_all is_open send es (deliver is_open send e p)

-- The posted function; its guard releases the reservation at the end. The owner is one of the
-- registry's.
unfoldable pub run_task :
    (ℕ → Bool)
    → (ℕ → Option EndpointResult)
    → Task
    → DispatcherState
    → DispatchProgress
    → Option (DispatcherState × DispatchProgress)
unfolding find_owner deliver_all release_reservation store_owner
run_task is_open send t s p = do
  o ← find_owner t.owner_id s.owners
  (o', s', p') ← release_reservation o t.bytes s (deliver_all is_open send t.endpoints p)
  some (record s' { owners = store_owner o' s'.owners }, p')

-- The tasks run in any order: of those left, the one with the given number, or else the last.
abbrev pub pick_task : ℕ → Task → List Task → Task × List Task
pick_task k t [] = (t, [])
pick_task zero t (u ∷ us) = (t, u ∷ us)
pick_task (suc k) t (u ∷ us) = let (v, rest) = pick_task k u us in (v, t ∷ rest)

-- So many tasks run, with a choice for each round. An endpoint answers the same in every round; in a
-- routed plan each stands once, and is asked once.
unfoldable pub run_tasks :
    (ℕ → ℕ)
    → (ℕ → Bool)
    → (ℕ → Option EndpointResult)
    → ℕ
    → List Task
    → DispatcherState
    → DispatchProgress
    → Option (List Task × DispatcherState × DispatchProgress)
unfolding run_task
run_tasks picks is_open send zero ts s p = some (ts, s, p)
run_tasks picks is_open send (suc n) [] s p = some ([], s, p)
run_tasks picks is_open send (suc n) (t ∷ ts) s p = do
  let (next, rest) = pick_task (picks n) t ts
  (s', p') ← run_task is_open send next s p
  run_tasks picks is_open send n rest s' p'
