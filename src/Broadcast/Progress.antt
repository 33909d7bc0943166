-- ===== src/Broadcast/Progress.antt =====
-- The progress and the summary of a dispatch, as src/broadcast/BroadcastDispatcher.cc counts them,
-- and the answers of executors and endpoints as reasons. The metric callback only observes and is
-- left out. `none` is the end of the program.
use game_net_core.Prelude.{
  ℕ, ◌+◌, ◌-◌, ◌*◌, ◌/◌, ◌^◌, Bool, true, false, not, ◌&&◌, Option, some, List, [], ◌∷◌, ltb, ◌==◌,
  if◌then◌else◌, ◌>>=◌,
}
use game_net_core.Broadcast.Router.{BroadcastReason, reason_index, RoutedEndpoint}
use game_net_core.Broadcast.Reservations.{DispatcherState, OwnerOutstanding, release}

pub data PostResult : Type 0 where
  accepted queue_full owner_unavailable shutdown : PostResult

pub data EndpointResult : Type 0 where
  accepted closed wrong_thread owner_unavailable overloaded : EndpointResult

unfoldable pub logical_bytes : ℕ → ℕ → ℕ
logical_bytes payload_bytes endpoints =
    if not (payload_bytes == 0) && ltb ((2 ^ 64 - 1) / payload_bytes) endpoints
    then 2 ^ 64 - 1
    else payload_bytes * endpoints

unfoldable pub post_failure_reason : PostResult → BroadcastReason
post_failure_reason PostResult.queue_full = BroadcastReason.dispatch_queue_full
post_failure_reason PostResult.shutdown = BroadcastReason.owner_shutdown
post_failure_reason PostResult.owner_unavailable = BroadcastReason.owner_unavailable
post_failure_reason PostResult.accepted = BroadcastReason.no_reason

unfoldable pub endpoint_failure_reason : EndpointResult → BroadcastReason
endpoint_failure_reason EndpointResult.accepted = BroadcastReason.no_reason
endpoint_failure_reason EndpointResult.closed = BroadcastReason.endpoint_closed
endpoint_failure_reason EndpointResult.owner_unavailable = BroadcastReason.owner_unavailable
endpoint_failure_reason EndpointResult.overloaded = BroadcastReason.endpoint_overloaded
endpoint_failure_reason EndpointResult.wrong_thread = BroadcastReason.send_rejected

-- `DispatchProgressSnapshot` with `sealed`.
pub record DispatchProgress : Type 0 where
  pub scheduled_endpoints : ℕ
  pub accepted_endpoints : ℕ
  pub dropped_endpoints : ℕ
  pub outstanding_tasks : ℕ
  pub outstanding_bytes : ℕ
  pub complete : Bool
  pub reason_counts : ℕ → ℕ
  pub is_sealed : Bool

pub record DispatchSummary : Type 0 where
  pub scheduled_endpoints : ℕ
  pub scheduled_tasks : ℕ
  pub accepted_endpoints : ℕ
  pub dropped_endpoints : ℕ
  pub reason_counts : ℕ → ℕ

-- What a posted task holds on to.
pub record Task : Type 0 where
  pub owner_id : ℕ
  pub bytes : ℕ
  pub endpoints : List RoutedEndpoint

pub record Dispatching : Type 0 where
  pub state : DispatcherState
  pub summary : DispatchSummary
  pub progress : DispatchProgress
  pub tasks : List Task
  pub attempts : ℕ

unfoldable pub counting : BroadcastReason → (ℕ → ℕ) → ℕ → ℕ
unfolding reason_index
counting reason counts i = if reason_index reason == i then counts i + 1 else counts i

-- `recordImmediateDrop`.
unfoldable pub record_drop : BroadcastReason → Dispatching → Dispatching
unfolding counting
record_drop reason d = record d {
  summary = record d.summary {
    dropped_endpoints = d.summary.dropped_endpoints + 1;
    reason_counts = counting reason d.summary.reason_counts;
  };
  progress = record d.progress {
    dropped_endpoints = d.progress.dropped_endpoints + 1;
    reason_counts = counting reason d.progress.reason_counts;
  };
}

unfoldable pub drop_all : BroadcastReason → List RoutedEndpoint → Dispatching → Dispatching
unfolding record_drop
drop_all why [] d = d
drop_all why (e ∷ es) d = drop_all why es (record_drop why d)

-- The end of a dispatch.
unfoldable pub seal : Dispatching → Dispatching
seal d = record d {
  progress = record d.progress { is_sealed = true; complete = d.progress.outstanding_tasks == 0 };
}

-- The end of a dispatch that posts nothing.
unfoldable pub seal_at_once : Dispatching → Dispatching
seal_at_once d = record d { progress = record d.progress { is_sealed = true; complete = true } }

-- The loop that validates a batch's endpoints. An endpoint of a plan is never null.
unfoldable pub valid_endpoints :
    (ℕ → Bool) → ℕ → List RoutedEndpoint → Dispatching → List RoutedEndpoint × Dispatching
unfolding record_drop
valid_endpoints is_open owner [] d = ([], d)
valid_endpoints is_open owner (e ∷ es) d =
    let reason =
      if not (e.owner == owner)
      then BroadcastReason.invalid_plan
      else BroadcastReason.endpoint_closed in
    let fine = e.owner == owner && is_open e.id in
    let (valid, d') = valid_endpoints is_open owner es (if fine then d else record_drop reason d) in
    (if fine then e ∷ valid else valid, d')

-- Subtraction of words.
abbrev pub less : ℕ → ℕ → ℕ
less a b = if ltb a b then a + 2 ^ 64 - b else a - b

-- `releaseReservation`, which runs once for each reservation.
unfoldable pub release_reservation :
    OwnerOutstanding
    → ℕ
    → DispatcherState
    → DispatchProgress
    → Option (OwnerOutstanding × DispatcherState × DispatchProgress)
unfolding release
release_reservation o bytes s p = do
  (o', s') ← release o bytes s
  some (
    o',
    s',
    record p {
      outstanding_tasks = less p.outstanding_tasks 1;
      outstanding_bytes = less p.outstanding_bytes bytes;
      complete = p.is_sealed && less p.outstanding_tasks 1 == 0;
    },
  )

abbrev pub is_none : BroadcastReason → Bool
is_none BroadcastReason.no_reason = true
is_none _ = false
