-- ===== src/Broadcast/Dispatcher.antt =====
-- `BroadcastDispatcher::dispatch` of src/broadcast/BroadcastDispatcher.cc. What comes from outside
-- are arguments: whether an endpoint is open when it is looked at, how the owner's executor answers
-- a post, and whether another thread shuts the dispatcher down during a reservation. `none` is the
-- end of the program.
pub mod Accounted
pub mod Owned
pub mod Chunks
pub mod Covered
pub mod Plans
pub mod Tasks
pub mod Finished
pub mod Once
pub mod Broadcasts
mod Tests
use game_net_core.Prelude.{
  ℕ, zero, suc, ◌+◌, ◌-◌, ◌*◌, ◌/◌, ◌^◌, Bool, true, false, not, ◌&&◌, Option, none, some, List, [],
  ◌∷◌, ◌++◌, ltb, leb, ◌==◌, if◌then◌else◌, min, max, take, drop, length, ◌>>=◌,
}
use game_net_core.Broadcast.Router.{
  BroadcastPriority, BroadcastReason, reason_index, RoutedEndpoint, LoopBatch, BroadcastPlan,
}
use game_net_core.Broadcast.Reservations.{
  DispatchLimits, DispatcherState, OwnerOutstanding, owner_for, find_owner, store_owner,
  try_reserve, release,
}
use game_net_core.Broadcast.Progress.{
  DispatchProgress, DispatchSummary, Dispatching, EndpointResult, PostResult, Task, counting,
  drop_all, endpoint_failure_reason, is_none, less, logical_bytes, post_failure_reason, record_drop,
  release_reservation, seal, seal_at_once, valid_endpoints,
}

-- How the posts and the reservations of a dispatch go, by their number.
pub record Outside : Type 0 where
  pub is_open : ℕ → Bool
  pub post : ℕ → PostResult
  pub closes : ℕ → Bool

-- A reservation that is made: the progress counts it.
abbrev pub with_reservation : ℕ → DispatchProgress → DispatchProgress
with_reservation bytes p = record p {
  outstanding_tasks = p.outstanding_tasks + 1;
  outstanding_bytes = p.outstanding_bytes + bytes;
}

abbrev pub with_task : Task → Dispatching → Dispatching
with_task t d =
    let admitted = length t.endpoints in
    record d {
      summary = record d.summary {
        scheduled_endpoints = d.summary.scheduled_endpoints + admitted;
        accepted_endpoints = d.summary.accepted_endpoints + admitted;
        scheduled_tasks = d.summary.scheduled_tasks + 1;
      };
      progress = record d.progress {
        scheduled_endpoints = d.progress.scheduled_endpoints + admitted;
      };
      tasks = d.tasks ++ (t ∷ []);
    }

-- A post that is refused: the reservation is released and the endpoints are dropped.
unfoldable pub take_back :
    PostResult → Task → OwnerOutstanding → Dispatching → Option (OwnerOutstanding × Dispatching)
unfolding release_reservation drop_all post_failure_reason
take_back result t o d = do
  (o', s, p) ← release_reservation o t.bytes d.state d.progress
  some
      (o', drop_all (post_failure_reason result) t.endpoints (record d { state = s; progress = p }))

-- What follows a reservation that is made, by the answer to the post.
unfoldable pub post_task :
    PostResult → Task → OwnerOutstanding → Dispatching → Option (OwnerOutstanding × Dispatching)
unfolding take_back
post_task PostResult.accepted t o d = some (o, with_task t d)
post_task PostResult.queue_full t o d = take_back PostResult.queue_full t o d
post_task PostResult.owner_unavailable t o d = take_back PostResult.owner_unavailable t o d
post_task PostResult.shutdown t o d = take_back PostResult.shutdown t o d

-- One chunk: the reservation and the post.
unfoldable pub dispatch_chunk :
    Outside
    → BroadcastPriority
    → ℕ
    → OwnerOutstanding
    → List RoutedEndpoint
    → Dispatching
    → Option (OwnerOutstanding × Dispatching)
unfolding try_reserve logical_bytes drop_all post_task
dispatch_chunk outside priority payload_bytes o chunk d =
    let bytes = logical_bytes payload_bytes (length chunk) in
    (do
      (reason, o', s) ← try_reserve o bytes priority (outside.closes d.attempts) d.state
      (if is_none reason
          then post_task (outside.post d.attempts)
              (record { owner_id = o.owner_id; bytes = bytes; endpoints = chunk }) o'
              (record d {
                state = s;
                progress = with_reservation bytes d.progress;
                attempts = d.attempts + 1;
              })
          else some
              (o', drop_all reason chunk (record d { state = s; attempts = d.attempts + 1 }))))

-- The loop over the chunks; the fuel is the number of the endpoints, of which each round takes at
-- least one.
unfoldable pub dispatch_chunks :
    Outside
    → BroadcastPriority
    → ℕ
    → ℕ
    → ℕ
    → OwnerOutstanding
    → List RoutedEndpoint
    → Dispatching
    → Option (OwnerOutstanding × Dispatching)
unfolding dispatch_chunk
dispatch_chunks outside priority payload_bytes size fuel o [] d = some (o, d)
dispatch_chunks outside priority payload_bytes size zero o (e ∷ es) d = none
dispatch_chunks outside priority payload_bytes size (suc fuel) o (e ∷ es) d = do
  (o', d') ← dispatch_chunk outside priority payload_bytes o (take size (e ∷ es)) d
  dispatch_chunks outside priority payload_bytes size fuel o' (drop size (e ∷ es)) d'

-- One batch.
unfoldable pub dispatch_batch :
    DispatchLimits
    → Outside
    → BroadcastPriority
    → ℕ
    → ℕ
    → LoopBatch
    → Dispatching
    → Option Dispatching
unfolding valid_endpoints owner_for store_owner dispatch_chunks
dispatch_batch limits outside priority payload_bytes size b d =
    let (valid, d₁) = valid_endpoints outside.is_open b.owner_executor b.endpoints d in
    let (o, s) = owner_for b.owner_executor limits d₁.state in
    if length valid == 0 then some d₁ else (do
      (o', d₂) ←
          dispatch_chunks outside priority payload_bytes size (length valid) o valid
            (record d₁ { state = s })
      some (record d₂ { state = record d₂.state { owners = store_owner o' d₂.state.owners } }))

unfoldable pub dispatch_batches :
    DispatchLimits
    → Outside
    → BroadcastPriority
    → ℕ
    → ℕ
    → List LoopBatch
    → Dispatching
    → Option Dispatching
unfolding dispatch_batch
dispatch_batches limits outside priority payload_bytes size [] d = some d
dispatch_batches limits outside priority payload_bytes size (b ∷ bs) d = do
  d' ← dispatch_batch limits outside priority payload_bytes size b d
  dispatch_batches limits outside priority payload_bytes size bs d'

unfoldable pub drop_batches : BroadcastReason → List LoopBatch → Dispatching → Dispatching
unfolding drop_all
drop_batches why [] d = d
drop_batches why (b ∷ bs) d = drop_batches why bs (drop_all why b.endpoints d)

-- The locals of `dispatch` at its start, with the plan's drops.
abbrev pub starting : ℕ → (ℕ → ℕ) → DispatcherState → Dispatching
starting dropped counts s = record {
  state = s;
  summary = record {
    scheduled_endpoints = 0;
    scheduled_tasks = 0;
    accepted_endpoints = 0;
    dropped_endpoints = dropped;
    reason_counts = counts;
  };
  progress = record {
    scheduled_endpoints = 0;
    accepted_endpoints = 0;
    dropped_endpoints = dropped;
    outstanding_tasks = 0;
    outstanding_bytes = 0;
    complete = false;
    reason_counts = counts;
    is_sealed = false;
  };
  tasks = [];
  attempts = 0;
}

unfoldable pub chunk_size : DispatchLimits → ℕ → ℕ
chunk_size limits payload_bytes =
    let by_bytes =
      if payload_bytes == 0
      then limits.max_endpoints_per_task
      else max 1 (limits.max_bytes_per_task / payload_bytes) in
    min limits.max_endpoints_per_task by_bytes

-- `dispatch`; a plan without a payload is `none`.
unfoldable pub dispatch :
    DispatchLimits → Outside → Option BroadcastPlan → DispatcherState → Option Dispatching
unfolding record_drop seal seal_at_once drop_batches chunk_size dispatch_batches
dispatch limits outside none s =
    some (seal_at_once (record_drop BroadcastReason.invalid_plan (starting 0 (λ i. 0) s)))
dispatch limits outside (some plan) s =
    let d = starting plan.dropped plan.reason_counts s in
    if ltb limits.max_bytes_per_task plan.payload_bytes
    then some (seal_at_once (drop_batches BroadcastReason.dispatch_task_byte_limit plan.batches d))
    else (do
      d' ←
          dispatch_batches limits outside plan.priority plan.payload_bytes
            (chunk_size limits plan.payload_bytes) plan.batches d
      some (seal d'))
