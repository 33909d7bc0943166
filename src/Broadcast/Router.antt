-- ===== src/Broadcast/Router.antt =====
-- `BroadcastRouter` of include/gamenet/broadcast/BroadcastRouter.h and
-- src/broadcast/BroadcastRouter.cc, with the plan of BroadcastTypes.h. The metric callback only
-- observes and is left out. What an endpoint answers while it is routed is part of it: its id, its
-- owner executor, whether that is available and whether the endpoint is open.
pub mod Limits
mod Tests
use game_net_core.Prelude.{
  ℕ, zero, suc, ◌+◌, ◌-◌, ◌*◌, ◌/◌, Bool, true, false, not, ◌&&◌, ◌||◌, Option, none, some, List,
  [], ◌∷◌, ◌++◌, ltb, leb, ◌==◌, if◌then◌else◌, length, find, assign,
}
use game_net_core.Session.Binding.{SessionBinding, Cells, tracked, is_current}

pub data BroadcastPriority : Type 0 where
  low normal high : BroadcastPriority

pub data BroadcastReason : Type 0 where
  no_reason offline_session duplicate_endpoint fanout_hard_limit byte_hard_limit
        low_priority_soft_limit dispatch_task_byte_limit endpoint_closed endpoint_overloaded
        owner_unavailable owner_shutdown dispatch_queue_full owner_outstanding_task_limit
        owner_outstanding_byte_limit global_outstanding_byte_limit invalid_plan send_rejected :
      BroadcastReason

-- `reasonIndex`.
unfoldable pub reason_index : BroadcastReason → ℕ
reason_index no_reason = 0
reason_index offline_session = 1
reason_index duplicate_endpoint = 2
reason_index fanout_hard_limit = 3
reason_index byte_hard_limit = 4
reason_index low_priority_soft_limit = 5
reason_index dispatch_task_byte_limit = 6
reason_index endpoint_closed = 7
reason_index endpoint_overloaded = 8
reason_index owner_unavailable = 9
reason_index owner_shutdown = 10
reason_index dispatch_queue_full = 11
reason_index owner_outstanding_task_limit = 12
reason_index owner_outstanding_byte_limit = 13
reason_index global_outstanding_byte_limit = 14
reason_index invalid_plan = 15
reason_index send_rejected = 16

pub record RoutedEndpoint : Type 0 where
  pub id : ℕ
  pub owner : ℕ
  pub owner_available : Bool
  pub is_open : Bool

pub record BroadcastTarget : Type 0 where
  pub endpoint : Option RoutedEndpoint
  pub binding : SessionBinding
  pub marked_eligible : Bool

-- `BroadcastTarget::eligible`.
unfoldable pub eligible : Cells → BroadcastTarget → Bool
eligible cells t = t.marked_eligible && (not (tracked t.binding) || is_current cells t.binding)

pub record BroadcastLimits : Type 0 where
  pub soft_fanout : ℕ
  pub hard_fanout : ℕ
  pub soft_bytes : ℕ
  pub hard_bytes : ℕ

pub record LoopBatch : Type 0 where
  pub owner_executor : ℕ
  pub endpoints : List RoutedEndpoint

pub record BroadcastPlan : Type 0 where
  pub payload_bytes : ℕ
  pub batches : List LoopBatch
  pub accepted : ℕ
  pub dropped : ℕ
  pub priority : BroadcastPriority
  pub reason_counts : ℕ → ℕ

-- The plan with the locals `seen` and `batchIndexes` of `route`.
pub record Routing : Type 0 where
  pub plan : BroadcastPlan
  pub seen : List ℕ
  pub batch_indexes : List (ℕ × ℕ)

-- The constructor's test; where it is false the constructor throws.
unfoldable pub coherent : Bool → BroadcastLimits → Bool
coherent has_loop l =
    has_loop
    && not (
        ltb l.hard_fanout l.soft_fanout
        || ltb l.hard_bytes l.soft_bytes
        || l.hard_fanout == 0
        || l.hard_bytes == 0)

unfoldable pub contains : ℕ → List ℕ → Bool
contains id [] = false
contains id (x ∷ xs) = x == id || contains id xs

unfoldable pub drop_target : BroadcastReason → Routing → Routing
unfolding reason_index
drop_target reason r =
    let p = r.plan in
    record r {
      plan = record p {
        dropped = p.dropped + 1;
        reason_counts =
            λ i. if reason_index reason == i then p.reason_counts i + 1 else p.reason_counts i;
      };
    }

-- `plan.batches_[index].endpoints.push_back(endpoint)`; the index is always in range.
unfoldable pub push_endpoint : ℕ → RoutedEndpoint → List LoopBatch → List LoopBatch
push_endpoint i e [] = []
push_endpoint zero e (b ∷ bs) = record b { endpoints = b.endpoints ++ (e ∷ []) } ∷ bs
push_endpoint (suc i) e (b ∷ bs) = b ∷ push_endpoint i e bs

-- `batchIndexes.try_emplace` and what follows it.
unfoldable pub accept : RoutedEndpoint → Routing → Routing
unfolding push_endpoint
accept e r =
    let p = r.plan in
    elim (find e.owner r.batch_indexes) [
      | some i ↦ record r {
        plan = record p { batches = push_endpoint i e p.batches; accepted = p.accepted + 1 };
      }
      | none ↦ record r {
        plan = record p {
          batches =
              push_endpoint (length p.batches) e
                (p.batches ++ (record { owner_executor = e.owner; endpoints = [] } ∷ []));
          accepted = p.accepted + 1;
        };
        batch_indexes = assign e.owner (length p.batches) r.batch_indexes;
      }
    ]

-- The soft limits, which bind low priority alone; the plan has the priority that `route` is given.
unfoldable pub over_soft_limit : BroadcastLimits → BroadcastPlan → Bool
over_soft_limit l p = elim p.priority [
  | low ↦ leb l.soft_fanout p.accepted || ltb (l.soft_bytes / (p.accepted + 1)) p.payload_bytes
  | _ ↦ false
]

-- The tests after `seen.insert`, in their order; `none` if the endpoint is accepted.
unfoldable pub refusal : BroadcastLimits → BroadcastPlan → RoutedEndpoint → Option BroadcastReason
unfolding over_soft_limit
refusal l p e =
    if leb l.hard_fanout p.accepted
    then some fanout_hard_limit
    else if ltb (l.hard_bytes / (p.accepted + 1)) p.payload_bytes
    then some byte_hard_limit
    else if over_soft_limit l p
    then some low_priority_soft_limit
    else if not e.owner_available
    then some owner_unavailable
    else if not e.is_open
    then some endpoint_closed
    else none

-- One round of the loop over the targets.
unfoldable pub route_target : Cells → BroadcastLimits → Routing → BroadcastTarget → Routing
unfolding eligible contains drop_target accept refusal
route_target cells l r t =
    if not (eligible cells t) then drop_target offline_session r else elim t.endpoint [
      | none ↦ drop_target invalid_plan r
      | some e ↦
          if contains e.id r.seen
          then drop_target duplicate_endpoint r
          else let r' = record r { seen = e.id ∷ r.seen } in
            elim (refusal l r.plan e) [ some reason ↦ drop_target reason r' | none ↦ accept e r' ]
    ]

unfoldable pub route_targets : Cells → BroadcastLimits → Routing → List BroadcastTarget → Routing
unfolding route_target
route_targets cells l r [] = r
route_targets cells l r (t ∷ ts) = route_targets cells l (route_target cells l r t) ts

abbrev pub empty_routing : ℕ → BroadcastPriority → Routing
empty_routing payload_bytes priority = record {
  plan = record {
    payload_bytes = payload_bytes;
    batches = [];
    accepted = 0;
    dropped = 0;
    priority = priority;
    reason_counts = λ i. 0;
  };
  seen = [];
  batch_indexes = [];
}

-- `route`; a null payload, for which it throws, is `none`.
unfoldable pub route :
    Cells
    → BroadcastLimits
    → Option ℕ
    → List BroadcastTarget
    → BroadcastPriority
    → Option BroadcastPlan
unfolding route_targets
route cells l none targets priority = none
route cells l (some payload_bytes) targets priority =
    some (route_targets cells l (empty_routing payload_bytes priority) targets).plan
