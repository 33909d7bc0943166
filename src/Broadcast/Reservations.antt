-- ===== src/Broadcast/Reservations.antt =====
-- The reservations of `BroadcastDispatcher`: `AtomicLimit`, `OwnerOutstanding` and `State` of
-- src/broadcast/BroadcastDispatcher.cc. Each call is taken whole, but for the shutdown that another
-- thread may bring between the two tests of `accepting`. `none` is the end of the program by
-- `LOG_FATAL`. The registry is the list of its owners.
pub mod Rollback
pub mod Registry
use game_net_core.Prelude.{
  ℕ, zero, suc, ◌+◌, ◌-◌, ◌*◌, ◌/◌, ◌^◌, Bool, true, false, not, ◌&&◌, Option, none, some, List, [],
  ◌∷◌, ltb, leb, ◌==◌, if◌then◌else◌, max, add64, ◌>>=◌,
}
use game_net_core.Broadcast.Router.{
  BroadcastPriority, low, BroadcastReason, no_reason, owner_shutdown, owner_outstanding_task_limit,
  owner_outstanding_byte_limit, low_priority_soft_limit, global_outstanding_byte_limit,
}

pub record DispatchLimits : Type 0 where
  pub max_endpoints_per_task : ℕ
  pub max_bytes_per_task : ℕ
  pub max_outstanding_tasks_per_owner : ℕ
  pub max_outstanding_bytes_per_owner : ℕ
  pub max_global_outstanding_bytes : ℕ
  pub low_priority_outstanding_bytes : ℕ

-- The constructor's test; where it is false the constructor throws.
unfoldable pub coherent_limits : DispatchLimits → Bool
coherent_limits l =
    not (l.max_endpoints_per_task == 0)
    && not (l.max_bytes_per_task == 0)
    && not (l.max_outstanding_tasks_per_owner == 0)
    && not (l.max_outstanding_bytes_per_owner == 0)
    && not (l.max_global_outstanding_bytes == 0)
    && leb l.low_priority_outstanding_bytes l.max_global_outstanding_bytes

pub record AtomicLimit : Type 0 where
  pub current : ℕ
  pub peak : ℕ
  pub rejected : ℕ

pub record ReserveResult : Type 0 where
  pub is_accepted : Bool
  pub observed_current : ℕ

unfoldable pub fits_within : ℕ → ℕ → ℕ → Bool
fits_within current amount limit = leb current limit && leb amount (limit - current)

-- `AtomicLimit::tryReserve`.
unfoldable pub reserve : ℕ → ℕ → AtomicLimit → ReserveResult × AtomicLimit
unfolding fits_within
reserve amount limit l =
    if amount == 0
    then (record { is_accepted = true; observed_current = l.current }, l)
    else if not (fits_within l.current amount limit)
    then (
      record { is_accepted = false; observed_current = l.current },
      record l { rejected = add64 l.rejected 1 },
    )
    else (
      record { is_accepted = true; observed_current = l.current + amount },
      record l { current = l.current + amount; peak = max l.peak (l.current + amount) },
    )

-- `AtomicLimit::release`.
unfoldable pub give_back : ℕ → AtomicLimit → Option AtomicLimit
give_back amount l =
    if amount == 0
    then some l
    else if ltb l.current amount
    then none
    else some (record l { current = l.current - amount })

pub record OwnerOutstanding : Type 0 where
  pub owner_id : ℕ
  pub task_limit : ℕ
  pub byte_limit : ℕ
  pub tasks : AtomicLimit
  pub bytes : AtomicLimit

pub record DispatcherState : Type 0 where
  pub global_byte_limit : ℕ
  pub low_priority_byte_limit : ℕ
  pub global_tasks : AtomicLimit
  pub global_bytes : AtomicLimit
  pub accepting : Bool
  pub owners : List OwnerOutstanding

abbrev pub no_reservations : AtomicLimit
no_reservations = record { current = 0; peak = 0; rejected = 0 }

unfoldable pub new_dispatcher : DispatchLimits → DispatcherState
new_dispatcher l = record {
  global_byte_limit = l.max_global_outstanding_bytes;
  low_priority_byte_limit = l.low_priority_outstanding_bytes;
  global_tasks = no_reservations;
  global_bytes = no_reservations;
  accepting = true;
  owners = [];
}

-- `findOwner`; the owners stand in the order of their ids.
unfoldable pub find_owner : ℕ → List OwnerOutstanding → Option OwnerOutstanding
find_owner id [] = none
find_owner id (o ∷ os) =
    if ltb o.owner_id id then find_owner id os else if o.owner_id == id then some o else none

-- `updated->insert` at the lower bound.
unfoldable pub insert_owner : OwnerOutstanding → List OwnerOutstanding → List OwnerOutstanding
insert_owner o [] = o ∷ []
insert_owner o (o' ∷ os) =
    if ltb o'.owner_id o.owner_id then o' ∷ insert_owner o os else o ∷ o' ∷ os

unfoldable pub owner_for : ℕ → DispatchLimits → DispatcherState → OwnerOutstanding × DispatcherState
unfolding find_owner insert_owner
owner_for id l s =
    let owner : OwnerOutstanding = record {
      owner_id = id;
      task_limit = l.max_outstanding_tasks_per_owner;
      byte_limit = l.max_outstanding_bytes_per_owner;
      tasks = no_reservations;
      bytes = no_reservations;
    } in
    elim (find_owner id s.owners) [
      | some found ↦ (found, s)
      | none ↦ (owner, record s { owners = insert_owner owner s.owners })
    ]

-- What is written through a pointer to the owner.
unfoldable pub store_owner : OwnerOutstanding → List OwnerOutstanding → List OwnerOutstanding
store_owner o [] = []
store_owner o (o' ∷ os) = (if o'.owner_id == o.owner_id then o else o') ∷ store_owner o os

abbrev pub is_low : BroadcastPriority → Bool
is_low p = elim p [ low ↦ true | _ ↦ false ]

-- `State::tryReserve`, where another thread may close admission before the last test.
unfoldable pub try_reserve :
    OwnerOutstanding
    → ℕ
    → BroadcastPriority
    → Bool
    → DispatcherState
    → Option (BroadcastReason × OwnerOutstanding × DispatcherState)
unfolding reserve give_back fits_within
try_reserve o bytes priority closes s =
    let (task, tasks) = reserve 1 o.task_limit o.tasks in
    let (owner, owner_bytes) = reserve bytes o.byte_limit o.bytes in
    let effective = if is_low priority then s.low_priority_byte_limit else s.global_byte_limit in
    let (global, global_bytes) = reserve bytes effective s.global_bytes in
    let (aggregate, global_tasks) = reserve 1 (2 ^ 64 - 1) s.global_tasks in
    if not s.accepting
    then some (owner_shutdown, o, s)
    else if not task.is_accepted
    then some (owner_outstanding_task_limit, record o { tasks = tasks }, s)
    else if not owner.is_accepted
    then (do
      t ← give_back 1 tasks
      some (owner_outstanding_byte_limit, record o { tasks = t; bytes = owner_bytes }, s))
    else if not global.is_accepted
    then (do
      b ← give_back bytes owner_bytes
      t ← give_back 1 tasks
      some (
        if is_low priority && fits_within global.observed_current bytes s.global_byte_limit
            then low_priority_soft_limit
            else global_outstanding_byte_limit,
        record o { tasks = t; bytes = b },
        record s { global_bytes = global_bytes },
      ))
    else if closes
    then (do
      g ← give_back bytes global_bytes
      b ← give_back bytes owner_bytes
      t ← give_back 1 tasks
      some (
        owner_shutdown,
        record o { tasks = t; bytes = b },
        record s { global_bytes = g; accepting = false },
      ))
    else if not aggregate.is_accepted
    then none
    else some (
      no_reason,
      record o { tasks = tasks; bytes = owner_bytes },
      record s { global_bytes = global_bytes; global_tasks = global_tasks },
    )

-- `State::release`.
unfoldable pub release :
    OwnerOutstanding → ℕ → DispatcherState → Option (OwnerOutstanding × DispatcherState)
unfolding give_back
release o bytes s = do
  g ← give_back bytes s.global_bytes
  b ← give_back bytes o.bytes
  t ← give_back 1 o.tasks
  n ← give_back 1 s.global_tasks
  some (record o { tasks = t; bytes = b }, record s { global_bytes = g; global_tasks = n })

unfoldable pub shutdown : DispatcherState → DispatcherState
shutdown s = record s { accepting = false }
