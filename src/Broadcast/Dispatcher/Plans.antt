-- ===== src/Broadcast/Dispatcher/Plans.antt =====
-- A whole dispatch.
use game_net_core.Prelude.{
  ℕ, ◌+◌, ◌^◌, ◌<◌, ◌≤◌, Bool, ◌≡◌, inl, inr, refl, sym, ap, subst, ◌∙◌, true, some, List, [], ◌∷◌,
  ltb, ◌==◌, arith, length, Bool-cases, Option-cases,
}
use game_net_core.Broadcast.Router.{
  BroadcastPriority, BroadcastReason, RoutedEndpoint, LoopBatch, BroadcastPlan,
}
use game_net_core.Broadcast.Router.Limits.{routed}
use game_net_core.Broadcast.Reservations.{
  DispatchLimits, DispatcherState, OwnerOutstanding, coherent_limits, owner_for, find_owner,
  store_owner,
}
use game_net_core.Broadcast.Reservations.Registry.{ascends, owner_for-IsRegistered}
use game_net_core.Broadcast.Progress.{Dispatching, drop_all, seal, seal_at_once, valid_endpoints}
use game_net_core.Broadcast.Dispatcher.{
  Outside, dispatch_batch, dispatch_batches, drop_batches, starting, chunk_size, dispatch,
}
use game_net_core.Broadcast.Dispatcher.Accounted.{
  IsAccounted, recount, drop_all-IsAccounted, valid_endpoints-IsAccounted, replaced,
}
use game_net_core.Broadcast.Dispatcher.Owned.{
  marked, marked_in, IsFrom, drop_all-tasks, drop_all-state,
}
use game_net_core.Broadcast.Dispatcher.Chunks.{dispatch_chunks-IsAccounted}
use game_net_core.Broadcast.Dispatcher.Covered.{
  IsCovered, tasks_at, bytes_at, valid_endpoints-same, valid_endpoints-marked, batch-IsCovered,
}

-- How many of the plan's endpoints a test holds of.
abbrev pub marked_routed : (RoutedEndpoint → Bool) → List LoopBatch → ℕ
marked_routed f [] = 0
marked_routed f (b ∷ bs) = marked f b.endpoints + marked_routed f bs

owner_for-counts :
    (id : ℕ) (l : DispatchLimits) (s : DispatcherState)
    → ((owner_for id l s).1.global_tasks.current ≡ s.global_tasks.current)
      × ((owner_for id l s).1.global_bytes.current ≡ s.global_bytes.current)
unfolding owner_for
owner_for-counts id l s = elim (Option-cases (find_owner id s.owners)) [
  | inl unknown ↦ simp (owner_for, unknown) (refl, refl)
  | inr (o, found) ↦ simp (owner_for, found) (refl, refl)
]

dispatch_batch-IsAccounted :
    {bt bb : ℕ → ℕ} (limits : DispatchLimits) (outside : Outside) (priority : BroadcastPriority)
    (payload_bytes size : ℕ) (b : LoopBatch) (gt gb n : ℕ) (d : Dispatching)
    → IsAccounted gt gb n d
    → IsCovered bt bb d.state.owners d.tasks
    → 0 < size
    → gt + (n + length b.endpoints) < 2 ^ 64
    → (d' : Dispatching) × (dispatch_batch limits outside priority payload_bytes size b d ≡ some d')
      × IsAccounted gt gb (n + length b.endpoints) d'
      × IsCovered bt bb d'.state.owners d'.tasks
      × IsFrom b.endpoints d.tasks d'.tasks
unfolding dispatch_batch
dispatch_batch-IsAccounted {bt} {bb} limits outside priority payload_bytes size b gt gb n d a c p
      room =
    let (valid, d₁) = valid_endpoints outside.is_open b.owner_executor b.endpoints d in
    let (m, a₁, total) =
      valid_endpoints-IsAccounted outside.is_open b.owner_executor b.endpoints gt gb n d a in
    let (o, s) = owner_for b.owner_executor limits d₁.state in
    let (tasks, state) = valid_endpoints-same outside.is_open b.owner_executor b.endpoints d in
    let c₁ : IsCovered bt bb d₁.state.owners d₁.tasks =
      subst (λ x. IsCovered bt bb x.owners d₁.tasks) (sym state)
        (subst (λ ts. IsCovered bt bb d.state.owners ts) (sym tasks) c) in
    let (et, eb) = owner_for-counts b.owner_executor limits d₁.state in
    elim (Bool-cases (length valid == 0)) [
      | inl empty ↦ (
        d₁,
        simp (dispatch_batch, empty) refl,
        recount (ground (arith, total, empty)) a₁,
        c₁,
        λ f. omega (arith, ap (marked_in f) tasks),
      )
      | inr more ↦
          let (o', d₂, chunks, a₂, owned) =
            dispatch_chunks-IsAccounted outside priority payload_bytes size (length valid) o valid
              gt gb m (record d₁ { state = s })
              (replaced s d₁.progress d₁.attempts gt gb m d₁ et eb refl refl refl refl refl a₁) p
              (omega arith) (omega (arith, total, room)) in
          (
            record d₂ { state = record d₂.state { owners = store_owner o' d₂.state.owners } },
            simp (dispatch_batch, more, chunks) refl,
            recount total (
                replaced (record d₂.state { owners = store_owner o' d₂.state.owners }) d₂.progress
                  d₂.attempts gt gb (m + length valid) d₂ refl refl refl refl refl refl refl a₂),
            batch-IsCovered b.owner_executor o o' d₁.state s (record d₁ { state = s }) d₂
                (owner_for-IsRegistered b.owner_executor limits d₁.state c₁.ordered) refl owned c₁,
            λ f. omega (
              arith,
              owned.from_list f,
              ap (marked_in f) tasks,
              valid_endpoints-marked f outside.is_open b.owner_executor b.endpoints d,
            ),
          )
    ]

dispatch_batches-IsAccounted :
    {bt bb : ℕ → ℕ} (limits : DispatchLimits) (outside : Outside) (priority : BroadcastPriority)
    (payload_bytes size : ℕ) (bs : List LoopBatch) (gt gb n : ℕ) (d : Dispatching)
    → IsAccounted gt gb n d
    → IsCovered bt bb d.state.owners d.tasks
    → 0 < size
    → gt + (n + routed bs) < 2 ^ 64
    → (d' : Dispatching) × (dispatch_batches limits outside priority payload_bytes size bs d
        ≡ some d')
      × IsAccounted gt gb (n + routed bs) d'
      × IsCovered bt bb d'.state.owners d'.tasks
      × ((f : RoutedEndpoint → Bool)
          → marked_in f d'.tasks ≤ marked_in f d.tasks + marked_routed f bs)
unfolding dispatch_batches
dispatch_batches-IsAccounted limits outside priority payload_bytes size [] gt gb n d a c p room =
    (d, refl, recount (omega arith) a, c, λ f. omega arith)
dispatch_batches-IsAccounted limits outside priority payload_bytes size (b ∷ bs) gt gb n d a c p
      room =
    let (d₁, first, a₁, c₁, from₁) =
      dispatch_batch-IsAccounted limits outside priority payload_bytes size b gt gb n d a c p
        (omega (arith, room)) in
    let (d₂, others, a₂, c₂, from₂) =
      dispatch_batches-IsAccounted limits outside priority payload_bytes size bs gt gb
        (n + length b.endpoints) d₁ a₁ c₁ p (omega (arith, room)) in
    (
      d₂,
      simp (dispatch_batches, first) others,
      recount (omega arith) a₂,
      c₂,
      λ f. omega (arith, from₁ f, from₂ f),
    )

drop_batches-IsAccounted :
    (why : BroadcastReason) (bs : List LoopBatch) (gt gb n : ℕ) (d : Dispatching)
    → IsAccounted gt gb n d
    → IsAccounted gt gb (n + routed bs) (drop_batches why bs d)
unfolding drop_batches
drop_batches-IsAccounted why [] gt gb n d a = recount (omega arith) a
drop_batches-IsAccounted why (b ∷ bs) gt gb n d a = recount (omega arith) (
    drop_batches-IsAccounted why bs gt gb (n + length b.endpoints) (drop_all why b.endpoints d)
      (drop_all-IsAccounted why b.endpoints gt gb n d a))

seal-IsAccounted :
    (gt gb n : ℕ) (d : Dispatching) → IsAccounted gt gb n d → IsAccounted gt gb n (seal d)
unfolding seal
seal-IsAccounted gt gb n d a =
    replaced d.state
      (record d.progress { is_sealed = true; complete = d.progress.outstanding_tasks == 0 })
      d.attempts gt gb n d refl refl refl refl refl refl refl a

seal_at_once-IsAccounted :
    (gt gb n : ℕ) (d : Dispatching) → IsAccounted gt gb n d → IsAccounted gt gb n (seal_at_once d)
unfolding seal_at_once
seal_at_once-IsAccounted gt gb n d a =
    replaced d.state (record d.progress { is_sealed = true; complete = true }) d.attempts gt gb n d
      refl refl refl refl refl refl refl a

seal_at_once-sealed : (d : Dispatching) → (seal_at_once d).progress.is_sealed ≡ true
unfolding seal_at_once
seal_at_once-sealed d = refl

seal_at_once-complete :
    (d : Dispatching)
    → d.tasks ≡ []
    → (seal_at_once d).progress.complete ≡ (length (seal_at_once d).tasks == 0)
unfolding seal_at_once
seal_at_once-complete d e = ap (λ ts. length ts == 0) (sym e)

drop_batches-tasks :
    (why : BroadcastReason) (bs : List LoopBatch) (d : Dispatching)
    → d.tasks ≡ []
    → (drop_batches why bs d).tasks ≡ []
unfolding drop_batches
drop_batches-tasks why [] d e = e
drop_batches-tasks why (b ∷ bs) d e =
    drop_batches-tasks why bs (drop_all why b.endpoints d) (drop_all-tasks why b.endpoints d ∙ e)

starting-IsAccounted :
    (dropped : ℕ) (counts : ℕ → ℕ) (s : DispatcherState)
    → IsAccounted s.global_tasks.current s.global_bytes.current dropped (starting dropped counts s)
starting-IsAccounted dropped counts s = record {
  all_seen = omega arith;
  same_dropped = refl;
  same_scheduled = refl;
  admitted = refl;
  none_sent = refl;
  endpoints_held = refl;
  scheduled_tasks = refl;
  few = omega arith;
  outstanding_tasks = refl;
  outstanding_bytes = refl;
  global_tasks = omega arith;
  global_bytes = omega arith;
}

sealed :
    (d : Dispatching) (gt gb n : ℕ)
    → IsAccounted gt gb n d
    → ((seal d).progress.is_sealed ≡ true) × ((seal d).progress.complete ≡ (length d.tasks == 0))
unfolding seal
sealed d gt gb n a = (refl, ap (λ k. k == 0) a.outstanding_tasks)

chunk_size-positive :
    (limits : DispatchLimits) (n : ℕ) → coherent_limits limits ≡ true → 0 < chunk_size limits n
unfolding chunk_size coherent_limits
chunk_size-positive limits n fine = ground (arith, fine)

drop_batches-state :
    (why : BroadcastReason) (bs : List LoopBatch) (d : Dispatching)
    → (drop_batches why bs d).state ≡ d.state
unfolding drop_batches
drop_batches-state why [] d = refl
drop_batches-state why (b ∷ bs) d =
    drop_batches-state why bs (drop_all why b.endpoints d) ∙ drop_all-state why b.endpoints d

seal-IsCovered :
    {bt bb : ℕ → ℕ} (d : Dispatching)
    → IsCovered bt bb d.state.owners d.tasks
    → IsCovered bt bb (seal d).state.owners (seal d).tasks
unfolding seal
seal-IsCovered d c = c

seal_at_once-IsCovered :
    {bt bb : ℕ → ℕ} (d : Dispatching)
    → IsCovered bt bb d.state.owners d.tasks
    → IsCovered bt bb (seal_at_once d).state.owners (seal_at_once d).tasks
unfolding seal_at_once
seal_at_once-IsCovered d c = c

-- No task is outstanding.
none-IsCovered :
    (os : List OwnerOutstanding) → ascends 0 os ≡ true → IsCovered (tasks_at os) (bytes_at os) os []
none-IsCovered os a = record {
  ordered = a;
  held = λ id. elim (Option-cases (find_owner id os)) [
    | inl unknown ↦
        let no_tasks : tasks_at os id ≡ 0 = simp (tasks_at, unknown) refl in
        let no_bytes : bytes_at os id ≡ 0 = simp (bytes_at, unknown) refl in
        rw unknown (no_tasks, no_bytes, refl, refl)
    | inr (o, found) ↦
        let tasks : tasks_at os id ≡ o.tasks.current = simp (tasks_at, found) refl in
        let bytes : bytes_at os id ≡ o.bytes.current = simp (bytes_at, found) refl in
        rw found (omega (arith, tasks), omega (arith, bytes))
  ];
}

seal-tasks : (d : Dispatching) → (seal d).tasks ≡ d.tasks
unfolding seal
seal-tasks d = refl

seal_at_once-tasks : (d : Dispatching) → d.tasks ≡ [] → (seal_at_once d).tasks ≡ []
unfolding seal_at_once
seal_at_once-tasks d e = e

-- With coherent limits, and fewer tasks than a counter holds, a dispatch of a plan succeeds,
-- however endpoints, executors and another thread's shutdown behave. The endpoints scheduled and
-- dropped are as many as those of the plan and those that it had dropped, and the tasks hold no
-- endpoint more often than the plan does. What the dispatcher counts in addition to before, and
-- what the progress has outstanding, are the posted tasks and their bytes; the progress is sealed,
-- and complete just if no task was posted. The registry stays in order, and each owner in it counts
-- exactly the tasks posted to it, and their bytes, in addition to what it counted before.
pub dispatch_lem :
    (limits : DispatchLimits) (outside : Outside) (plan : BroadcastPlan) (s : DispatcherState)
    → coherent_limits limits ≡ true
    → ascends 0 s.owners ≡ true
    → s.global_tasks.current + (plan.dropped + routed plan.batches) < 2 ^ 64
    → (d : Dispatching) × (dispatch limits outside (some plan) s ≡ some d)
      × IsAccounted s.global_tasks.current s.global_bytes.current
          (plan.dropped + routed plan.batches)
          d
      × (d.progress.is_sealed ≡ true)
      × (d.progress.complete ≡ (length d.tasks == 0))
      × IsCovered (tasks_at s.owners) (bytes_at s.owners) d.state.owners d.tasks
      × ((f : RoutedEndpoint → Bool) → marked_in f d.tasks ≤ marked_routed f plan.batches)
unfolding dispatch
dispatch_lem limits outside plan s fine ordered room =
    let d = starting plan.dropped plan.reason_counts s in
    let gt = s.global_tasks.current in
    let gb = s.global_bytes.current in
    let a = starting-IsAccounted plan.dropped plan.reason_counts s in
    let all = plan.dropped + routed plan.batches in
    elim (Bool-cases (ltb limits.max_bytes_per_task plan.payload_bytes)) [
      | inl too_long ↦
          let d₁ = drop_batches BroadcastReason.dispatch_task_byte_limit plan.batches d in
          let a₁ =
            drop_batches-IsAccounted BroadcastReason.dispatch_task_byte_limit plan.batches gt gb
              plan.dropped d a in
          (
            seal_at_once d₁,
            simp (dispatch, too_long) refl,
            seal_at_once-IsAccounted gt gb all d₁ a₁,
            seal_at_once-sealed d₁,
            seal_at_once-complete d₁
                (drop_batches-tasks BroadcastReason.dispatch_task_byte_limit plan.batches d refl),
            seal_at_once-IsCovered d₁ (
                subst (λ x. IsCovered (tasks_at s.owners) (bytes_at s.owners) x.owners d₁.tasks)
                  (sym (drop_batches-state BroadcastReason.dispatch_task_byte_limit plan.batches d))
                  (subst (λ ts. IsCovered (tasks_at s.owners) (bytes_at s.owners) s.owners ts)
                    (sym (
                      drop_batches-tasks BroadcastReason.dispatch_task_byte_limit plan.batches d
                        refl))
                    (none-IsCovered s.owners ordered))),
            λ f. omega (
              arith,
              ap (marked_in f) (
                  seal_at_once-tasks d₁ (
                    drop_batches-tasks BroadcastReason.dispatch_task_byte_limit plan.batches d
                      refl)),
            ),
          )
      | inr fits ↦
          let (d₁, batches, a₁, c₁, from) =
            dispatch_batches-IsAccounted limits outside plan.priority plan.payload_bytes
              (chunk_size limits plan.payload_bytes) plan.batches gt gb plan.dropped d a
              (none-IsCovered s.owners ordered) (chunk_size-positive limits plan.payload_bytes fine)
              room in
          (
            seal d₁,
            simp (dispatch, fits, batches) refl,
            seal-IsAccounted gt gb all d₁ a₁,
            (sealed d₁ gt gb all a₁).0,
            (sealed d₁ gt gb all a₁).1,
            seal-IsCovered d₁ c₁,
            λ f. omega (arith, from f, ap (marked_in f) (seal-tasks d₁)),
          )
    ]
