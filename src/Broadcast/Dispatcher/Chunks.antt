-- ===== src/Broadcast/Dispatcher/Chunks.antt =====
-- A chunk of a dispatch and the loop over the chunks.
use game_net_core.Prelude.{
  Bool, ℕ, zero, suc, ◌+◌, ◌-◌, ◌^◌, ◌≤◌, ◌<◌, ◌≡◌, ◌⊎◌, inl, inr, refl, ap, ◌∙◌, true, false, ◌&&◌,
  some, List, [], ◌∷◌, ltb, ◌==◌, arith, take, drop, length, length-append, length-take,
  length-drop, take-append-drop, subst,
}
use game_net_core.Broadcast.Router.{BroadcastPriority, BroadcastReason, RoutedEndpoint}
use game_net_core.Broadcast.Reservations.{DispatcherState, OwnerOutstanding}
use game_net_core.Broadcast.Reservations.Rollback.{IsTaken, try_reserve_lem, release_lem}
use game_net_core.Broadcast.Progress.{
  PostResult, Task, Dispatching, DispatchProgress, logical_bytes, post_failure_reason, drop_all,
  release_reservation, is_none,
}
use game_net_core.Broadcast.Dispatcher.{
  Outside, take_back, post_task, with_reservation, with_task, dispatch_chunk, dispatch_chunks,
}
use game_net_core.Broadcast.Dispatcher.Accounted.{
  IsAccounted, held_bytes-append, held_endpoints-append, recount, drop_all-IsAccounted, replaced,
}
use game_net_core.Broadcast.Dispatcher.Owned.{
  IsOwned, dropped-IsOwned, with_task-IsOwned, joined-IsOwned, reserved_for,
}

is_none-cases : (r : BroadcastReason) → (r ≡ BroadcastReason.no_reason) ⊎ (is_none r ≡ false)
is_none-cases BroadcastReason.no_reason = inl refl
is_none-cases _ = inr refl

take_back-IsAccounted :
    {closes : Bool} (r : PostResult) (t : Task) (priority : BroadcastPriority)
    (o o₁ : OwnerOutstanding) (why : BroadcastReason) (s₁ : DispatcherState) (gt gb n : ℕ)
    (d : Dispatching)
    → IsTaken t.bytes priority closes o d.state why o₁ s₁
    → IsAccounted gt gb n d
    → (o' : OwnerOutstanding) × (d' : Dispatching) × (take_back r t o₁ (reserved_for t.bytes s₁ d)
        ≡ some (o', d'))
      × IsAccounted gt gb (n + length t.endpoints) d'
      × IsOwned t.endpoints o o' d d'
unfolding take_back release_reservation
take_back-IsAccounted r t priority o o₁ why s₁ gt gb n d made a =
    let (o', s', back, gb_same, gt_same, ob_same, ot_same, id_same, os_same) =
      release_lem o₁ t.bytes s₁ (omega (arith, made.global_bytes)) (omega (arith, made.bytes))
        (omega (arith, made.tasks)) (omega (arith, made.global_tasks)) in
    let p : DispatchProgress = with_reservation t.bytes d.progress in
    let few_tasks : ltb p.outstanding_tasks 1 ≡ false = ground arith in
    let few_bytes : ltb p.outstanding_bytes t.bytes ≡ false = ground arith in
    let p' : DispatchProgress = record p {
      outstanding_tasks = p.outstanding_tasks - 1;
      outstanding_bytes = p.outstanding_bytes - t.bytes;
      complete = p.is_sealed && p.outstanding_tasks - 1 == 0;
    } in
    let d₂ : Dispatching = record d { state = s'; progress = p'; attempts = d.attempts + 1 } in
    (
      o',
      drop_all (post_failure_reason r) t.endpoints d₂,
      simp (take_back, release_reservation, back, few_tasks, few_bytes) refl,
      drop_all-IsAccounted (post_failure_reason r) t.endpoints gt gb n d₂ (
          replaced s' p' (d.attempts + 1) gt gb n d (omega (arith, gt_same, made.global_tasks))
            (omega (arith, gb_same, made.global_bytes)) (omega arith) (omega arith) refl refl refl
            a),
      dropped-IsOwned (post_failure_reason r) t.endpoints o o' d d₂ (id_same ∙ made.same_owner)
          (omega (arith, ot_same, made.tasks)) (omega (arith, ob_same, made.bytes)) refl
          (os_same ∙ made.same_owners),
    )

with_task-IsAccounted :
    {closes : Bool} (t : Task) (priority : BroadcastPriority) (o o₁ : OwnerOutstanding)
    (why : BroadcastReason) (s₁ : DispatcherState) (gt gb n : ℕ) (d : Dispatching)
    → IsTaken t.bytes priority closes o d.state why o₁ s₁
    → 0 < length t.endpoints
    → IsAccounted gt gb n d
    → IsAccounted gt gb (n + length t.endpoints) (with_task t (reserved_for t.bytes s₁ d))
with_task-IsAccounted t priority o o₁ why s₁ gt gb n d made some_endpoints a =
    let tasks = length-append d.tasks (t ∷ []) in
    let bytes = held_bytes-append d.tasks (t ∷ []) in
    let endpoints = held_endpoints-append d.tasks (t ∷ []) in
    record {
      all_seen = omega (arith, a.all_seen);
      same_dropped = a.same_dropped;
      same_scheduled = omega (arith, a.same_scheduled);
      admitted = omega (arith, a.admitted);
      none_sent = a.none_sent;
      endpoints_held = omega (arith, endpoints, a.endpoints_held);
      scheduled_tasks = omega (arith, tasks, a.scheduled_tasks);
      few = omega (arith, tasks, a.few, some_endpoints);
      outstanding_tasks = omega (arith, tasks, a.outstanding_tasks);
      outstanding_bytes = omega (arith, bytes, a.outstanding_bytes);
      global_tasks = omega (arith, tasks, a.global_tasks, made.global_tasks);
      global_bytes = omega (arith, bytes, a.global_bytes, made.global_bytes);
    }

post_task-IsAccounted :
    {closes : Bool} (r : PostResult) (t : Task) (priority : BroadcastPriority)
    (o o₁ : OwnerOutstanding) (why : BroadcastReason) (s₁ : DispatcherState) (gt gb n : ℕ)
    (d : Dispatching)
    → IsTaken t.bytes priority closes o d.state why o₁ s₁
    → t.owner_id ≡ o.owner_id
    → 0 < length t.endpoints
    → IsAccounted gt gb n d
    → (o' : OwnerOutstanding) × (d' : Dispatching) × (post_task r t o₁ (reserved_for t.bytes s₁ d)
        ≡ some (o', d'))
      × IsAccounted gt gb (n + length t.endpoints) d'
      × IsOwned t.endpoints o o' d d'
unfolding post_task
post_task-IsAccounted PostResult.accepted t priority o o₁ why s₁ gt gb n d made own p a = (
  o₁,
  with_task t (reserved_for t.bytes s₁ d),
  refl,
  with_task-IsAccounted t priority o o₁ why s₁ gt gb n d made p a,
  with_task-IsOwned t priority o o₁ why s₁ d own made,
)
post_task-IsAccounted PostResult.queue_full t priority o o₁ why s₁ gt gb n d made own p a =
    take_back-IsAccounted PostResult.queue_full t priority o o₁ why s₁ gt gb n d made a
post_task-IsAccounted PostResult.owner_unavailable t priority o o₁ why s₁ gt gb n d made own p a =
    take_back-IsAccounted PostResult.owner_unavailable t priority o o₁ why s₁ gt gb n d made a
post_task-IsAccounted PostResult.shutdown t priority o o₁ why s₁ gt gb n d made own p a =
    take_back-IsAccounted PostResult.shutdown t priority o o₁ why s₁ gt gb n d made a

dispatch_chunk-IsAccounted :
    (outside : Outside) (priority : BroadcastPriority) (payload_bytes : ℕ) (o : OwnerOutstanding)
    (chunk : List RoutedEndpoint) (gt gb n : ℕ) (d : Dispatching)
    → IsAccounted gt gb n d
    → 0 < length chunk
    → gt + n < 2 ^ 64 - 1
    → (o' : OwnerOutstanding) × (d' : Dispatching) × (dispatch_chunk outside priority payload_bytes
          o chunk d
        ≡ some (o', d'))
      × IsAccounted gt gb (n + length chunk) d'
      × IsOwned chunk o o' d d'
unfolding dispatch_chunk
dispatch_chunk-IsAccounted outside priority payload_bytes o chunk gt gb n d a some_endpoints room =
    let bytes = logical_bytes payload_bytes (length chunk) in
    let space : d.state.global_tasks.current < 2 ^ 64 - 1 =
      omega (arith, a.global_tasks, a.few, a.all_seen, room) in
    let (reason, o₁, s₁, reserved, how) =
      try_reserve_lem o bytes priority (outside.closes d.attempts) d.state space in
    elim how [
      | inr back ↦ elim (is_none-cases reason) [
        | inl none_given ↦ absurd (back.reason none_given)
        | inr given ↦ (
          o₁,
          drop_all reason chunk (record d { state = s₁; attempts = d.attempts + 1 }),
          simp (dispatch_chunk, reserved, given) refl,
          drop_all-IsAccounted reason chunk gt gb n
              (record d { state = s₁; attempts = d.attempts + 1 })
              (replaced s₁ d.progress (d.attempts + 1) gt gb n d back.global_tasks back.global_bytes
                refl refl refl refl refl a),
          dropped-IsOwned reason chunk o o₁ d (record d { state = s₁; attempts = d.attempts + 1 })
              back.same_owner back.tasks back.bytes refl back.same_owners,
        )
      ]
      | inl made ↦
          let t : Task = record { owner_id = o.owner_id; bytes = bytes; endpoints = chunk } in
          let none_given : is_none reason ≡ true = ap is_none made.reason in
          let (o', d', posted, a', owned) =
            post_task-IsAccounted (outside.post d.attempts) t priority o o₁ reason s₁ gt gb n d made
              refl some_endpoints a in
          (o', d', simp (dispatch_chunk, reserved, none_given) posted, a', owned)
    ]

pub dispatch_chunks-IsAccounted :
    (outside : Outside) (priority : BroadcastPriority) (payload_bytes size fuel : ℕ)
    (o : OwnerOutstanding) (es : List RoutedEndpoint) (gt gb n : ℕ) (d : Dispatching)
    → IsAccounted gt gb n d
    → 0 < size
    → length es ≤ fuel
    → gt + (n + length es) < 2 ^ 64
    → (o' : OwnerOutstanding) × (d' : Dispatching) × (dispatch_chunks outside priority payload_bytes
          size fuel o es d
        ≡ some (o', d'))
      × IsAccounted gt gb (n + length es) d'
      × IsOwned es o o' d d'
unfolding dispatch_chunks
dispatch_chunks-IsAccounted outside priority payload_bytes size fuel o [] gt gb n d a p enough
      room =
    (
      o,
      d,
      refl,
      recount (omega arith) a,
      record {
        from_list = λ f. omega arith;
        same_owner = refl;
        same_registry = refl;
        tasks = refl;
        bytes = refl;
        other_tasks = λ k n. refl;
        other_bytes = λ k n. refl;
      },
    )
dispatch_chunks-IsAccounted outside priority payload_bytes size zero o (e ∷ es) gt gb n d a p enough
      room =
    absurd (omega (arith, enough))
dispatch_chunks-IsAccounted outside priority payload_bytes size (suc fuel) o (e ∷ es) gt gb n d a p
      enough room =
    let first = length-take size (e ∷ es) in
    let others = length-drop size (e ∷ es) in
    let (o₁, d₁, chunk, a₁, v) =
      dispatch_chunk-IsAccounted outside priority payload_bytes o (take size (e ∷ es)) gt gb n d a
        (omega (arith, first, p)) (omega (arith, room)) in
    let (o₂, d₂, rest, a₂, w) =
      dispatch_chunks-IsAccounted outside priority payload_bytes size fuel o₁ (drop size (e ∷ es))
        gt gb (n + length (take size (e ∷ es))) d₁ a₁ p (omega (arith, others, enough, p))
        (omega (arith, first, others, room, p)) in
    (
      o₂,
      d₂,
      simp (dispatch_chunks, chunk) rest,
      recount (omega (arith, first, others)) a₂,
      subst (λ l. IsOwned l o o₂ d d₂) (take-append-drop size (e ∷ es))
          (joined-IsOwned (take size (e ∷ es)) (drop size (e ∷ es)) o o₁ o₂ d d₁ d₂ v w),
    )
