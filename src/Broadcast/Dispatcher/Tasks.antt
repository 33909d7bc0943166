-- ===== src/Broadcast/Dispatcher/Tasks.antt =====
-- One task of a dispatch runs.
use game_net_core.Prelude.{
  ℕ, ◌+◌, ◌-◌, ◌≤◌, ◌<◌, ◌≡◌, inl, inr, refl, sym, Option-cases, ap, ◌∙◌, Bool, true, false, not,
  ◌&&◌, Option, none, some, List, [], ◌∷◌, ltb, ◌==◌, if◌then◌else◌, arith, length, Bool-cases,
}
use game_net_core.Broadcast.Router.{BroadcastReason, RoutedEndpoint}
use game_net_core.Broadcast.Reservations.{
  DispatcherState, OwnerOutstanding, find_owner, store_owner,
}
use game_net_core.Broadcast.Progress.{
  EndpointResult, Task, DispatchProgress, release_reservation, is_none, endpoint_failure_reason,
}
use game_net_core.Broadcast.Delivery.{deliver, deliver_all, run_task}
use game_net_core.Broadcast.Reservations.Rollback.{release_lem}

-- The endpoint takes the payload: it is open, and its `send` accepts it.
abbrev pub takes_it : Option EndpointResult → Bool
takes_it none = false
takes_it (some EndpointResult.accepted) = true
takes_it (some _) = false

abbrev pub is_willing : (ℕ → Bool) → (ℕ → Option EndpointResult) → RoutedEndpoint → Bool
is_willing is_open send e = is_open e.id && takes_it (send e.id)

abbrev pub willing : (ℕ → Bool) → (ℕ → Option EndpointResult) → List RoutedEndpoint → ℕ
willing is_open send [] = 0
willing is_open send (e ∷ es) =
    (if is_willing is_open send e then 1 else 0) + willing is_open send es

abbrev reason_of : Option EndpointResult → BroadcastReason
unfolding endpoint_failure_reason
reason_of none = BroadcastReason.send_rejected
reason_of (some result) = endpoint_failure_reason result

reason_of-takes_it : (r : Option EndpointResult) → is_none (reason_of r) ≡ takes_it r
unfolding endpoint_failure_reason
reason_of-takes_it none = refl
reason_of-takes_it (some EndpointResult.accepted) = refl
reason_of-takes_it (some EndpointResult.closed) = refl
reason_of-takes_it (some EndpointResult.wrong_thread) = refl
reason_of-takes_it (some EndpointResult.owner_unavailable) = refl
reason_of-takes_it (some EndpointResult.overloaded) = refl

-- The progress after an endpoint or several, of which so many take the payload.
record HasDelivered (n taken : ℕ) (p p' : DispatchProgress) : Type 0 where
  all :
      p'.accepted_endpoints + p'.dropped_endpoints ≡ p.accepted_endpoints + p.dropped_endpoints + n
  accepted : p'.accepted_endpoints ≡ p.accepted_endpoints + taken
  tasks : p'.outstanding_tasks ≡ p.outstanding_tasks
  bytes : p'.outstanding_bytes ≡ p.outstanding_bytes
  ended : p'.is_sealed ≡ p.is_sealed

deliver-counts :
    (is_open : ℕ → Bool) (send : ℕ → Option EndpointResult) (e : RoutedEndpoint)
    (p : DispatchProgress)
    → HasDelivered 1 (if is_willing is_open send e then 1 else 0) p (deliver is_open send e p)
unfolding deliver
deliver-counts is_open send e p =
    let sent : BroadcastReason = elim (send e.id) [
      | none ↦ BroadcastReason.send_rejected
      | some result ↦ endpoint_failure_reason result
    ] in
    let reason : BroadcastReason =
      if not (is_open e.id) then BroadcastReason.endpoint_closed else sent in
    let same : sent ≡ reason_of (send e.id) = elim (Option-cases (send e.id)) [
      | inl thrown ↦ rw thrown refl
      | inr (r, answered) ↦ rw answered refl
    ] in
    let takes : is_none sent ≡ takes_it (send e.id) =
      ap is_none same ∙ reason_of-takes_it (send e.id) in
    let agrees : is_none reason ≡ is_willing is_open send e = elim (Bool-cases (is_open e.id)) [
      | inl y ↦ simp y takes
      | inr n ↦ simp n refl
    ] in
    elim (Bool-cases (is_none reason)) [
      | inl delivered ↦
          let yes_it_is : is_willing is_open send e ≡ true = sym agrees ∙ delivered in
          simp (deliver, delivered, yes_it_is)
            (record {
              all = omega arith;
              accepted = refl;
              tasks = refl;
              bytes = refl;
              ended = refl;
            })
      | inr refused ↦
          let no_it_is_not : is_willing is_open send e ≡ false = sym agrees ∙ refused in
          simp (deliver, refused, no_it_is_not)
            (record {
              all = omega arith;
              accepted = omega arith;
              tasks = refl;
              bytes = refl;
              ended = refl;
            })
    ]

deliver_all-counts :
    (is_open : ℕ → Bool) (send : ℕ → Option EndpointResult) (es : List RoutedEndpoint)
    (p : DispatchProgress)
    → HasDelivered (length es) (willing is_open send es) p (deliver_all is_open send es p)
unfolding deliver_all
deliver_all-counts is_open send [] p = record {
  all = omega arith;
  accepted = omega arith;
  tasks = refl;
  bytes = refl;
  ended = refl;
}
deliver_all-counts is_open send (e ∷ es) p =
    let one = deliver-counts is_open send e p in
    let others = deliver_all-counts is_open send es (deliver is_open send e p) in
    record {
      all = omega (arith, one.all, others.all);
      accepted = omega (arith, one.accepted, others.accepted);
      tasks = others.tasks ∙ one.tasks;
      bytes = others.bytes ∙ one.bytes;
      ended = others.ended ∙ one.ended;
    }

last_task :
    (ended sealed_before : Bool) (left before : ℕ)
    → ended ≡ sealed_before
    → left ≡ before
    → 0 < before
    → (ended && left - 1 == 0) ≡ (sealed_before && (before == 1))
last_task true true left before e f p = ground (arith, f, p)
last_task false false left before e f p = refl
last_task true false left before e f p = absurd (cc)
last_task false true left before e f p = absurd (cc)

-- A task that has run to its end, whatever its endpoints answered: each of its endpoints became
-- accepted or dropped, accepted just if it is willing, its reservation is released everywhere,
-- once, and the progress is complete just if the dispatch has ended and this was its last task.
pub record IsRun (is_open : ℕ → Bool) (send : ℕ → Option EndpointResult) (t : Task)
    (o o' : OwnerOutstanding) (s s' : DispatcherState) (p p' : DispatchProgress) : Type 0 where
  pub counted :
      p'.accepted_endpoints + p'.dropped_endpoints
      ≡ p.accepted_endpoints + p.dropped_endpoints + length t.endpoints
  pub accepted : p'.accepted_endpoints ≡ p.accepted_endpoints + willing is_open send t.endpoints
  pub global_bytes : s'.global_bytes.current + t.bytes ≡ s.global_bytes.current
  pub global_tasks : s'.global_tasks.current + 1 ≡ s.global_tasks.current
  pub outstanding_tasks : p'.outstanding_tasks + 1 ≡ p.outstanding_tasks
  pub outstanding_bytes : p'.outstanding_bytes + t.bytes ≡ p.outstanding_bytes
  pub complete : p'.complete ≡ (p.is_sealed && (p.outstanding_tasks == 1))
  pub ended : p'.is_sealed ≡ p.is_sealed
  pub registry : s'.owners ≡ store_owner o' s.owners
  pub same_owner : o'.owner_id ≡ o.owner_id
  pub owner_tasks : o'.tasks.current + 1 ≡ o.tasks.current
  pub owner_bytes : o'.bytes.current + t.bytes ≡ o.bytes.current

pub run_task_lem :
    (is_open : ℕ → Bool) (send : ℕ → Option EndpointResult) (t : Task) (o : OwnerOutstanding)
    (s : DispatcherState) (p : DispatchProgress)
    → find_owner t.owner_id s.owners ≡ some o
    → t.bytes ≤ s.global_bytes.current
    → t.bytes ≤ o.bytes.current
    → 0 < o.tasks.current
    → 0 < s.global_tasks.current
    → 0 < p.outstanding_tasks
    → t.bytes ≤ p.outstanding_bytes
    → (s' : DispatcherState) × (p' : DispatchProgress) × (o' : OwnerOutstanding) × (run_task is_open
          send t s p
        ≡ some (s', p'))
      × IsRun is_open send t o o' s s' p p'
unfolding run_task release_reservation
run_task_lem is_open send t o s p found gb ob ot gt pt pb =
    let p₁ : DispatchProgress = deliver_all is_open send t.endpoints p in
    let sent = deliver_all-counts is_open send t.endpoints p in
    let et = sent.tasks in
    let eb = sent.bytes in
    let es = sent.ended in
    let (o', s', released, gb_same, gt_same, ob_same, ot_same, id_same, os_same) =
      release_lem o t.bytes s gb ob ot gt in
    let few_tasks : ltb p₁.outstanding_tasks 1 ≡ false = ground (arith, et, pt) in
    let few_bytes : ltb p₁.outstanding_bytes t.bytes ≡ false = ground (arith, eb, pb) in
    (
      record s' { owners = store_owner o' s'.owners },
      record p₁ {
        outstanding_tasks = p₁.outstanding_tasks - 1;
        outstanding_bytes = p₁.outstanding_bytes - t.bytes;
        complete = p₁.is_sealed && p₁.outstanding_tasks - 1 == 0;
      },
      o',
      simp (run_task, release_reservation, found, released, few_tasks, few_bytes) refl,
      record {
        counted = sent.all;
        accepted = sent.accepted;
        global_bytes = gb_same;
        global_tasks = gt_same;
        outstanding_tasks = omega (arith, et, pt);
        outstanding_bytes = omega (arith, eb, pb);
        complete =
            last_task p₁.is_sealed p.is_sealed p₁.outstanding_tasks p.outstanding_tasks es et pt;
        ended = es;
        registry = ap (store_owner o') os_same;
        same_owner = id_same;
        owner_tasks = ot_same;
        owner_bytes = ob_same;
      },
    )
