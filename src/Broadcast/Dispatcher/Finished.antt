-- ===== src/Broadcast/Dispatcher/Finished.antt =====
-- The end of the tasks that a dispatch posts.
use game_net_core.Prelude.{
  ℕ, zero, suc, ◌+◌, ◌^◌, ◌≤◌, ◌<◌, ◌≡◌, inl, inr, refl, sym, ap, subst, ◌∙◌, Bool, true, Option,
  some, List, [], ◌∷◌, ◌++◌, ◌==◌, arith, length, Bool-cases, Option-cases,
}
use game_net_core.Broadcast.Router.{BroadcastPlan, RoutedEndpoint}
use game_net_core.Broadcast.Router.Limits.{routed}
use game_net_core.Broadcast.Reservations.{
  DispatchLimits, DispatcherState, OwnerOutstanding, coherent_limits, find_owner, store_owner,
}
use game_net_core.Broadcast.Reservations.Registry.{
  ascends, find_owner-id, find_owner-store_owner, store_owner-ascends,
}
use game_net_core.Broadcast.Progress.{EndpointResult, Task, Dispatching, DispatchProgress}
use game_net_core.Broadcast.Dispatcher.{Outside, dispatch}
use game_net_core.Broadcast.Delivery.{run_task, pick_task, run_tasks}
use game_net_core.Broadcast.Dispatcher.Accounted.{held_bytes, held_endpoints}
use game_net_core.Broadcast.Dispatcher.Owned.{
  marked_in, tasks_of, bytes_of, tasks_of-append, bytes_of-append,
}
use game_net_core.Broadcast.Dispatcher.Covered.{IsCovered, Held, tasks_at, bytes_at}
use game_net_core.Broadcast.Dispatcher.Plans.{dispatch_lem, marked_routed}
use game_net_core.Broadcast.Dispatcher.Tasks.{run_task_lem, willing}

-- The endpoints of the tasks that take the payload.
abbrev pub willing_in : (ℕ → Bool) → (ℕ → Option EndpointResult) → List Task → ℕ
willing_in is_open send [] = 0
willing_in is_open send (t ∷ ts) = willing is_open send t.endpoints + willing_in is_open send ts

-- After a dispatch on the given state, with these tasks left to run: of `total` endpoints in all,
-- `sent` take the payload.
pub record IsFinishing (is_open : ℕ → Bool) (send : ℕ → Option EndpointResult)
    (before : DispatcherState) (total sent : ℕ) (ts : List Task) (s : DispatcherState)
    (p : DispatchProgress) : Type 0 where
  pub outstanding_tasks : p.outstanding_tasks ≡ length ts
  pub outstanding_bytes : p.outstanding_bytes ≡ held_bytes ts
  pub global_tasks : s.global_tasks.current ≡ before.global_tasks.current + length ts
  pub global_bytes : s.global_bytes.current ≡ before.global_bytes.current + held_bytes ts
  pub endpoints : p.accepted_endpoints + p.dropped_endpoints + held_endpoints ts ≡ total
  pub accepted : p.accepted_endpoints + willing_in is_open send ts ≡ sent
  pub ended : p.is_sealed ≡ true
  pub complete : p.complete ≡ (length ts == 0)
  pub covered : IsCovered (tasks_at before.owners) (bytes_at before.owners) s.owners ts

-- A task in the list is found with its owner.
middle-Held :
    {bt bb : ℕ → ℕ} (xs ys : List Task) (t : Task) (os : List OwnerOutstanding)
    → IsCovered bt bb os (xs ++ t ∷ ys)
    → (o : OwnerOutstanding) × (find_owner t.owner_id os ≡ some o)
      × (t.bytes ≤ o.bytes.current)
      × (0 < o.tasks.current)
middle-Held {bt} {bb} xs ys t os c =
    let me : (t.owner_id == t.owner_id) ≡ true = ground arith in
    let tasks = tasks_of-append t.owner_id xs (t ∷ ys) in
    let bytes = bytes_of-append t.owner_id xs (t ∷ ys) in
    let held = c.held t.owner_id in
    elim (Option-cases (find_owner t.owner_id os)) [
      | inl unknown ↦
          let (none_before, no_bytes_before, no_tasks, no_bytes) =
            subst
              (λ f.
                Held (bt t.owner_id) (bb t.owner_id) f (tasks_of t.owner_id (xs ++ t ∷ ys))
                  (bytes_of t.owner_id (xs ++ t ∷ ys)))
              unknown held in
          absurd (ground (arith, tasks, me, no_tasks))
      | inr (o, found) ↦
          let (some_tasks, some_bytes) =
            subst
              (λ f.
                Held (bt t.owner_id) (bb t.owner_id) f (tasks_of t.owner_id (xs ++ t ∷ ys))
                  (bytes_of t.owner_id (xs ++ t ∷ ys)))
              found held in
          (o, found, ground (arith, bytes, me, some_bytes), ground (arith, tasks, me, some_tasks))
    ]

-- The registry still covers the other tasks.
released-IsCovered :
    {bt bb : ℕ → ℕ} (xs ys : List Task) (t : Task) (o o' : OwnerOutstanding)
    (os : List OwnerOutstanding)
    → find_owner t.owner_id os ≡ some o
    → o'.owner_id ≡ o.owner_id
    → o'.tasks.current + 1 ≡ o.tasks.current
    → o'.bytes.current + t.bytes ≡ o.bytes.current
    → IsCovered bt bb os (xs ++ t ∷ ys)
    → IsCovered bt bb (store_owner o' os) (xs ++ ys)
released-IsCovered {bt} {bb} xs ys t o o' os found same et eb c =
    let id = t.owner_id in
    let me : o'.owner_id ≡ id = same ∙ find_owner-id id o os found in
    let known : find_owner o'.owner_id os ≡ some o = ap (λ k. find_owner k os) me ∙ found in
    record {
      ordered = store_owner-ascends o' 0 os c.ordered;
      held = λ k.
          let before = tasks_of-append k xs (t ∷ ys) in
          let after = tasks_of-append k xs ys in
          let before' = bytes_of-append k xs (t ∷ ys) in
          let after' = bytes_of-append k xs ys in
          let stored = find_owner-store_owner o o' k os known in
          elim (Bool-cases (id == k)) [
            | inl y ↦
                let here : find_owner k os ≡ some o =
                  subst (λ j. find_owner j os ≡ some o) (ground (arith, y)) found in
                let now_here : find_owner k (store_owner o' os) ≡ some o' =
                  stored ∙ rw (me, y) refl in
                let (n, b) =
                  subst
                    (λ f.
                      Held (bt k) (bb k) f (tasks_of k (xs ++ t ∷ ys)) (bytes_of k (xs ++ t ∷ ys)))
                    here (c.held k) in
                subst (λ f. Held (bt k) (bb k) f (tasks_of k (xs ++ ys)) (bytes_of k (xs ++ ys)))
                  (sym now_here)
                  (
                    ground (arith, before, after, y, n, et),
                    ground (arith, before', after', y, b, eb),
                  )
            | inr other ↦
                let elsewhere : find_owner k (store_owner o' os) ≡ find_owner k os =
                  stored ∙ rw (me, other) refl in
                let t_same : tasks_of k (xs ++ t ∷ ys) ≡ tasks_of k (xs ++ ys) =
                  ground (arith, before, after, other) in
                let b_same : bytes_of k (xs ++ t ∷ ys) ≡ bytes_of k (xs ++ ys) =
                  ground (arith, before', after', other) in
                subst (λ f. Held (bt k) (bb k) f (tasks_of k (xs ++ ys)) (bytes_of k (xs ++ ys)))
                  (sym elsewhere)
                  (subst (λ a. Held (bt k) (bb k) (find_owner k os) a (bytes_of k (xs ++ ys)))
                    t_same
                    (subst (λ a. Held (bt k) (bb k) (find_owner k os) (tasks_of k (xs ++ t ∷ ys)) a)
                      b_same (c.held k)))
          ];
    }

held_bytes-middle :
    (xs ys : List Task) (t : Task) → held_bytes (xs ++ t ∷ ys) ≡ t.bytes + held_bytes (xs ++ ys)
held_bytes-middle [] ys t = refl
held_bytes-middle (x ∷ xs) ys t = omega (arith, held_bytes-middle xs ys t)

held_endpoints-middle :
    (xs ys : List Task) (t : Task)
    → held_endpoints (xs ++ t ∷ ys) ≡ length t.endpoints + held_endpoints (xs ++ ys)
held_endpoints-middle [] ys t = refl
held_endpoints-middle (x ∷ xs) ys t = omega (arith, held_endpoints-middle xs ys t)

length-middle : (xs ys : List Task) (t : Task) → length (xs ++ t ∷ ys) ≡ suc (length (xs ++ ys))
length-middle [] ys t = refl
length-middle (x ∷ xs) ys t = ap suc (length-middle xs ys t)

willing_in-middle :
    (is_open : ℕ → Bool) (send : ℕ → Option EndpointResult) (xs ys : List Task) (t : Task)
    → willing_in is_open send (xs ++ t ∷ ys)
      ≡ willing is_open send t.endpoints + willing_in is_open send (xs ++ ys)
willing_in-middle is_open send [] ys t = refl
willing_in-middle is_open send (x ∷ xs) ys t = omega (arith, willing_in-middle is_open send xs ys t)

-- Any of the tasks left may run next.
run_task-IsFinishing :
    (is_open : ℕ → Bool) (send : ℕ → Option EndpointResult) (before : DispatcherState)
    (total sent : ℕ) (xs ys : List Task) (t : Task) (s : DispatcherState) (p : DispatchProgress)
    → IsFinishing is_open send before total sent (xs ++ t ∷ ys) s p
    → (s' : DispatcherState) × (p' : DispatchProgress) × (run_task is_open send t s p
        ≡ some (s', p'))
      × IsFinishing is_open send before total sent (xs ++ ys) s' p'
run_task-IsFinishing is_open send before total sent xs ys t s p f =
    let bytes = held_bytes-middle xs ys t in
    let endpoints = held_endpoints-middle xs ys t in
    let tasks = length-middle xs ys t in
    let takers = willing_in-middle is_open send xs ys t in
    let (o, found, o_bytes, o_tasks) = middle-Held xs ys t s.owners f.covered in
    let (s', p', o', ran, r) =
      run_task_lem is_open send t o s p found (omega (arith, f.global_bytes, bytes)) o_bytes o_tasks
        (omega (arith, f.global_tasks, tasks)) (omega (arith, f.outstanding_tasks, tasks))
        (omega (arith, f.outstanding_bytes, bytes)) in
    (
      s',
      p',
      ran,
      record {
        outstanding_tasks = omega (arith, r.outstanding_tasks, f.outstanding_tasks, tasks);
        outstanding_bytes = omega (arith, r.outstanding_bytes, f.outstanding_bytes, bytes);
        global_tasks = omega (arith, r.global_tasks, f.global_tasks, tasks);
        global_bytes = omega (arith, r.global_bytes, f.global_bytes, bytes);
        endpoints = omega (arith, r.counted, f.endpoints, endpoints);
        accepted = omega (arith, r.accepted, f.accepted, takers);
        ended = r.ended ∙ f.ended;
        complete = r.complete ∙ ground (arith, f.ended, f.outstanding_tasks, tasks);
        covered =
            subst (λ os. IsCovered (tasks_at before.owners) (bytes_at before.owners) os (xs ++ ys))
              (sym r.registry)
              (released-IsCovered xs ys t o o' s.owners found r.same_owner r.owner_tasks
                r.owner_bytes f.covered);
      },
    )

pick_task-splits :
    (k : ℕ) (t : Task) (ts : List Task)
    → let (v, rest) = pick_task k t ts in
      (xs : List Task) × (ys : List Task) × (t ∷ ts ≡ xs ++ v ∷ ys) × (rest ≡ xs ++ ys)
pick_task-splits k t [] = ([], [], refl, refl)
pick_task-splits zero t (u ∷ us) = ([], u ∷ us, refl, refl)
pick_task-splits (suc k) t (u ∷ us) =
    let (xs, ys, all, rest) = pick_task-splits k u us in
    (t ∷ xs, ys, ap (◌∷◌ t) all, ap (◌∷◌ t) rest)

run_tasks-IsFinishing :
    (picks : ℕ → ℕ) (is_open : ℕ → Bool) (send : ℕ → Option EndpointResult) (n : ℕ)
    (before : DispatcherState) (total sent : ℕ) (ts : List Task) (s : DispatcherState)
    (p : DispatchProgress)
    → length ts ≡ n
    → IsFinishing is_open send before total sent ts s p
    → (s' : DispatcherState) × (p' : DispatchProgress) × (run_tasks picks is_open send n ts s p
        ≡ some ([], s', p'))
      × IsFinishing is_open send before total sent [] s' p'
unfolding run_tasks
run_tasks-IsFinishing picks is_open send zero before total sent [] s p e f = (s, p, refl, f)
run_tasks-IsFinishing picks is_open send zero before total sent (t ∷ ts) s p e f =
    absurd (omega (arith, e))
run_tasks-IsFinishing picks is_open send (suc n) before total sent [] s p e f =
    absurd (omega (arith, e))
run_tasks-IsFinishing picks is_open send (suc n) before total sent (t ∷ ts) s p e f =
    let (next, rest) = pick_task (picks n) t ts in
    let (xs, ys, all, left) = pick_task-splits (picks n) t ts in
    let (s₁, p₁, ran, f₁) =
      run_task-IsFinishing is_open send before total sent xs ys next s p
        (subst (λ us. IsFinishing is_open send before total sent us s p) all f) in
    let fewer : length rest ≡ n =
      ap length left ∙ omega (arith, length-middle xs ys next, ap length all, e) in
    let (s₂, p₂, others, f₂) =
      run_tasks-IsFinishing picks is_open send n before total sent rest s₁ p₁ fewer
        (subst (λ us. IsFinishing is_open send before total sent us s₁ p₁) (sym left) f₁) in
    (s₂, p₂, simp (run_tasks, ran) others, f₂)

-- With coherent limits, a registry in order, and fewer tasks than a counter holds: after a
-- dispatch, its tasks run to the end in any order, whatever their endpoints answer. The endpoints
-- accepted and dropped are then as many as those of the plan, of which the tasks held none more
-- often than it does; those accepted are as many as the tasks hold that are open and whose own
-- `send` accepts. The progress is sealed and complete with nothing outstanding; the dispatcher, and
-- each owner in its registry, has as many tasks and bytes outstanding as before.
pub dispatch-run_tasks :
    (limits : DispatchLimits) (outside : Outside) (plan : BroadcastPlan) (s : DispatcherState)
    (picks : ℕ → ℕ) (is_open : ℕ → Bool) (send : ℕ → Option EndpointResult)
    → coherent_limits limits ≡ true
    → ascends 0 s.owners ≡ true
    → s.global_tasks.current + (plan.dropped + routed plan.batches) < 2 ^ 64
    → (d : Dispatching) × (s' : DispatcherState) × (p' : DispatchProgress) × (dispatch limits
          outside
          (some plan)
          s
        ≡ some d)
      × (run_tasks picks is_open send (length d.tasks) d.tasks d.state d.progress
          ≡ some ([], s', p'))
      × IsFinishing is_open send s
          (plan.dropped + routed plan.batches)
          (willing_in is_open send d.tasks)
          []
          s'
          p'
      × ((f : RoutedEndpoint → Bool) → marked_in f d.tasks ≤ marked_routed f plan.batches)
dispatch-run_tasks limits outside plan s picks is_open send fine ordered room =
    let (d, dispatched, a, sealed, complete, covered, from) =
      dispatch_lem limits outside plan s fine ordered room in
    let total = plan.dropped + routed plan.batches in
    let sent = willing_in is_open send d.tasks in
    let f : IsFinishing is_open send s total sent d.tasks d.state d.progress = record {
      outstanding_tasks = a.outstanding_tasks;
      outstanding_bytes = a.outstanding_bytes;
      global_tasks = a.global_tasks;
      global_bytes = a.global_bytes;
      endpoints = omega (arith, a.none_sent, a.same_dropped, a.endpoints_held, a.all_seen);
      accepted = omega (arith, a.none_sent);
      ended = sealed;
      complete = complete;
      covered = covered;
    } in
    let (s', p', ran, f') =
      run_tasks-IsFinishing picks is_open send (length d.tasks) s total sent d.tasks d.state
        d.progress refl f in
    (d, s', p', dispatched, ran, f', from)
