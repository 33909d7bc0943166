-- ===== src/Broadcast/Reservations/Rollback.antt =====
-- A reservation is made in every scope or in none.
use game_net_core.Prelude.{
  ℕ, ◌+◌, ◌-◌, ◌^◌, ◌≤◌, ◌<◌, ◌≡◌, ◌≢◌, ◌⊎◌, inl, inr, refl, Bool, true, false, ◌&&◌, some, ltb,
  ◌==◌, if◌then◌else◌, arith, Bool-cases,
}
use game_net_core.Broadcast.Router.{
  BroadcastPriority, BroadcastReason, reason_index, no_reason, owner_shutdown,
  owner_outstanding_task_limit, owner_outstanding_byte_limit, low_priority_soft_limit,
  global_outstanding_byte_limit,
}
use game_net_core.Broadcast.Reservations.{
  AtomicLimit, OwnerOutstanding, DispatcherState, fits_within, reserve, give_back, try_reserve,
  release, is_low,
}

-- Every scope counts one task and its bytes more, and keeps its limit.
pub record IsTaken (n : ℕ) (p : BroadcastPriority) (closes : Bool) (o : OwnerOutstanding)
    (s : DispatcherState) (why : BroadcastReason) (o' : OwnerOutstanding) (s' : DispatcherState)
    : Type 0 where
  pub reason : why ≡ no_reason
  pub admitted : s.accepting ≡ true
  pub not_closed : closes ≡ false
  pub accepts : s'.accepting ≡ true
  pub tasks : o'.tasks.current ≡ o.tasks.current + 1
  pub bytes : o'.bytes.current ≡ o.bytes.current + n
  pub global_tasks : s'.global_tasks.current ≡ s.global_tasks.current + 1
  pub global_bytes : s'.global_bytes.current ≡ s.global_bytes.current + n
  pub task_limit : o'.tasks.current ≤ o.task_limit
  pub byte_limit : 0 < n → o'.bytes.current ≤ o.byte_limit
  pub global_limit :
      0 < n
      → s'.global_bytes.current
        ≤ (if is_low p then s.low_priority_byte_limit else s.global_byte_limit)
  pub same_owner : o'.owner_id ≡ o.owner_id
  pub same_owners : s'.owners ≡ s.owners

-- Every scope counts what it did before, and a reason is given.
pub record IsRolledBack (o : OwnerOutstanding) (s : DispatcherState) (why : BroadcastReason)
    (o' : OwnerOutstanding) (s' : DispatcherState) : Type 0 where
  pub reason : why ≢ no_reason
  pub tasks : o'.tasks.current ≡ o.tasks.current
  pub bytes : o'.bytes.current ≡ o.bytes.current
  pub global_tasks : s'.global_tasks.current ≡ s.global_tasks.current
  pub global_bytes : s'.global_bytes.current ≡ s.global_bytes.current
  pub same_owner : o'.owner_id ≡ o.owner_id
  pub same_owners : s'.owners ≡ s.owners

reserve-accepted :
    (amount limit : ℕ) (l : AtomicLimit)
    → (reserve amount limit l).0.is_accepted ≡ true
    → ((reserve amount limit l).1.current ≡ l.current + amount)
      × (0 < amount → (reserve amount limit l).1.current ≤ limit)
unfolding reserve fits_within
reserve-accepted amount limit l e = ground arith

reserve-refused :
    (amount limit : ℕ) (l : AtomicLimit)
    → (reserve amount limit l).0.is_accepted ≡ false
    → (reserve amount limit l).1.current ≡ l.current
unfolding reserve fits_within
reserve-refused amount limit l e = ground arith

-- A counter that has room takes one more.
reserve-room :
    (limit : ℕ) (l : AtomicLimit) → l.current < limit → (reserve 1 limit l).0.is_accepted ≡ true
unfolding reserve fits_within
reserve-room limit l p = ground arith

pub give_back_lem :
    (amount : ℕ) (l : AtomicLimit)
    → amount ≤ l.current
    → (l' : AtomicLimit) × (give_back amount l ≡ some l') × (l'.current + amount ≡ l.current)
unfolding give_back
give_back_lem amount l p = elim (Bool-cases (amount == 0)) [
  | inl y ↦ (l, rw y refl, ground (arith, y))
  | inr n ↦
      let fits : ltb l.current amount ≡ false = ground (arith, p) in
      (record l { current = l.current - amount }, rw (n, fits) refl, omega (arith, p))
]

no_other :
    (b : Bool) → (if b then low_priority_soft_limit else global_outstanding_byte_limit) ≢ no_reason
unfolding reason_index
no_other true e = absurd (cc)
no_other false e = absurd (cc)

rolled_back :
    (o : OwnerOutstanding) (s : DispatcherState) (why : BroadcastReason) (t b g : AtomicLimit)
    (a : Bool)
    → why ≢ no_reason
    → t.current ≡ o.tasks.current
    → b.current ≡ o.bytes.current
    → g.current ≡ s.global_bytes.current
    → IsRolledBack o s why
        (record o { tasks = t; bytes = b })
        (record s { global_bytes = g; accepting = a })
rolled_back o s why t b g a given et eb eg = record {
  reason = given;
  tasks = et;
  bytes = eb;
  global_tasks = refl;
  global_bytes = eg;
  same_owner = refl;
  same_owners = refl;
}

-- A reservation neither underflows a counter nor overflows the number of tasks, if that is below its
-- largest value. It is made in the owner's and the global counts of tasks and of bytes, within their
-- limits and only if the dispatcher accepts at its start and no other thread has closed admission by
-- its end; or a reason is given and all four counts are what
-- they were.
pub try_reserve_lem :
    (o : OwnerOutstanding) (bytes : ℕ) (p : BroadcastPriority) (closes : Bool) (s : DispatcherState)
    → s.global_tasks.current < 2 ^ 64 - 1
    → (reason : BroadcastReason) × (o' : OwnerOutstanding) × (s' : DispatcherState) × (try_reserve o
          bytes p closes s
        ≡ some (reason, o', s'))
      × (IsTaken bytes p closes o s reason o' s' ⊎ IsRolledBack o s reason o' s')
unfolding try_reserve
try_reserve_lem o bytes p closes s room =
    let effective : ℕ = if is_low p then s.low_priority_byte_limit else s.global_byte_limit in
    let (task, tasks) = reserve 1 o.task_limit o.tasks in
    let (owner, owner_bytes) = reserve bytes o.byte_limit o.bytes in
    let (global, global_bytes) = reserve bytes effective s.global_bytes in
    let (aggregate, global_tasks) = reserve 1 (2 ^ 64 - 1) s.global_tasks in
    elim (Bool-cases s.accepting) [
      | inr closed ↦ (
        owner_shutdown,
        o,
        s,
        rw (try_reserve, closed) refl,
        inr (
            rolled_back o s owner_shutdown o.tasks o.bytes s.global_bytes s.accepting
              (λ e. absurd (cc)) refl refl refl),
      )
      | inl accepts ↦ elim (Bool-cases task.is_accepted) [
        | inr no_task ↦ (
          owner_outstanding_task_limit,
          record o { tasks = tasks },
          s,
          simp (try_reserve, accepts, no_task) refl,
          inr (
              rolled_back o s owner_outstanding_task_limit tasks o.bytes s.global_bytes s.accepting
                (λ e. absurd (cc)) (reserve-refused 1 o.task_limit o.tasks no_task) refl refl),
        )
        | inl one_task ↦
            let (counted, within) = reserve-accepted 1 o.task_limit o.tasks one_task in
            let (t, t_back, t_same) = give_back_lem 1 tasks (omega (arith, counted)) in
            elim (Bool-cases owner.is_accepted) [
              | inr no_bytes ↦ (
                owner_outstanding_byte_limit,
                record o { tasks = t; bytes = owner_bytes },
                s,
                simp (try_reserve, accepts, one_task, no_bytes, t_back) refl,
                inr (
                    rolled_back o s owner_outstanding_byte_limit t owner_bytes s.global_bytes
                      s.accepting (λ e. absurd (cc)) (omega (arith, t_same, counted))
                      (reserve-refused bytes o.byte_limit o.bytes no_bytes) refl),
              )
              | inl some_bytes ↦
                  let (b_counted, b_within) =
                    reserve-accepted bytes o.byte_limit o.bytes some_bytes in
                  let (b, b_back, b_same) =
                    give_back_lem bytes owner_bytes (omega (arith, b_counted)) in
                  elim (Bool-cases global.is_accepted) [
                    | inr no_global ↦
                        let soft =
                          is_low p
                          && fits_within global.observed_current bytes s.global_byte_limit in
                        let why : BroadcastReason =
                          if soft then low_priority_soft_limit else global_outstanding_byte_limit in
                        (
                          why,
                          record o { tasks = t; bytes = b },
                          record s { global_bytes = global_bytes },
                          simp
                              (
                                try_reserve, accepts, one_task, some_bytes, no_global, t_back,
                                b_back,
                              )
                              refl,
                          inr (
                              rolled_back o s why t b global_bytes s.accepting (no_other soft)
                                (omega (arith, t_same, counted)) (omega (arith, b_same, b_counted))
                                (reserve-refused bytes effective s.global_bytes no_global)),
                        )
                    | inl some_global ↦
                        let (g_counted, g_within) =
                          reserve-accepted bytes effective s.global_bytes some_global in
                        let (g, g_back, g_same) =
                          give_back_lem bytes global_bytes (omega (arith, g_counted)) in
                        elim (Bool-cases closes) [
                          | inl shut ↦ (
                            owner_shutdown,
                            record o { tasks = t; bytes = b },
                            record s { global_bytes = g; accepting = false },
                            simp
                                (
                                  try_reserve, accepts, one_task, some_bytes, some_global, shut,
                                  t_back, b_back, g_back,
                                )
                                refl,
                            inr (
                                rolled_back o s owner_shutdown t b g false (λ e. absurd (cc))
                                  (omega (arith, t_same, counted))
                                  (omega (arith, b_same, b_counted))
                                  (omega (arith, g_same, g_counted))),
                          )
                          | inr stays ↦
                              let fits = reserve-room (2 ^ 64 - 1) s.global_tasks room in
                              (
                                no_reason,
                                record o { tasks = tasks; bytes = owner_bytes },
                                record s {
                                  global_bytes = global_bytes;
                                  global_tasks = global_tasks;
                                },
                                simp
                                    (
                                      try_reserve, accepts, one_task, some_bytes, some_global,
                                      stays, fits,
                                    )
                                    refl,
                                inl (record {
                                  reason = refl;
                                  admitted = accepts;
                                  not_closed = stays;
                                  accepts = accepts;
                                  tasks = counted;
                                  bytes = b_counted;
                                  global_tasks =
                                      (reserve-accepted 1 (2 ^ 64 - 1) s.global_tasks fits).0;
                                  global_bytes = g_counted;
                                  task_limit = within (omega arith);
                                  byte_limit = b_within;
                                  global_limit = g_within;
                                  same_owner = refl;
                                  same_owners = refl;
                                }),
                              )
                        ]
                  ]
            ]
      ]
    ]

-- What was reserved can be released.
pub release_lem :
    (o : OwnerOutstanding) (bytes : ℕ) (s : DispatcherState)
    → bytes ≤ s.global_bytes.current
    → bytes ≤ o.bytes.current
    → 0 < o.tasks.current
    → 0 < s.global_tasks.current
    → (o' : OwnerOutstanding) × (s' : DispatcherState) × (release o bytes s ≡ some (o', s'))
      × (s'.global_bytes.current + bytes ≡ s.global_bytes.current)
      × (s'.global_tasks.current + 1 ≡ s.global_tasks.current)
      × (o'.bytes.current + bytes ≡ o.bytes.current)
      × (o'.tasks.current + 1 ≡ o.tasks.current)
      × (o'.owner_id ≡ o.owner_id)
      × (s'.owners ≡ s.owners)
unfolding release
release_lem o bytes s p q r u =
    let (g, g_back, g_same) = give_back_lem bytes s.global_bytes p in
    let (b, b_back, b_same) = give_back_lem bytes o.bytes q in
    let (t, t_back, t_same) = give_back_lem 1 o.tasks r in
    let (n, n_back, n_same) = give_back_lem 1 s.global_tasks u in
    (
      record o { tasks = t; bytes = b },
      record s { global_bytes = g; global_tasks = n },
      simp (release, g_back, b_back, t_back, n_back) refl,
      g_same,
      n_same,
      b_same,
      t_same,
      refl,
      refl,
    )
