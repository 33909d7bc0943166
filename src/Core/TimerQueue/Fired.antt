-- ===== src/Core/TimerQueue/Fired.antt =====
-- Which callbacks `handleExpired` runs.
use game_net_core.Prelude.{
  ℕ, zero, suc, ◌≤◌, ◌<◌, ◌≡◌, inl, inr, refl, ap, ◌∙◌, Bool, true, false, List, [], ◌∷◌, leb, ◌==◌,
  arith, Bool-cases, length, length-append,
}
use game_net_core.Core.TimerQueue.{
  TimerQueue, Timers, update_timer, Keys, Action, take_due, sequences, take_out, get_expired, fire,
  run_callbacks, first_ready, handle_expired,
}
use game_net_core.Core.TimerQueue.Indexed.{
  unknown, waiting, running, stopped, AreIndexed, times, count, count-append,
}
use game_net_core.Core.TimerQueue.Expired.{
  take_due-times, get_expired-AreIndexed, reset-AreIndexed, run_callbacks-AreIndexed,
}

length-take_due : (now n : ℕ) (ks : Keys) → length (sequences (take_due now n ks).0) ≤ n
unfolding take_due
length-take_due now zero ks = omega arith
length-take_due now (suc n) [] = omega arith
length-take_due now (suc n) ((k, t) ∷ ks) = elim (Bool-cases (leb t now)) [
  | inl due ↦ rw (take_due, due) (omega (arith, length-take_due now n ks))
  | inr late ↦ rw (take_due, late) (omega arith)
]

take_due-late :
    (now n s t : ℕ) (ks : Keys) → now < t → times s ks ≡ t ∷ [] → times s (take_due now n ks).0 ≡ []
unfolding take_due
take_due-late now zero s t ks p e = refl
take_due-late now (suc n) s t [] p e = refl
take_due-late now (suc n) s t ((k, u) ∷ ks) p e = elim (Bool-cases (leb u now)) [
  | inr late ↦ rw (take_due, late) refl
  | inl due ↦ elim (Bool-cases (k == s)) [
    | inl y ↦ let head : u ≡ t = ground (arith, y, e) in absurd (ground (arith, due, head, p))
    | inr other ↦
        let e' : times s ks ≡ t ∷ [] = ground (arith, other, e) in
        rw (take_due, due, other) (take_due-late now n s t ks p e')
  ]
]

count_taken :
    (now n s : ℕ) (q : TimerQueue)
    → count s (get_expired now n q).0 ≡ length (times s (take_due now n q.timers).0)
unfolding get_expired
count_taken now n s q = (take_due-times now n s q.timers).1

length_taken : (now n : ℕ) (q : TimerQueue) → length (get_expired now n q).0 ≤ n
unfolding get_expired
length_taken now n q = length-take_due now n q.timers

-- A timer is taken out once, and only if it is due.
count-get_expired :
    (now n s : ℕ) (q : TimerQueue)
    → AreIndexed [] q
    → let taken = (get_expired now n q).0 in
      (count s taken ≤ 1)
      × ((t : ℕ) → times s q.timers ≡ t ∷ [] → now < t → count s taken ≡ 0)
      × (times s q.timers ≡ [] → count s taken ≡ 0)
count-get_expired now n s q v =
    let counted = count_taken now n s q in
    let (both, again) = take_due-times now n s q.timers in
    let parts =
      length-append (times s (take_due now n q.timers).0) (times s (take_due now n q.timers).1) in
    let total = ap length both in
    (
      elim (v s) [
        | unknown k h z ↦ omega (arith, counted, parts, total, ap length h)
        | waiting k h z i c b ↦ omega (arith, counted, parts, total, ap length h)
        | running k h z i b ↦ omega (arith, counted, parts, total, ap length h)
        | stopped k h z c b ↦ omega (arith, counted, parts, total, ap length h)
      ],
      λ t h late. counted ∙ ap length (take_due-late now n s t q.timers late h),
      λ h. omega (arith, counted, parts, total, ap length h),
    )

-- The first key is that of a timer that waits.
first-waits :
    (e t : ℕ) (ks : Keys) (q : TimerQueue)
    → AreIndexed [] q
    → q.timers ≡ (e, t) ∷ ks
    → ((q.heap e).expiration ≡ t) × ((q.heap e).canceled ≡ false)
first-waits e t ks q v at =
    let me : (e == e) ≡ true = ground arith in
    let held : times e q.timers ≡ t ∷ times e ks = rw (at, me) refl in
    elim (v e) [
      | unknown k h z ↦ absurd (cc (h, held))
      | waiting k h z i c b ↦ (ground (arith, h, held), c)
      | running k h z i b ↦ absurd (omega (arith, z))
      | stopped k h z c b ↦ absurd (omega (arith, z))
    ]

take_out-canceled :
    (ss : List ℕ) (heap : Timers) (s : ℕ) → (take_out ss heap s).canceled ≡ (heap s).canceled
unfolding take_out
take_out-canceled [] heap s = refl
take_out-canceled (k ∷ ss) heap s =
    take_out-canceled ss (update_timer heap k (record (heap k) { in_queue = false })) s
    ∙ elim (Bool-cases (k == s)) [
      | inr n ↦ rw n refl
      | inl y ↦ let same : k ≡ s = ground (arith, y) in rw (y, same) refl
    ]

get_expired-canceled :
    (now n s : ℕ) (q : TimerQueue) → ((get_expired now n q).1.heap s).canceled ≡ (q.heap s).canceled
unfolding get_expired
get_expired-canceled now n s q = take_out-canceled (sequences (take_due now n q.timers).0) q.heap s

ready-first :
    (now e t : ℕ) (ks : Keys) (q : TimerQueue)
    → q.timers ≡ (e, t) ∷ ks
    → leb (q.heap e).expiration now ≡ true
    → first_ready now q ≡ true
unfolding first_ready
ready-first now e t ks q at due = simp (first_ready, at) due

get_expired-first :
    (now n e t : ℕ) (ks : Keys) (q : TimerQueue)
    → q.timers ≡ (e, t) ∷ ks
    → t ≤ now
    → (others : List ℕ) × ((get_expired now (suc n) q).0 ≡ e ∷ others)
unfolding get_expired take_due
get_expired-first now n e t ks q at due =
    let first_due : leb t now ≡ true = ground (arith, due) in
    (sequences (take_due now n ks).0, simp (get_expired, at, take_due, first_due) refl)

module _ {S : Type 0} (callback : S → ℕ → List Action × Bool × S) where
  count-fire :
      (id : ℕ) (q : TimerQueue) (s : S) (e : ℕ)
      → (count id (fire callback q s e).2 ≤ count id (e ∷ []))
        × (length (fire callback q s e).2 ≤ 1)
  unfolding fire
  count-fire id q s e = elim (Bool-cases (q.heap e).canceled) [
    | inl stop ↦ simp (fire, stop) (omega arith, omega arith)
    | inr live ↦ simp (fire, live) (omega arith, omega arith)
  ]

  pub count-run_callbacks :
      (id : ℕ) (q : TimerQueue) (s : S) (es : List ℕ)
      → (count id (run_callbacks callback q s es).2 ≤ count id es)
        × (length (run_callbacks callback q s es).2 ≤ length es)
  unfolding run_callbacks
  count-run_callbacks id q s [] = (omega arith, omega arith)
  count-run_callbacks id q s (e ∷ es) =
      let now = fire callback q s e in
      let later = run_callbacks callback now.0 now.1 es in
      let (fewer, shorter) = count-run_callbacks id now.0 now.1 es in
      let (once, one) = count-fire id q s e in
      let counted = count-append id now.2 later.2 in
      let batch = count-append id (e ∷ []) es in
      let measured = length-append now.2 later.2 in
      (omega (arith, counted, fewer, once, batch), omega (arith, measured, shorter, one))

  -- When timers expire, no timer runs twice and none runs before it is due; no more run than are
  -- taken out, which are no more than allowed; and every timer is in one status again.
  pub handle_expired_lem :
      (now max_count reset_at counted_at : ℕ) (q : TimerQueue) (s : S)
      → AreIndexed [] q
      → let (q', s', fired, drained, remaining) =
          handle_expired callback now max_count reset_at counted_at q s in
        AreIndexed [] q'
        × (length fired ≤ drained)
        × (drained ≤ max_count)
        × ((id : ℕ) → count id fired ≤ 1)
        × ((id t : ℕ) → times id q.timers ≡ t ∷ [] → now < t → count id fired ≡ 0)
        × ((id : ℕ) → times id q.timers ≡ [] → count id fired ≡ 0)
  unfolding handle_expired
  handle_expired_lem now max_count reset_at counted_at q s v =
      let (taken, q₁) = get_expired now max_count q in
      let batch = run_callbacks callback q₁ s taken in
      elim (Bool-cases (first_ready now q)) [
        | inr idle ↦
            rw (handle_expired, idle)
              (v, omega arith, omega arith, λ id. omega arith, λ id t h late. refl, λ id h. refl)
        | inl ready ↦
            let (fewer, shorter) = count-run_callbacks 0 q₁ s taken in
            rw (handle_expired, ready)
              (
                reset-AreIndexed reset_at taken batch.0 (
                    run_callbacks-AreIndexed callback taken q₁ s taken (λ e. omega arith)
                      (get_expired-AreIndexed now max_count q v)),
                shorter,
                length_taken now max_count q,
                λ id. omega (
                  arith,
                  (count-get_expired now max_count id q v).0,
                  (count-run_callbacks id q₁ s taken).0,
                ),
                λ id t h late. omega (
                  arith,
                  (count-get_expired now max_count id q v).1 t h late,
                  (count-run_callbacks id q₁ s taken).0,
                ),
                λ id h. omega (
                  arith,
                  (count-get_expired now max_count id q v).2 h,
                  (count-run_callbacks id q₁ s taken).0,
                ),
              )
      ]

  run_callbacks-first :
      (q : TimerQueue) (s : S) (e : ℕ) (es : List ℕ)
      → (q.heap e).canceled ≡ false
      → (rest : List ℕ) × ((run_callbacks callback q s (e ∷ es)).2 ≡ e ∷ rest)
  unfolding run_callbacks fire
  run_callbacks-first q s e es live = (
    (run_callbacks callback (fire callback q s e).0 (fire callback q s e).1 es).2,
    simp (run_callbacks, fire, live) refl,
  )

  -- If the first timer is due, and one may be taken out, then its callback is the first to run.
  pub handle_expired-first :
      (now max_count reset_at counted_at e t : ℕ) (ks : Keys) (q : TimerQueue) (s : S)
      → AreIndexed [] q
      → q.timers ≡ (e, t) ∷ ks
      → t ≤ now
      → 0 < max_count
      → (rest : List ℕ) × ((handle_expired callback now max_count reset_at counted_at q s).2
          ≡ e ∷ rest)
  unfolding handle_expired
  handle_expired-first now zero reset_at counted_at e t ks q s v at due p = elim p [ ]
  handle_expired-first now (suc n) reset_at counted_at e t ks q s v at due p =
      let (waits, live) = first-waits e t ks q v at in
      let ready : first_ready now q ≡ true =
        ready-first now e t ks q at (ground (arith, waits, due)) in
      let (others, taken) = get_expired-first now n e t ks q at due in
      let q₁ : TimerQueue = (get_expired now (suc n) q).1 in
      let (rest, ran) =
        run_callbacks-first q₁ s e others (get_expired-canceled now (suc n) e q ∙ live) in
      (
        rest,
        simp (handle_expired, ready) (ap (λ es. (run_callbacks callback q₁ s es).2) taken ∙ ran),
      )
