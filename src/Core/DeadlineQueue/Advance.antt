-- ===== src/Core/DeadlineQueue/Advance.antt =====
-- What `advance` takes out of the deadline queue, and how deadlines are rounded.
use native.Mathlib.Nat.{div-add-mod, mod-lt}
use game_net_core.Prelude.{
  ℕ, zero, suc, ◌+◌, ◌≤◌, ◌<◌, ◌≡◌, refl, sym, ap, ◌∙◌, ◌⊎◌, inl, inr, true, false, Option, none,
  some, List, [], ◌∷◌, ◌++◌, arith, Bool-cases, length, find, erase, leb, if◌then◌else◌,
}
use game_net_core.Core.DeadlineQueue.{
  DeadlineQueue, DeadlineQueueOptions, DeadlineAdvanceResult, Entry, Buckets, Index, max_time,
  expire, Advanced, Location, quantize, advance_loop, advance, is_ready, keep_bucket,
}

-- A deadline is never rounded down, and up by less than the resolution, unless that would pass the
-- largest time point; the clock's ticks are 63 bits.
pub quantize_bounds :
    (o : DeadlineQueueOptions) (deadline : ℕ)
    → 0 < o.resolution
    → deadline ≤ max_time
    → (deadline ≤ quantize o deadline)
      × (quantize o deadline < deadline + o.resolution)
      × (quantize o deadline ≤ max_time)
unfolding quantize
quantize_bounds o deadline p h =
    ground (arith, div-add-mod deadline o.resolution, mod-lt deadline p)

-- All entries, in the order of their buckets and, within one, of their arrival.
abbrev pub pending : Buckets → List Entry
pending [] = []
pending ((u, es) ∷ bs) = es ++ pending bs

-- The entries of the buckets up to a time.
abbrev pub due : ℕ → Buckets → List Entry
due now [] = []
due now ((u, es) ∷ bs) = if leb u now then es ++ due now bs else []

-- What a run of the loop takes: the first `n` of the due entries.
pub record Takes (now n : ℕ) (before after : Buckets) (expired : List Entry) : Type 0 where
  pub taken : pending before ≡ expired ++ pending after
  pub overdue : due now before ≡ expired ++ due now after
  pub within : length expired ≤ n
  pub full : is_ready now after ≡ true → length expired ≡ n

pending-keep_bucket :
    (u : ℕ) (es : List Entry) (bs : Buckets) → pending (keep_bucket u es bs) ≡ es ++ pending bs
pending-keep_bucket u [] bs = refl
pending-keep_bucket u (e ∷ es) bs = refl

due-keep_bucket :
    (now u : ℕ) (es : List Entry) (bs : Buckets)
    → leb u now ≡ true
    → due now (keep_bucket u es bs) ≡ es ++ due now bs
due-keep_bucket now u [] bs h = refl
due-keep_bucket now u (e ∷ es) bs h = rw h

nothing_due :
    (now n u : ℕ) (es : List Entry) (bs : Buckets)
    → leb u now ≡ false
    → Takes now (suc n) ((u, es) ∷ bs) ((u, es) ∷ bs) []
nothing_due now n u es bs h = record {
  taken = refl;
  overdue = refl;
  within = omega arith;
  full = λ ready. absurd (cc);
}

expire-some :
    (x : Entry) (found : Option Location) (rest : Option Advanced) (expired : List Entry)
    (bs : Buckets) (ix : Index)
    → expire x found rest ≡ some (expired, bs, ix)
    → (taken : List Entry) × (expired ≡ x ∷ taken) × (rest ≡ some (taken, bs, ix))
unfolding expire
expire-some x none rest expired bs ix e = absurd (cc)
expire-some x (some l) none expired bs ix e = absurd (cc)
expire-some x (some l) (some (taken, bs', ix')) expired bs ix e =
    (taken, ground arith, ground arith)

-- One round: nothing is due, or the first entry is taken and the loop goes on.
advance_loop_step :
    (now n u : ℕ) (x : Entry) (es : List Entry) (bs bs' : Buckets) (ix ix' : Index)
    (expired : List Entry)
    → advance_loop now (suc n) ((u, x ∷ es) ∷ bs) ix ≡ some (expired, bs', ix')
    → ((leb u now ≡ false) × (expired ≡ []) × (bs' ≡ (u, x ∷ es) ∷ bs))
      ⊎ ((leb u now ≡ true)
          × ((rest : List Entry) × (expired ≡ x ∷ rest)
              × (advance_loop now n (keep_bucket u es bs) (erase x.token.key ix)
                  ≡ some (rest, bs', ix'))))
unfolding advance_loop
advance_loop_step now n u x es bs bs' ix ix' expired e = elim (Bool-cases (leb u now)) [
  | inl now_due ↦ inr (
    now_due,
    expire-some x (find x.token.key ix)
        (advance_loop now n (keep_bucket u es bs) (erase x.token.key ix)) expired bs' ix'
        (rw (now_due, advance_loop) at e),
  )
  | inr later ↦
      let kept = (rw (later, advance_loop) at e) in inl (later, ground arith, ground arith)
]

advance_loop-Takes :
    (now n : ℕ) (bs bs' : Buckets) (ix ix' : Index) (expired : List Entry)
    → advance_loop now n bs ix ≡ some (expired, bs', ix')
    → Takes now n bs bs' expired
unfolding advance_loop
advance_loop-Takes now zero bs bs' ix ix' expired e = ground arith
advance_loop-Takes now (suc n) [] bs' ix ix' expired e = ground arith
advance_loop-Takes now (suc n) ((u, []) ∷ bs) bs' ix ix' expired e = absurd (cc)
advance_loop-Takes now (suc n) ((u, x ∷ es) ∷ bs) bs' ix ix' expired e =
    elim (advance_loop_step now n u x es bs bs' ix ix' expired e) [
      | inl (later, none_due, kept) ↦ rw (none_due, kept) (nothing_due now n u (x ∷ es) bs later)
      | inr (now_due, (rest, first, loop)) ↦
          let ih =
            advance_loop-Takes now n (keep_bucket u es bs) bs' (erase x.token.key ix) ix' rest
              loop in
          rw first (record {
            taken = ap (◌∷◌ x) (sym (pending-keep_bucket u es bs) ∙ ih.taken);
            overdue =
                rw now_due (ap (◌∷◌ x) (sym (due-keep_bucket now u es bs now_due) ∙ ih.overdue));
            within = omega (arith, ih.within);
            full = λ ready. omega (arith, ih.full ready);
          })
    ]

advance_cases :
    (q q' : DeadlineQueue) (now : ℕ) (r : DeadlineAdvanceResult)
    → advance q now ≡ some (r, q')
    → ((is_ready now q.buckets ≡ false)
        × (r.expired ≡ [])
        × (q'.buckets ≡ q.buckets)
        × (r.ready_remaining ≡ false))
      ⊎ ((advance_loop now q.options.max_expired_per_advance q.buckets q.entries
            ≡ some (r.expired, q'.buckets, q'.entries))
          × (r.ready_remaining ≡ is_ready now q'.buckets))
unfolding advance
advance_cases q q' now r e = ground arith

idle-Takes : (now n : ℕ) (bs : Buckets) → is_ready now bs ≡ false → Takes now n bs bs []
idle-Takes now n [] h = record {
  taken = refl;
  overdue = refl;
  within = omega arith;
  full = λ ready. absurd (cc);
}
idle-Takes now n ((u, es) ∷ bs) h = record {
  taken = refl;
  overdue = refl;
  within = omega arith;
  full = λ ready. absurd (cc);
}

-- What `advance` answers: the expired entries are the first due ones, in the order of their rounded
-- deadlines and of arrival, as many as the budget allows; all others stay, in order; and if some
-- due entry is left then the budget is used up.
pub advance-Takes :
    (q q' : DeadlineQueue) (now : ℕ) (r : DeadlineAdvanceResult)
    → advance q now ≡ some (r, q')
    → Takes now q.options.max_expired_per_advance q.buckets q'.buckets r.expired
      × (r.ready_remaining ≡ is_ready now q'.buckets)
advance-Takes q q' now r e = elim (advance_cases q q' now r e) [
  | inl (idle, none_taken, same, nothing_left) ↦
      rw (none_taken, same, nothing_left)
        (idle-Takes now q.options.max_expired_per_advance q.buckets idle, sym idle)
  | inr (loop, left) ↦ (
    advance_loop-Takes now q.options.max_expired_per_advance q.buckets q'.buckets q.entries
        q'.entries r.expired loop,
    left,
  )
]
