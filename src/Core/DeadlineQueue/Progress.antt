-- ===== src/Core/DeadlineQueue/Progress.antt =====
-- `advance` on a consistent deadline queue.
use game_net_core.Prelude.{
  ℕ, zero, suc, ◌-◌, ◌≡◌, refl, ◌∙◌, inl, inr, true, false, Option, none, some, List, [], ◌∷◌, ◌++◌,
  arith, Bool-cases, find, erase, leb, ◌==◌,
}
use game_net_core.Core.DeadlineQueue.{
  DeadlineQueue, DeadlineAdvanceResult, Entry, Buckets, Index, Location, keep_bucket, token_eq,
  advance, advance_loop, expire, first_deadline, is_ready,
}
use game_net_core.Core.DeadlineQueue.Advance.{Takes, advance-Takes}
use game_net_core.Core.DeadlineQueue.Consistent.{in_bucket, with_key, located}
use game_net_core.Core.DeadlineQueue.Erase.{keep_bucket-with_key, keep_bucket-Above}
use game_net_core.Core.DeadlineQueue.Agree.{AreMatched, IsConsistent, erased-AreMatched}

located-cons :
    (o : Option Location) (l : Location) (ls : List Location)
    → l ∷ ls ≡ located o
    → (o ≡ some l) × (ls ≡ [])
located-cons none l ls e = absurd (cc)
located-cons (some l') l ls e = (ground arith, ground arith)

-- The first entry is the one that the index has for its key.
first-AreMatched :
    (next u : ℕ) (e : Entry) (es : List Entry) (bs : Buckets) (ix : Index)
    → AreMatched next ((u, e ∷ es) ∷ bs) ix
    → (find e.token.key ix ≡ some (record { bucket_deadline = u; entry = e }))
      × AreMatched next (keep_bucket u es bs) (erase e.token.key ix)
first-AreMatched next u e es bs ix v =
    let l : Location = record { bucket_deadline = u; entry = e } in
    let key : ℕ = e.token.key in
    let same : (key == key) ≡ true = ground arith in
    let rest : List Location = in_bucket key u es ++ with_key key bs in
    let head : l ∷ rest ≡ located (find key ix) = ground (arith, v.matched key) in
    let (known, alone) = located-cons (find key ix) l rest head in
    (
      known,
      erased-AreMatched next ((u, e ∷ es) ∷ bs) (keep_bucket u es bs) ix key v
          (keep_bucket-Above 0 u es bs (omega arith) v.ordered.2)
          (keep_bucket-with_key key u es bs ∙ alone)
          (λ k other. ground (arith, keep_bucket-with_key k u es bs)),
    )

advance_loop-some :
    (now n next : ℕ) (bs : Buckets) (ix : Index)
    → AreMatched next bs ix
    → (expired : List Entry) × (bs' : Buckets) × (ix' : Index) × (advance_loop now n bs ix
        ≡ some (expired, bs', ix'))
      × AreMatched next bs' ix'
unfolding advance_loop expire
advance_loop-some now zero next bs ix v = ([], bs, ix, refl, v)
advance_loop-some now (suc n) next [] ix v = ([], [], ix, refl, v)
advance_loop-some now (suc n) next ((u, []) ∷ bs) ix v = absurd (v.ordered.1 refl)
advance_loop-some now (suc n) next ((u, e ∷ es) ∷ bs) ix v = elim (Bool-cases (leb u now)) [
  | inr later ↦ ([], (u, e ∷ es) ∷ bs, ix, rw later refl, v)
  | inl due ↦
      let (known, matched) = first-AreMatched next u e es bs ix v in
      let (expired, bs', ix', loop, left) =
        advance_loop-some now n next (keep_bucket u es bs) (erase e.token.key ix) matched in
      let same : token_eq e.token e.token ≡ true = ground arith in
      (e ∷ expired, bs', ix', rw (due, known, loop, same) refl, left)
]

-- On a consistent queue `advance` succeeds at every time, and the queue stays consistent. The
-- expired entries are the first due ones, in the order of their rounded deadlines and of arrival, as
-- many as the budget allows; all others stay, in order; and the answer says whether due ones are
-- left, in which case the budget is used up.
pub advance_lem :
    (q : DeadlineQueue) (now : ℕ)
    → IsConsistent q
    → (r : DeadlineAdvanceResult) × (q' : DeadlineQueue) × (advance q now ≡ some (r, q'))
      × IsConsistent q'
      × Takes now q.options.max_expired_per_advance q.buckets q'.buckets r.expired
      × (r.ready_remaining ≡ is_ready now q'.buckets)
unfolding advance
advance_lem q now v = elim (Bool-cases (is_ready now q.buckets)) [
  | inr idle ↦
      let r : DeadlineAdvanceResult = record {
        expired = [];
        ready_remaining = false;
        oldest_ready_latency = 0;
      } in
      let done : advance q now ≡ some (r, q) = rw idle refl in
      let (taken, answer) = advance-Takes q q now r done in (r, q, done, v, taken, answer)
  | inl ready ↦
      let (expired, bs, ix, loop, left) =
        advance_loop-some now q.options.max_expired_per_advance q.next_generation q.buckets
          q.entries v.agree in
      let r : DeadlineAdvanceResult = record {
        expired = expired;
        ready_remaining = is_ready now bs;
        oldest_ready_latency = now - first_deadline q.buckets;
      } in
      let q' : DeadlineQueue = record q { buckets = bs; entries = ix } in
      let done : advance q now ≡ some (r, q') = rw (ready, loop) refl in
      let (taken, answer) = advance-Takes q q' now r done in
      (
        r,
        q',
        done,
        record { agree = left; resolved = v.resolved; budgeted = v.budgeted; first = v.first },
        taken,
        answer,
      )
]
