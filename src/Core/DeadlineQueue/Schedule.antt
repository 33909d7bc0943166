-- ===== src/Core/DeadlineQueue/Schedule.antt =====
-- `schedule` on a consistent deadline queue.
use game_net_core.Prelude.{
  ℕ, ◌+◌, ◌-◌, ◌^◌, ◌<◌, ◌≡◌, refl, sym, subst, ◌∙◌, ◌⊎◌, inl, inr, true, false, some, List, [],
  ◌∷◌, ◌++◌, arith, Option-cases, find, assign, find-assign, ◌==◌,
}
use game_net_core.Core.DeadlineQueue.{
  DeadlineQueue, Entry, Buckets, Location, push_entry, schedule, quantize,
}
use game_net_core.Core.DeadlineQueue.Consistent.{
  with_key, Above, IsInserted, push_entry-same, push_entry-other, push_entry-Above,
}
use game_net_core.Core.DeadlineQueue.Erase.{has, drop_at, erase_entry-some}
use game_net_core.Core.DeadlineQueue.Agree.{AreMatched, IsConsistent, assigned-AreMatched}

abbrev pub new_entry : DeadlineQueue → ℕ → ℕ → Entry
new_entry q key deadline = record {
  token = record { key = key; generation = q.next_generation };
  deadline = deadline;
}

abbrev pub new_location : DeadlineQueue → ℕ → ℕ → Location
new_location q key deadline = record {
  bucket_deadline = quantize q.options deadline;
  entry = new_entry q key deadline;
}

inserted-none :
    (l : Location) (before after : List Location)
    → IsInserted l before after
    → before ≡ []
    → after ≡ l ∷ []
inserted-none l before after i e = go i.left i.right (sym i.was ∙ e) i.is
  where
    go : (xs ys : List Location) → xs ++ ys ≡ [] → after ≡ xs ++ (l ∷ ys) → after ≡ l ∷ []
    go [] ys h is = rw (is, h) refl
    go (x ∷ xs) ys h is = absurd (cc)

inserted-some :
    (l old : Location) (before after : List Location)
    → IsInserted l before after
    → before ≡ old ∷ []
    → (after ≡ l ∷ old ∷ []) ⊎ (after ≡ old ∷ l ∷ [])
inserted-some l old before after i e = go i.left i.right (sym i.was ∙ e) i.is
  where
    go :
        (xs ys : List Location)
        → xs ++ ys ≡ old ∷ []
        → after ≡ xs ++ (l ∷ ys)
        → (after ≡ l ∷ old ∷ []) ⊎ (after ≡ old ∷ l ∷ [])
    go [] ys h is = inl (rw (is, h) refl)
    go (x ∷ []) ys h is = inr (ground (arith, h, is))
    go (x ∷ y ∷ xs) ys h is = absurd (ground (arith, h))

-- With the old location beside the new one, erasing the old one leaves the new one.
replaced :
    (l old : Location) (after : List Location)
    → (after ≡ l ∷ old ∷ []) ⊎ (after ≡ old ∷ l ∷ [])
    → old.entry.token.generation < l.entry.token.generation
    → (has old.bucket_deadline old.entry.token after ≡ true)
      × (drop_at old.bucket_deadline old.entry.token after ≡ l ∷ [])
replaced l old after (inl e) h = rw e (ground arith)
replaced l old after (inr e) h = rw e (ground arith)

-- The queue after `schedule` has put in the new entry.
abbrev pub scheduled : DeadlineQueue → ℕ → ℕ → Buckets → DeadlineQueue
scheduled q key deadline bs = record q {
  next_generation = q.next_generation + 1;
  buckets = bs;
  entries = assign key (new_location q key deadline) q.entries;
}

schedule-outcome :
    (q : DeadlineQueue) (key deadline : ℕ)
    → IsConsistent q
    → q.next_generation < 2 ^ 64 - 1
    → (bs : Buckets) × (schedule q key deadline
        ≡ some ((new_entry q key deadline).token, scheduled q key deadline bs))
      × AreMatched (q.next_generation + 1) bs (assign key (new_location q key deadline) q.entries)
unfolding schedule
schedule-outcome q key deadline v room =
    let e : Entry = new_entry q key deadline in
    let l : Location = new_location q key deadline in
    let at : ℕ = quantize q.options deadline in
    let pushed : Buckets = push_entry at e q.buckets in
    let not_last : (q.next_generation == 2 ^ 64 - 1) ≡ false = ground arith in
    let a : Above 0 pushed = push_entry-Above 0 at e q.buckets (omega arith) v.agree.ordered in
    elim (Option-cases (find key q.entries)) [
      | inl unknown ↦
          let alone =
            inserted-none l (with_key key q.buckets) (with_key key pushed)
              (push_entry-same at e q.buckets) (rw (v.agree.matched key, unknown) refl) in
          (
            pushed,
            rw (not_last, unknown) refl,
            assigned-AreMatched q.next_generation q.buckets pushed q.entries key l v.agree refl refl
                v.first a alone (λ k other. push_entry-other k at e q.buckets other),
          )
      | inr (old, known) ↦
          let (own, positive, older) = v.agree.keyed key old known in
          let two =
            inserted-some l old (with_key key q.buckets) (with_key key pushed)
              (push_entry-same at e q.buckets) (rw (v.agree.matched key, known) refl) in
          let (there, dropped) = replaced l old (with_key key pushed) two older in
          let (after, erased, d) = erase_entry-some 0 old.bucket_deadline old.entry.token pushed a (
            subst (λ j. has old.bucket_deadline old.entry.token (with_key j pushed) ≡ true)
              (sym own) there) in
          (
            after,
            rw (not_last, known, erased) refl,
            assigned-AreMatched q.next_generation q.buckets after q.entries key l v.agree refl refl
                v.first d.ordered
                (subst
                    (λ j.
                      with_key j after
                      ≡ drop_at old.bucket_deadline old.entry.token (with_key j pushed))
                    own d.same
                  ∙ dropped)
                (λ k other.
                  d.others k (subst (λ j. (j == k) ≡ false) (sym own) other)
                  ∙ push_entry-other k at e q.buckets other),
          )
    ]

-- On a consistent queue whose generations have not run out, `schedule` succeeds: it answers the key
-- with the next generation, the queue stays consistent, the key is now due at the rounded new
-- deadline in place of any earlier one, and no other key's deadline changes.
pub schedule_lem :
    (q : DeadlineQueue) (key deadline : ℕ)
    → IsConsistent q
    → q.next_generation < 2 ^ 64 - 1
    → (q' : DeadlineQueue) × (schedule q key deadline
        ≡ some (record { key = key; generation = q.next_generation }, q'))
      × IsConsistent q'
      × (with_key key q'.buckets ≡ new_location q key deadline ∷ [])
      × ((k : ℕ) → (key == k) ≡ false → with_key k q'.buckets ≡ with_key k q.buckets)
schedule_lem q key deadline v room =
    let (bs, done, agree) = schedule-outcome q key deadline v room in
    let l : Location = new_location q key deadline in
    (
      scheduled q key deadline bs,
      done,
      record { agree = agree; resolved = v.resolved; budgeted = v.budgeted; first = omega arith },
      ground (arith, agree.matched key, find-assign key key l q.entries),
      λ k other. ground (arith, agree.matched k, v.agree.matched k, find-assign key k l q.entries),
    )
