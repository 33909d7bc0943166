-- ===== src/Core/DeadlineQueue/Agree.antt =====
-- The deadline queue's index and its buckets name the same entries.
use game_net_core.Prelude.{
  ℕ, ◌+◌, ◌<◌, ◌≡◌, refl, sym, ◌∙◌, inl, inr, true, false, some, [], ◌∷◌, arith, Bool-cases, find,
  erase, assign, find-erase, find-assign, find-nil, ◌==◌, ==_iff,
}
use game_net_core.Core.DeadlineQueue.{
  DeadlineQueue, DeadlineQueueOptions, create, Buckets, Index, Location,
}
use game_net_core.Core.DeadlineQueue.Consistent.{with_key, located, Above}

pub record AreMatched (next : ℕ) (bs : Buckets) (ix : Index) : Type 0 where
  pub matched : (k : ℕ) → with_key k bs ≡ located (find k ix)
  pub ordered : Above 0 bs
  pub keyed :
      (k : ℕ) (l : Location)
      → find k ix ≡ some l
      → (l.entry.token.key ≡ k) × (0 < l.entry.token.generation) × (l.entry.token.generation < next)

-- The index and the buckets name the same entries, one for a key, with generations of the past.
pub record IsConsistent (q : DeadlineQueue) : Type 0 where
  pub agree : AreMatched q.next_generation q.buckets q.entries
  pub resolved : 0 < q.options.resolution
  pub budgeted : 0 < q.options.max_expired_per_advance
  pub first : 0 < q.next_generation

-- With a positive resolution and budget the constructor makes a consistent queue.
pub create-IsConsistent :
    (o : DeadlineQueueOptions)
    → 0 < o.resolution
    → 0 < o.max_expired_per_advance
    → (q : DeadlineQueue) × (create true o ≡ some q) × IsConsistent q
unfolding create
create-IsConsistent o r b = (
  record { options = o; next_generation = 1; buckets = []; entries = [] },
  ground arith,
  record {
    agree = record {
      matched = λ k. rw (find-nil {V = Location} k) refl;
      ordered = tt;
      keyed = λ k l there. absurd (ground (arith, find-nil {V = Location} k, there));
    };
    resolved = r;
    budgeted = b;
    first = omega arith;
  },
)

pub assigned-AreMatched :
    (next : ℕ) (bs bs' : Buckets) (ix : Index) (key : ℕ) (l : Location)
    → AreMatched next bs ix
    → l.entry.token.key ≡ key
    → l.entry.token.generation ≡ next
    → 0 < next
    → Above 0 bs'
    → with_key key bs' ≡ l ∷ []
    → ((k : ℕ) → (key == k) ≡ false → with_key k bs' ≡ with_key k bs)
    → AreMatched (next + 1) bs' (assign key l ix)
assigned-AreMatched next bs bs' ix key l v ek eg p a same others = record {
  matched = λ k. elim (Bool-cases (key == k)) [
    | inl e ↦
        let eq : key ≡ k = (==_iff key k).0 e in rw (find-assign key k l ix, e) (rw (sym eq) same)
    | inr e ↦ rw (find-assign key k l ix, e) (others k e ∙ v.matched k)
  ];
  ordered = a;
  keyed = λ k l' there. elim (Bool-cases (key == k)) [
    | inl e ↦ ground (arith, find-assign key k l ix, there)
    | inr e ↦ let old = v.keyed k l' in ground (arith, find-assign key k l ix, there, old)
  ];
}

pub erased-AreMatched :
    (next : ℕ) (bs bs' : Buckets) (ix : Index) (key : ℕ)
    → AreMatched next bs ix
    → Above 0 bs'
    → with_key key bs' ≡ []
    → ((k : ℕ) → (key == k) ≡ false → with_key k bs' ≡ with_key k bs)
    → AreMatched next bs' (erase key ix)
erased-AreMatched next bs bs' ix key v a gone others = record {
  matched = λ k. elim (Bool-cases (key == k)) [
    | inl e ↦
        let eq : key ≡ k = (==_iff key k).0 e in rw (find-erase key k ix, e) (rw (sym eq) gone)
    | inr e ↦ rw (find-erase key k ix, e) (others k e ∙ v.matched k)
  ];
  ordered = a;
  keyed = λ k l there. elim (Bool-cases (key == k)) [
    | inl e ↦ absurd (ground (arith, find-erase key k ix, there))
    | inr e ↦ let old = v.keyed k l in ground (arith, find-erase key k ix, there, old)
  ];
}
