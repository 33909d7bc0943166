-- ===== src/Core/DeadlineQueue/Consistent.antt =====
-- What ties the index of the deadline queue to its buckets.
use game_net_core.Prelude.{
  ℕ, suc, ◌≤◌, ◌<◌, ◌≡◌, ◌≢◌, refl, ap, ◌⊎◌, inl, inr, false, Option, none, some, List, [], ◌∷◌,
  ◌++◌, arith, Bool-cases, append-nil, append_assoc, ltb, ◌==◌, if◌then◌else◌,
}
use game_net_core.Core.DeadlineQueue.{Entry, Buckets, Location, push_entry}

-- The entries of one key in a bucket, with the bucket's time.
abbrev pub in_bucket : ℕ → ℕ → List Entry → List Location
in_bucket k u [] = []
in_bucket k u (e ∷ es) =
    if e.token.key == k
    then record { bucket_deadline = u; entry = e } ∷ in_bucket k u es
    else in_bucket k u es

abbrev pub with_key : ℕ → Buckets → List Location
with_key k [] = []
with_key k ((u, es) ∷ bs) = in_bucket k u es ++ with_key k bs

abbrev pub located : Option Location → List Location
located none = []
located (some l) = l ∷ []

-- The buckets' times increase from `lo` on, and no bucket is empty.
abbrev pub Above : ℕ → Buckets → Type 0
Above lo [] = Unit {0}
Above lo ((u, es) ∷ bs) = (lo ≤ u) × (es ≢ []) × Above (suc u) bs

in_bucket-append :
    (k u : ℕ) (es fs : List Entry) → in_bucket k u (es ++ fs) ≡ in_bucket k u es ++ in_bucket k u fs
in_bucket-append k u [] fs = refl
in_bucket-append k u (e ∷ es) fs = ground (arith, in_bucket-append k u es fs)

pub push_entry-cases :
    (t u : ℕ) (e : Entry) (es : List Entry) (bs : Buckets)
    → ((t < u) × (push_entry t e ((u, es) ∷ bs) ≡ (t, e ∷ []) ∷ (u, es) ∷ bs))
      ⊎ (((u ≡ t) × (push_entry t e ((u, es) ∷ bs) ≡ (u, es ++ (e ∷ [])) ∷ bs))
          ⊎ ((u < t) × (push_entry t e ((u, es) ∷ bs) ≡ (u, es) ∷ push_entry t e bs)))
unfolding push_entry
push_entry-cases t u e es bs = elim (Bool-cases (ltb t u)) [
  | inl before ↦ inl (ground arith, rw before refl)
  | inr later ↦ elim (Bool-cases (t == u)) [
    | inl same ↦ inr (inl (ground arith, rw (later, same) refl))
    | inr other ↦ inr (inr (ground arith, rw (later, other) refl))
  ]
]

-- A pushed entry of another key does not show.
pub push_entry-other :
    (k t : ℕ) (e : Entry) (bs : Buckets)
    → (e.token.key == k) ≡ false
    → with_key k (push_entry t e bs) ≡ with_key k bs
unfolding push_entry
push_entry-other k t e [] h = ground arith
push_entry-other k t e ((u, es) ∷ bs) h = elim (push_entry-cases t u e es bs) [
  | inl (before, eq) ↦ rw (eq, h) refl
  | inr (inl (same, eq)) ↦
      rw (eq, in_bucket-append k u es (e ∷ []), h, append-nil (in_bucket k u es)) refl
  | inr (inr (later, eq)) ↦ rw (eq, push_entry-other k t e bs h) refl
]

-- A location is added to a list somewhere.
pub record IsInserted (l : Location) (before after : List Location) : Type 0 where
  pub left : List Location
  pub right : List Location
  pub was : before ≡ left ++ right
  pub is : after ≡ left ++ (l ∷ right)

-- A pushed entry stands somewhere among those of its key.
pub push_entry-same :
    (t : ℕ) (e : Entry) (bs : Buckets)
    → IsInserted
        (record { bucket_deadline = t; entry = e })
        (with_key e.token.key bs)
        (with_key e.token.key (push_entry t e bs))
unfolding push_entry
push_entry-same t e [] = record { left = []; right = []; was = refl; is = ground arith }
push_entry-same t e ((u, es) ∷ bs) = elim (push_entry-cases t u e es bs) [
  | inl (before, eq) ↦ rw eq (record {
    left = [];
    right = with_key e.token.key ((u, es) ∷ bs);
    was = refl;
    is = ground arith;
  })
  | inr (inl (same, eq)) ↦ record {
    left = in_bucket e.token.key u es;
    right = with_key e.token.key bs;
    was = refl;
    is =
        rw
          (
            eq,
            in_bucket-append e.token.key u es (e ∷ []),
            append_assoc (in_bucket e.token.key u es) (in_bucket e.token.key u (e ∷ []))
                (with_key e.token.key bs),
          )
          (ground (arith, same));
  }
  | inr (inr (later, eq)) ↦
      let ih = push_entry-same t e bs in
      let l : Location = record { bucket_deadline = t; entry = e } in
      record {
        left = in_bucket e.token.key u es ++ ih.left;
        right = ih.right;
        was =
            rw (append_assoc (in_bucket e.token.key u es) ih.left ih.right)
              (ap (◌++◌ (in_bucket e.token.key u es)) ih.was);
        is =
            rw (eq, append_assoc (in_bucket e.token.key u es) ih.left (l ∷ ih.right))
              (ap (◌++◌ (in_bucket e.token.key u es)) ih.is);
      }
]

pub push_entry-Above :
    (lo t : ℕ) (e : Entry) (bs : Buckets) → lo ≤ t → Above lo bs → Above lo (push_entry t e bs)
unfolding push_entry
push_entry-Above lo t e [] h a = ground arith
push_entry-Above lo t e ((u, es) ∷ bs) h a = elim (push_entry-cases t u e es bs) [
  | inl (before, eq) ↦ ground (arith, eq)
  | inr (inl (same, eq)) ↦ ground (arith, eq)
  | inr (inr (later, eq)) ↦ ground (arith, eq, push_entry-Above (suc u) t e bs)
]
