-- ===== src/Core/DeadlineQueue/Erase.antt =====
-- What erasing an entry from the buckets of the deadline queue leaves.
use game_net_core.Prelude.{
  ℕ, suc, ◌≤◌, ◌<◌, ◌≡◌, refl, ap, inl, inr, Bool, true, false, ◌&&◌, ◌||◌, some, List, [], ◌∷◌,
  ◌++◌, arith, Bool-cases, ◌==◌, if◌then◌else◌,
}
use game_net_core.Core.DeadlineQueue.{
  DeadlineToken, Entry, Buckets, Location, erase_from, erase_entry, keep_bucket, token_eq,
}
use game_net_core.Core.DeadlineQueue.Consistent.{in_bucket, with_key, Above}

abbrev pub is_at : ℕ → DeadlineToken → Location → Bool
is_at t k l = l.bucket_deadline == t && token_eq l.entry.token k

abbrev pub has : ℕ → DeadlineToken → List Location → Bool
has t k [] = false
has t k (l ∷ ls) = is_at t k l || has t k ls

abbrev pub drop_at : ℕ → DeadlineToken → List Location → List Location
drop_at t k [] = []
drop_at t k (l ∷ ls) = if is_at t k l then ls else l ∷ drop_at t k ls

has-append :
    (t : ℕ) (k : DeadlineToken) (xs ys : List Location)
    → has t k (xs ++ ys) ≡ (has t k xs || has t k ys)
has-append t k [] ys = refl
has-append t k (l ∷ xs) ys = ground (arith, has-append t k xs ys)

drop_at-append :
    (t : ℕ) (k : DeadlineToken) (xs ys : List Location)
    → drop_at t k (xs ++ ys) ≡ (if has t k xs then drop_at t k xs ++ ys else xs ++ drop_at t k ys)
drop_at-append t k [] ys = refl
drop_at-append t k (l ∷ xs) ys = elim (Bool-cases (is_at t k l)) [
  | inl here ↦ rw here refl
  | inr there ↦ elim (Bool-cases (has t k xs)) [
    | inl e ↦ ground (arith, drop_at-append t k xs ys)
    | inr e ↦ ground (arith, drop_at-append t k xs ys)
  ]
]

in_bucket-has :
    (t j u : ℕ) (k : DeadlineToken) (es : List Entry)
    → (t == u) ≡ false
    → has t k (in_bucket j u es) ≡ false
in_bucket-has t j u k [] h = refl
in_bucket-has t j u k (e ∷ es) h = ground (arith, in_bucket-has t j u k es h)

with_key-has :
    (t lo j : ℕ) (k : DeadlineToken) (bs : Buckets)
    → t < lo
    → Above lo bs
    → has t k (with_key j bs) ≡ false
with_key-has t lo j k [] h a = refl
with_key-has t lo j k ((u, es) ∷ bs) h a =
    rw
      (
        has-append t k (in_bucket j u es) (with_key j bs),
        in_bucket-has t j u k es (ground arith),
        with_key-has t (suc u) j k bs (omega (arith, a.0)) a.2,
      )
      refl

erase_from-other :
    (j u : ℕ) (k : DeadlineToken) (es : List Entry)
    → (k.key == j) ≡ false
    → in_bucket j u (erase_from k es) ≡ in_bucket j u es
unfolding erase_from
erase_from-other j u k [] h = refl
erase_from-other j u k (e ∷ es) h = elim (Bool-cases (token_eq e.token k)) [
  | inl same ↦ ground (arith, same)
  | inr differs ↦ ground (arith, differs, erase_from-other j u k es h)
]

erase_from-same :
    (u : ℕ) (k : DeadlineToken) (es : List Entry)
    → in_bucket k.key u (erase_from k es) ≡ drop_at u k (in_bucket k.key u es)
unfolding erase_from
erase_from-same u k [] = refl
erase_from-same u k (e ∷ es) = elim (Bool-cases (token_eq e.token k)) [
  | inl same ↦ ground (arith, same)
  | inr differs ↦ ground (arith, differs, erase_from-same u k es)
]

pub keep_bucket-with_key :
    (j u : ℕ) (es : List Entry) (bs : Buckets)
    → with_key j (keep_bucket u es bs) ≡ in_bucket j u es ++ with_key j bs
keep_bucket-with_key j u [] bs = refl
keep_bucket-with_key j u (e ∷ es) bs = refl

Above-weaken : (lo hi : ℕ) (bs : Buckets) → lo ≤ hi → Above hi bs → Above lo bs
Above-weaken lo hi [] h a = tt
Above-weaken lo hi ((u, es) ∷ bs) h a = (omega (arith, a.0), a.1, a.2)

pub keep_bucket-Above :
    (lo u : ℕ) (es : List Entry) (bs : Buckets)
    → lo ≤ u
    → Above (suc u) bs
    → Above lo (keep_bucket u es bs)
keep_bucket-Above lo u [] bs h a = Above-weaken lo (suc u) bs (omega arith) a
keep_bucket-Above lo u (e ∷ es) bs h a = (h, (λ eq. absurd (cc)), a)

-- What erasing leaves: all but the one entry.
pub record Erased (lo t : ℕ) (k : DeadlineToken) (before after : Buckets) : Type 0 where
  pub ordered : Above lo after
  pub same : with_key k.key after ≡ drop_at t k (with_key k.key before)
  pub others : (j : ℕ) → (k.key == j) ≡ false → with_key j after ≡ with_key j before

pub erase_entry-some :
    (lo t : ℕ) (k : DeadlineToken) (bs : Buckets)
    → Above lo bs
    → has t k (with_key k.key bs) ≡ true
    → (after : Buckets) × (erase_entry t k bs ≡ some after) × Erased lo t k bs after
unfolding erase_entry
erase_entry-some lo t k [] a h = absurd (ground arith)
erase_entry-some lo t k ((u, es) ∷ bs) a h = elim (Bool-cases (t == u)) [
  | inl same ↦ (
    keep_bucket u (erase_from k es) bs,
    rw same refl,
    record {
      ordered = keep_bucket-Above lo u (erase_from k es) bs a.0 a.2;
      same = ground (
        arith,
        keep_bucket-with_key k.key u (erase_from k es) bs,
        erase_from-same u k es,
        drop_at-append t k (in_bucket k.key u es) (with_key k.key bs),
        has-append t k (in_bucket k.key u es) (with_key k.key bs),
        with_key-has t (suc u) k.key k bs (ground arith) a.2,
      );
      others = λ j other.
          rw (keep_bucket-with_key j u (erase_from k es) bs, erase_from-other j u k es other) refl;
    },
  )
  | inr later ↦
      let there : has t k (with_key k.key bs) ≡ true = ground (
        arith,
        has-append t k (in_bucket k.key u es) (with_key k.key bs),
        in_bucket-has t k.key u k es later,
      ) in
      let (after, erased, d) = erase_entry-some (suc u) t k bs a.2 there in
      (
        (u, es) ∷ after,
        rw (later, erased) refl,
        record {
          ordered = (a.0, a.1, d.ordered);
          same = ground (
            arith,
            drop_at-append t k (in_bucket k.key u es) (with_key k.key bs),
            in_bucket-has t k.key u k es later,
            d.same,
          );
          others = λ j other. ap (◌++◌ (in_bucket j u es)) (d.others j other);
        },
      )
]
