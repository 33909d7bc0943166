-- ===== src/Core/DeadlineQueue/Cancel.antt =====
-- `cancel` on a consistent deadline queue.
use game_net_core.Prelude.{
  ℕ, ◌<◌, ◌≡◌, refl, sym, subst, ◌∙◌, inl, inr, Bool, true, false, not, Option, none, some, List,
  [], ◌∷◌, arith, Bool-cases, Option-cases, find, erase, ◌==◌,
}
use game_net_core.Core.DeadlineQueue.{
  DeadlineQueue, DeadlineToken, Location, token_eq, cancel, erase_at,
}
use game_net_core.Core.DeadlineQueue.Consistent.{with_key, located}
use game_net_core.Core.DeadlineQueue.Erase.{has, drop_at, erase_entry-some}
use game_net_core.Core.DeadlineQueue.Agree.{IsConsistent, erased-AreMatched}

-- The token of the key's pending entry.
abbrev pub is_pending : DeadlineToken → List Location → Bool
is_pending t [] = false
is_pending t (l ∷ ls) = token_eq l.entry.token t

-- What `cancel` leaves.
pub record Canceled (q q' : DeadlineQueue) (t : DeadlineToken) (found : Bool) : Type 0 where
  pub consistent : IsConsistent q'
  pub current : found ≡ is_pending t (with_key t.key q.buckets)
  pub gone : found ≡ true → with_key t.key q'.buckets ≡ []
  pub untouched : found ≡ false → q' ≡ q
  pub counted : q'.next_generation ≡ q.next_generation
  pub others : (k : ℕ) → (t.key == k) ≡ false → with_key k q'.buckets ≡ with_key k q.buckets

not-Canceled :
    (q : DeadlineQueue) (t : DeadlineToken)
    → IsConsistent q
    → is_pending t (with_key t.key q.buckets) ≡ false
    → Canceled q q t false
not-Canceled q t v e = record {
  consistent = v;
  current = sym e;
  gone = λ found. absurd (cc);
  untouched = λ missing. refl;
  counted = refl;
  others = λ k other. refl;
}

no_pending :
    (q : DeadlineQueue) (t : DeadlineToken)
    → IsConsistent q
    → ((l : Location) → find t.key q.entries ≡ some l → token_eq l.entry.token t ≡ false)
    → is_pending t (with_key t.key q.buckets) ≡ false
no_pending q t v h = rw (v.agree.matched t.key) (go (find t.key q.entries) h)
  where
    go :
        (o : Option Location)
        → ((l : Location) → o ≡ some l → token_eq l.entry.token t ≡ false)
        → is_pending t (located o) ≡ false
    go none differs = refl
    go (some l) differs = differs l refl

alone-has :
    (l : Location) (ls : List Location)
    → ls ≡ l ∷ []
    → (has l.bucket_deadline l.entry.token ls ≡ true)
      × (drop_at l.bucket_deadline l.entry.token ls ≡ [])
alone-has l ls e = rw e (ground arith)

cancel_known :
    (q : DeadlineQueue) (t : DeadlineToken) (l : Location)
    → IsConsistent q
    → (0 < t.generation)
    → find t.key q.entries ≡ some l
    → token_eq l.entry.token t ≡ true
    → (q' : DeadlineQueue) × (cancel q t ≡ some (true, q')) × Canceled q q' t true
unfolding cancel erase_at
cancel_known q t l v p known same =
    let (own, positive, older) = v.agree.keyed t.key l known in
    let one : with_key t.key q.buckets ≡ l ∷ [] = rw (v.agree.matched t.key, known) refl in
    let (there, dropped) = alone-has l (with_key t.key q.buckets) one in
    let (after, erased, d) =
      erase_entry-some 0 l.bucket_deadline l.entry.token q.buckets v.agree.ordered (
        subst (λ j. has l.bucket_deadline l.entry.token (with_key j q.buckets) ≡ true) (sym own)
          there) in
    let gone : with_key t.key after ≡ [] =
      subst (λ j. with_key j after ≡ drop_at l.bucket_deadline l.entry.token (with_key j q.buckets))
        own d.same
      ∙ dropped in
    let others : (k : ℕ) → (t.key == k) ≡ false → with_key k after ≡ with_key k q.buckets =
      λ k other. d.others k (subst (λ j. (j == k) ≡ false) (sym own) other) in
    let valid : not (t.generation == 0) ≡ true = ground arith in
    (
      record q { buckets = after; entries = erase t.key q.entries },
      rw (valid, known, same, erased) refl,
      record {
        consistent = record {
          agree =
              erased-AreMatched q.next_generation q.buckets after q.entries t.key v.agree d.ordered
                gone others;
          resolved = v.resolved;
          budgeted = v.budgeted;
          first = v.first;
        };
        current = rw one (sym same);
        gone = λ found. gone;
        untouched = λ missing. absurd (cc);
        counted = refl;
        others = others;
      },
    )

-- On a consistent queue `cancel` succeeds: it answers whether the token is that of the key's pending
-- entry; if so, the key has no entry left and no other key changes, and if not, nothing changes at
-- all; the queue stays consistent.
pub cancel_lem :
    (q : DeadlineQueue) (t : DeadlineToken)
    → IsConsistent q
    → (found : Bool) × (q' : DeadlineQueue) × (cancel q t ≡ some (found, q'))
      × Canceled q q' t found
unfolding cancel
cancel_lem q t v = elim (Bool-cases (t.generation == 0)) [
  | inl e ↦ (
    false,
    q,
    rw e refl,
    not-Canceled q t v
        (no_pending q t v (λ l known. let k = v.agree.keyed t.key l known in ground (arith, k))),
  )
  | inr e ↦ elim (Option-cases (find t.key q.entries)) [
    | inl unknown ↦ (
      false,
      q,
      ground (arith, unknown),
      not-Canceled q t v (no_pending q t v (λ l known. absurd (ground arith))),
    )
    | inr (l, known) ↦ elim (Bool-cases (token_eq l.entry.token t)) [
      | inl same ↦
          let (q', done, c) = cancel_known q t l v (ground arith) known same in (true, q', done, c)
      | inr differs ↦ (
        false,
        q,
        ground (arith, known, differs),
        not-Canceled q t v (no_pending q t v (λ l' known'. ground (arith, known, differs))),
      )
    ]
  ]
]
