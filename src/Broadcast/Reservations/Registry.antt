-- ===== src/Broadcast/Reservations/Registry.antt =====
-- The registry of owners: it stays in the order of the ids, and finds what was put in.
use game_net_core.Prelude.{
  ℕ, suc, ◌≤◌, ◌<◌, ◌≡◌, ◌⊎◌, inl, inr, refl, subst, ◌∙◌, Bool, true, false, ◌&&◌, none, some, List,
  [], ◌∷◌, ltb, leb, ◌==◌, if◌then◌else◌, arith, Bool-cases, Option-cases,
}
use game_net_core.Broadcast.Reservations.{
  OwnerOutstanding, no_reservations, DispatchLimits, DispatcherState, find_owner, insert_owner,
  store_owner, owner_for,
}

-- The ids ascend, from the given bound on.
abbrev pub ascends : ℕ → List OwnerOutstanding → Bool
ascends lo [] = true
ascends lo (o ∷ os) = leb lo o.owner_id && ascends (suc o.owner_id) os

find_owner-below :
    (id lo : ℕ) (os : List OwnerOutstanding)
    → id < lo
    → ascends lo os ≡ true
    → find_owner id os ≡ none
unfolding find_owner
find_owner-below id lo [] p a = refl
find_owner-below id lo (o ∷ os) p a = ground (arith, p, a)

pub find_owner-id :
    (id : ℕ) (o : OwnerOutstanding) (os : List OwnerOutstanding)
    → find_owner id os ≡ some o
    → o.owner_id ≡ id
unfolding find_owner
find_owner-id id o [] e = absurd (cc)
find_owner-id id o (o' ∷ os) e = elim (Bool-cases (ltb o'.owner_id id)) [
  | inl smaller ↦ find_owner-id id o os (ground (arith, smaller, e))
  | inr other ↦ ground (arith, other, e)
]

find_owner-insert_owner :
    (o : OwnerOutstanding) (k lo : ℕ) (os : List OwnerOutstanding)
    → ascends lo os ≡ true
    → find_owner o.owner_id os ≡ none
    → find_owner k (insert_owner o os) ≡ (if o.owner_id == k then some o else find_owner k os)
unfolding find_owner insert_owner
find_owner-insert_owner o k lo [] a e = ground arith
find_owner-insert_owner o k lo (o' ∷ os) a e = elim (Bool-cases (ltb o'.owner_id o.owner_id)) [
  | inr after ↦ ground (arith, after)
  | inl before ↦
      let rest =
        find_owner-insert_owner o k (suc o'.owner_id) os (ground (arith, a))
          (ground (arith, before, e)) in
      elim (Bool-cases (ltb o'.owner_id k)) [
        | inl further ↦ rw (before, further) rest
        | inr here ↦
            let other : (o.owner_id == k) ≡ false = ground (arith, before, here) in
            rw (before, here, other) refl
      ]
]

insert_owner-ascends :
    (o : OwnerOutstanding) (lo : ℕ) (os : List OwnerOutstanding)
    → lo ≤ o.owner_id
    → ascends lo os ≡ true
    → find_owner o.owner_id os ≡ none
    → ascends lo (insert_owner o os) ≡ true
unfolding find_owner insert_owner
insert_owner-ascends o lo [] p a e = ground (arith, p)
insert_owner-ascends o lo (o' ∷ os) p a e = elim (Bool-cases (ltb o'.owner_id o.owner_id)) [
  | inl smaller ↦
      let rest =
        insert_owner-ascends o (suc o'.owner_id) os (ground (arith, smaller)) (ground (arith, a))
          (ground (arith, smaller, e)) in
      ground (arith, smaller, a, rest)
  | inr other ↦ ground (arith, other, a, p, e)
]

find_owner-store_other :
    (o : OwnerOutstanding) (k : ℕ) (os : List OwnerOutstanding)
    → (o.owner_id == k) ≡ false
    → find_owner k (store_owner o os) ≡ find_owner k os
unfolding find_owner store_owner
find_owner-store_other o k [] n = refl
find_owner-store_other o k (o' ∷ os) n =
    let rest = find_owner-store_other o k os n in
    elim (Bool-cases (o'.owner_id == o.owner_id)) [
      | inl same ↦
          let e : o'.owner_id ≡ o.owner_id = ground (arith, same) in rw (same, e, n, rest) refl
      | inr other ↦ rw (other, rest) refl
    ]

find_owner-store_self :
    (o₀ o : OwnerOutstanding) (os : List OwnerOutstanding)
    → find_owner o.owner_id os ≡ some o₀
    → find_owner o.owner_id (store_owner o os) ≡ some o
unfolding find_owner store_owner
find_owner-store_self o₀ o [] e = absurd (cc)
find_owner-store_self o₀ o (o' ∷ os) e = elim (Bool-cases (o'.owner_id == o.owner_id)) [
  | inl same ↦
      let me : (o.owner_id == o.owner_id) ≡ true = ground arith in
      let not_less : ltb o.owner_id o.owner_id ≡ false = ground arith in
      rw (same, not_less, me) refl
  | inr other ↦ elim (Bool-cases (ltb o'.owner_id o.owner_id)) [
    | inl smaller ↦ rw (other, smaller) (find_owner-store_self o₀ o os (ground (arith, smaller, e)))
    | inr bigger ↦ absurd (ground (arith, other, bigger, e))
  ]
]

pub find_owner-store_owner :
    (o₀ o : OwnerOutstanding) (k : ℕ) (os : List OwnerOutstanding)
    → find_owner o.owner_id os ≡ some o₀
    → find_owner k (store_owner o os) ≡ (if o.owner_id == k then some o else find_owner k os)
find_owner-store_owner o₀ o k os e = elim (Bool-cases (o.owner_id == k)) [
  | inl y ↦
      let same : o.owner_id ≡ k = ground (arith, y) in
      rw y (
        subst (λ j. find_owner j (store_owner o os) ≡ some o) same
          (find_owner-store_self o₀ o os e))
  | inr n ↦ rw n (find_owner-store_other o k os n)
]

pub store_owner-ascends :
    (o : OwnerOutstanding) (lo : ℕ) (os : List OwnerOutstanding)
    → ascends lo os ≡ true
    → ascends lo (store_owner o os) ≡ true
unfolding store_owner
store_owner-ascends o lo [] a = refl
store_owner-ascends o lo (o' ∷ os) a = elim (Bool-cases (o'.owner_id == o.owner_id)) [
  | inl same ↦
      let rest = store_owner-ascends o (suc o'.owner_id) os (ground (arith, a)) in
      ground (arith, same, a, rest)
  | inr other ↦
      let rest = store_owner-ascends o (suc o'.owner_id) os (ground (arith, a)) in
      ground (arith, other, a, rest)
]

-- The owner of `ownerFor` is then in the registry; every other owner is found as before, and it
-- counts what it did, or nothing if it is new.
pub record IsRegistered (id : ℕ) (o : OwnerOutstanding) (s s' : DispatcherState) : Type 0 where
  pub known : find_owner id s'.owners ≡ some o
  pub others : (k : ℕ) → (id == k) ≡ false → find_owner k s'.owners ≡ find_owner k s.owners
  pub counts :
      (find_owner id s.owners ≡ some o)
      ⊎ ((find_owner id s.owners ≡ none) × (o.tasks.current ≡ 0) × (o.bytes.current ≡ 0))
  pub ordered : ascends 0 s'.owners ≡ true

pub owner_for-IsRegistered :
    (id : ℕ) (l : DispatchLimits) (s : DispatcherState)
    → ascends 0 s.owners ≡ true
    → let (o, s') = owner_for id l s in IsRegistered id o s s'
unfolding owner_for
owner_for-IsRegistered id l s a = elim (Option-cases (find_owner id s.owners)) [
  | inr (o, found) ↦
      simp (owner_for, found)
        (record { known = found; others = λ k n. refl; counts = inl found; ordered = a })
  | inl unknown ↦
      let o : OwnerOutstanding = record {
        owner_id = id;
        task_limit = l.max_outstanding_tasks_per_owner;
        byte_limit = l.max_outstanding_bytes_per_owner;
        tasks = no_reservations;
        bytes = no_reservations;
      } in
      let me : (id == id) ≡ true = ground arith in
      simp (owner_for, unknown)
        (record {
          known = find_owner-insert_owner o id 0 s.owners a unknown ∙ rw me refl;
          others = λ k n. find_owner-insert_owner o k 0 s.owners a unknown ∙ rw n refl;
          counts = inr (unknown, refl, refl);
          ordered = insert_owner-ascends o 0 s.owners (omega arith) a unknown;
        })
]
