-- ===== src/Core/DeadlineQueue.antt =====
-- `DeadlineQueue` of include/gamenet/core/net/DeadlineQueue.h and src/core/net/DeadlineQueue.cc.
-- Time points and durations are numbers of clock ticks since the epoch of the steady clock, which
-- does not lie in the future; `max_time` is the largest. `std::map` is an association list in the
-- order of its keys, `std::unordered_map` one in any order. An iterator into a bucket is the entry
-- that it points to: entries never change, and no two have the same generation.
pub mod Advance
pub mod Consistent
pub mod Erase
pub mod Agree
pub mod Schedule
pub mod Cancel
pub mod Progress
mod Tests
use game_net_core.Prelude.{
  ℕ, zero, suc, ◌+◌, ◌-◌, ◌*◌, ◌/◌, ◌^◌, Bool, true, false, not, ◌&&◌, ◌||◌, Option, none, some,
  List, [], ◌∷◌, ◌++◌, ltb, leb, ◌==◌, if◌then◌else◌, length, find, erase, assign,
}

pub record DeadlineToken : Type 0 where
  pub key : ℕ
  pub generation : ℕ

abbrev pub valid : DeadlineToken → Bool
valid t = not (t.generation == 0)

abbrev pub token_eq : DeadlineToken → DeadlineToken → Bool
token_eq a b = a.key == b.key && a.generation == b.generation

pub record DeadlineQueueOptions : Type 0 where
  pub resolution : ℕ
  pub max_expired_per_advance : ℕ

-- `Impl::Entry`, and `DeadlineExpiration`, which has the same fields.
pub record Entry : Type 0 where
  pub token : DeadlineToken
  pub deadline : ℕ

-- `Impl::Location`.
pub record Location : Type 0 where
  pub bucket_deadline : ℕ
  pub entry : Entry

abbrev pub Buckets : Type 0
Buckets = List (ℕ × List Entry)

abbrev pub Index : Type 0
Index = List (ℕ × Location)

pub record DeadlineQueue : Type 0 where
  pub options : DeadlineQueueOptions
  pub next_generation : ℕ
  pub buckets : Buckets
  pub entries : Index

pub record DeadlineAdvanceResult : Type 0 where
  pub expired : List Entry
  pub ready_remaining : Bool
  pub oldest_ready_latency : ℕ

abbrev pub max_time : ℕ
max_time = 2 ^ 63 - 1

-- `validate` and the constructor; `none` is the exception. `has_owner` is `ownerLoop != nullptr`.
unfoldable pub create : Bool → DeadlineQueueOptions → Option DeadlineQueue
create has_owner o =
    if not has_owner || (o.resolution == 0 || o.max_expired_per_advance == 0)
    then none
    else some (record { options = o; next_generation = 1; buckets = []; entries = [] })

-- The deadline rounded up to the resolution.
unfoldable pub quantize : DeadlineQueueOptions → ℕ → ℕ
quantize o raw =
    let rounded = o.resolution * (raw / o.resolution) in
    if ltb rounded raw
    then (if ltb (max_time - rounded) o.resolution then max_time else rounded + o.resolution)
    else rounded

-- `try_emplace(deadline)` and `push_back(entry)` on `std::map<Timestamp, Bucket>`.
unfoldable pub push_entry : ℕ → Entry → Buckets → Buckets
push_entry t e [] = (t, e ∷ []) ∷ []
push_entry t e ((u, es) ∷ bs) =
    if ltb t u
    then (t, e ∷ []) ∷ (u, es) ∷ bs
    else if t == u
    then (u, es ++ (e ∷ [])) ∷ bs
    else (u, es) ∷ push_entry t e bs

-- `bucket->second.erase(entry)`.
unfoldable pub erase_from : DeadlineToken → List Entry → List Entry
erase_from t [] = []
erase_from t (e ∷ es) = if token_eq e.token t then es else e ∷ erase_from t es

abbrev keep_bucket : ℕ → List Entry → Buckets → Buckets
keep_bucket u [] bs = bs
keep_bucket u (e ∷ es) bs = (u, e ∷ es) ∷ bs

-- Finds the bucket, erases the entry in it, and the bucket too if that leaves it empty; `none` is
-- the `std::logic_error` of a missing bucket.
unfoldable pub erase_entry : ℕ → DeadlineToken → Buckets → Option Buckets
unfolding erase_from
erase_entry t k [] = none
erase_entry t k ((u, es) ∷ bs) =
    let rest = erase_entry t k bs in
    if t == u
    then some (keep_bucket u (erase_from k es) bs)
    else elim rest [ none ↦ none | some bs' ↦ some ((u, es) ∷ bs') ]

-- `schedule`: `none` is an exception, an exhausted generation space or a missing bucket.
unfoldable pub schedule : DeadlineQueue → ℕ → ℕ → Option (DeadlineToken × DeadlineQueue)
schedule q key deadline =
    let token : DeadlineToken = record { key = key; generation = q.next_generation } in
    let at : ℕ = quantize q.options deadline in
    let entry : Entry = record { token = token; deadline = deadline } in
    let pushed = push_entry at entry q.buckets in
    let index = assign key (record { bucket_deadline = at; entry = entry }) q.entries in
    let done = λ (bs : Buckets). some (
      token,
      record q { next_generation = q.next_generation + 1; buckets = bs; entries = index },
    ) in
    if q.next_generation == 2 ^ 64 - 1 then none else elim (find key q.entries) [
      | none ↦ done pushed
      | some old ↦ elim (erase_entry old.bucket_deadline old.entry.token pushed) [
        | none ↦ none
        | some bs ↦ done bs
      ]
    ]

-- `eraseLocation`.
unfoldable pub erase_at : DeadlineQueue → ℕ → Location → Option DeadlineQueue
erase_at q key l = elim (erase_entry l.bucket_deadline l.entry.token q.buckets) [
  | none ↦ none
  | some bs ↦ some (record q { buckets = bs; entries = erase key q.entries })
]

unfoldable pub cancel : DeadlineQueue → DeadlineToken → Option (Bool × DeadlineQueue)
unfolding erase_at
cancel q token =
    if valid token
    then elim (find token.key q.entries) [
      | none ↦ some (false, q)
      | some l ↦
          if token_eq l.entry.token token
          then elim (erase_at q token.key l) [ none ↦ none | some q' ↦ some (true, q') ]
          else some (false, q)
    ]
    else some (false, q)

abbrev pub Advanced : Type 0
Advanced = List Entry × Buckets × Index

-- The index must name the entry that is taken; `none` is the `std::logic_error`.
unfoldable pub expire : Entry → Option Location → Option Advanced → Option Advanced
expire e none rest = none
expire e (some l) none = none
expire e (some l) (some (expired, bs, ix)) =
    if token_eq l.entry.token e.token then some (e ∷ expired, bs, ix) else none

-- The `while` loop of `advance`, with `n` expirations left in the budget.
unfoldable pub advance_loop : ℕ → ℕ → Buckets → Index → Option Advanced
unfolding expire
advance_loop now zero bs ix = some ([], bs, ix)
advance_loop now (suc n) [] ix = some ([], [], ix)
advance_loop now (suc n) ((u, []) ∷ bs) ix = none
advance_loop now (suc n) ((u, e ∷ es) ∷ bs) ix =
    let rest = advance_loop now n (keep_bucket u es bs) (erase e.token.key ix) in
    if leb u now then expire e (find e.token.key ix) rest else some ([], (u, e ∷ es) ∷ bs, ix)

-- The first bucket is due.
abbrev pub is_ready : ℕ → Buckets → Bool
is_ready now [] = false
is_ready now ((u, es) ∷ bs) = leb u now

abbrev pub first_deadline : Buckets → ℕ
first_deadline [] = 0
first_deadline ((u, es) ∷ bs) = u

unfoldable pub advance : DeadlineQueue → ℕ → Option (DeadlineAdvanceResult × DeadlineQueue)
unfolding advance_loop
advance q now =
    let loop = advance_loop now q.options.max_expired_per_advance q.buckets q.entries in
    if is_ready now q.buckets
    then elim loop [
      | none ↦ none
      | some (expired, bs, ix) ↦ some (
        record {
          expired = expired;
          ready_remaining = is_ready now bs;
          oldest_ready_latency = now - first_deadline q.buckets;
        },
        record q { buckets = bs; entries = ix },
      )
    ]
    else some (record { expired = []; ready_remaining = false; oldest_ready_latency = 0 }, q)

unfoldable pub clear : DeadlineQueue → DeadlineQueue
clear q = record q { buckets = []; entries = [] }

unfoldable pub size : DeadlineQueue → ℕ
size q = length q.entries

unfoldable pub next_bucket_deadline : DeadlineQueue → Option ℕ
next_bucket_deadline q = elim q.buckets [ [] ↦ none | (u, es) ∷ bs ↦ some u ]
