-- ===== src/Core/TimerQueue/Indexed.antt =====
-- The timers of the queue's two indexes: every timer is in one status, and all operations on the
-- loop's thread keep it so.
use game_net_core.Prelude.{
  ℕ, suc, ◌+◌, ◌≤◌, ◌<◌, ◌≡◌, inl, inr, refl, sym, ap, subst, ◌∙◌, true, false, ◌&&◌, Option, none,
  some, List, [], ◌∷◌, ◌++◌, ◌==◌, if◌then◌else◌, arith, Bool-cases, find, find-erase, find-assign,
}
use game_net_core.Core.TimerQueue.{
  Timer, Keys, TimerQueue, RepeatingTimerOptions, with_timer, insert_key, erase_key, insert,
  try_add_timer, cancel_in_loop,
}

-- The expirations that the queue holds a timer under.
abbrev pub times : ℕ → Keys → List ℕ
times s [] = []
times s ((s', t) ∷ ks) = if s' == s then t ∷ times s ks else times s ks

abbrev pub count : ℕ → List ℕ → ℕ
count s [] = 0
count s (e ∷ es) = if e == s then suc (count s es) else count s es

pub count-append : (id : ℕ) (xs ys : List ℕ) → count id (xs ++ ys) ≡ count id xs + count id ys
count-append id [] ys = omega arith
count-append id (x ∷ xs) ys = ground (arith, count-append id xs ys)

-- A timer is unknown, or it waits in the queue, or it runs: it is taken out of the queue and has yet
-- to be reset, or it was canceled while it runs.
pub data Status (next s n : ℕ) (known : Option ℕ) (held : List ℕ) (t : Timer) : Type 0 where
  unknown : known ≡ none → held ≡ [] → n ≡ 0 → Status next s n known held t
  waiting :
      known ≡ some s
      → held ≡ t.expiration ∷ []
      → n ≡ 0
      → t.in_queue ≡ true
      → t.canceled ≡ false
      → s < next
      → Status next s n known held t
  running :
      known ≡ some s
      → held ≡ []
      → n ≡ 1
      → t.in_queue ≡ false
      → s < next
      → Status next s n known held t
  stopped :
      known ≡ none → held ≡ [] → n ≡ 1 → t.canceled ≡ true → s < next → Status next s n known held t

-- Each timer's status, where the given ones are those taken out and not yet reset.
abbrev pub AreIndexed : List ℕ → TimerQueue → Type 0
AreIndexed es q =
    (s : ℕ) → Status q.next_sequence s (count s es) (find s q.by_id) (times s q.timers) (q.heap s)

times-insert_key :
    (s t s' : ℕ) (ks : Keys)
    → times s ks ≡ []
    → times s' (insert_key (s, t) ks) ≡ (if s == s' then t ∷ [] else times s' ks)
unfolding insert_key
times-insert_key s t s' [] e = ground arith
times-insert_key s t s' ((k, u) ∷ ks) e = elim (Bool-cases (k == s)) [
  | inl same ↦ absurd (ground (arith, same, e))
  | inr other ↦ ground (arith, other, times-insert_key s t s' ks)
]

times-erase_key :
    (s t s' : ℕ) (ks : Keys)
    → times s ks ≡ t ∷ []
    → times s' (erase_key (s, t) ks) ≡ (if s == s' then [] else times s' ks)
unfolding erase_key
times-erase_key s t s' [] e = absurd (cc)
times-erase_key s t s' ((k, u) ∷ ks) e = elim (Bool-cases (k == s)) [
  | inl same ↦
      let head : u ≡ t = ground (arith, same, e) in
      let rest : times s ks ≡ [] = ground (arith, same, e) in
      let hit : (s == k && t == u) ≡ true = ground (arith, same, head) in
      rw hit (elim (Bool-cases (s == s')) [
        | inl y ↦ rw y (subst (λ j. times j ks ≡ []) (ground (arith, y)) rest)
        | inr n ↦ let n' : (k == s') ≡ false = ground (arith, same, n) in rw (n, n') refl
      ])
  | inr other ↦ ground (arith, other, times-erase_key s t s' ks)
]

-- A status passes to equal parts.
pub moved :
    {next next' s n n' : ℕ} {f f' : Option ℕ} {ts ts' : List ℕ} {t t' : Timer}
    → next ≤ next'
    → n ≡ n'
    → f ≡ f'
    → ts ≡ ts'
    → t ≡ t'
    → Status next s n f ts t
    → Status next' s n' f' ts' t'
moved le en ef et e (unknown k h z) = unknown (sym ef ∙ k) (sym et ∙ h) (sym en ∙ z)
moved le en ef et e (waiting k h z i c b) =
    waiting (sym ef ∙ k) (sym et ∙ h ∙ ap (λ t. t.expiration ∷ []) e) (sym en ∙ z)
      (sym (ap (λ t. t.in_queue) e) ∙ i) (sym (ap (λ t. t.canceled) e) ∙ c) (omega (arith, le, b))
moved le en ef et e (running k h z i b) =
    running (sym ef ∙ k) (sym et ∙ h) (sym en ∙ z) (sym (ap (λ t. t.in_queue) e) ∙ i)
      (omega (arith, le, b))
moved le en ef et e (stopped k h z c b) =
    stopped (sym ef ∙ k) (sym et ∙ h) (sym en ∙ z) (sym (ap (λ t. t.canceled) e) ∙ c)
      (omega (arith, le, b))

-- Inserting a timer that is not queued, and is not in the batch, makes it wait.
pub insert-AreIndexed :
    (e : ℕ) (es : List ℕ) (q : TimerQueue)
    → ((s : ℕ)
        → (e == s) ≡ false
        → Status q.next_sequence s (count s es) (find s q.by_id) (times s q.timers) (q.heap s))
    → times e q.timers ≡ []
    → count e es ≡ 0
    → e < q.next_sequence
    → AreIndexed es (insert e q)
unfolding insert
insert-AreIndexed e es q others none_held out below s =
    let found = find-assign e s e q.by_id in
    let held = times-insert_key e (q.heap e).expiration s q.timers none_held in
    elim (Bool-cases (e == s)) [
      | inl y ↦
          let same : e ≡ s = ground (arith, y) in
          let out' : count s es ≡ 0 = subst (λ j. count j es ≡ 0) same out in
          waiting (found ∙ rw y (ap some same)) (held ∙ rw y refl) out' (rw y refl) (rw y refl)
            (omega (arith, same, below))
      | inr n ↦
          moved (omega arith) refl (sym (found ∙ rw n refl)) (sym (held ∙ rw n refl)) (rw n refl)
            (others s n)
    ]

-- No number that has yet to be given out is in use.
pub fresh-unknown :
    {next s n : ℕ} {f : Option ℕ} {ts : List ℕ} {t : Timer}
    → next ≤ s
    → Status next s n f ts t
    → (f ≡ none) × (ts ≡ []) × (n ≡ 0)
fresh-unknown p (unknown k h z) = (k, h, z)
fresh-unknown p (waiting k h z i c b) = absurd (omega (arith, p, b))
fresh-unknown p (running k h z i b) = absurd (omega (arith, p, b))
fresh-unknown p (stopped k h z c b) = absurd (omega (arith, p, b))

pub try_add_timer-AreIndexed :
    (when interval : ℕ) (o : RepeatingTimerOptions) (es : List ℕ) (q : TimerQueue)
    → AreIndexed es q
    → AreIndexed es (try_add_timer when interval o q).1
unfolding try_add_timer
try_add_timer-AreIndexed when interval o es q v =
    let (k, h, z) = fresh-unknown (omega arith) (v q.next_sequence) in
    elim (Bool-cases q.admitting) [
      | inl running_loop ↦ rw running_loop (
          insert-AreIndexed q.next_sequence es (with_timer when interval o q)
            (λ s n. moved (omega arith) refl refl refl (rw n refl) (v s)) h z (omega arith))
      | inr closed ↦ rw closed (λ s. elim (Bool-cases (q.next_sequence == s)) [
        | inl y ↦
            let same : q.next_sequence ≡ s = ground (arith, y) in
            let (k', h', z') = fresh-unknown (omega (arith, same)) (v s) in unknown k' h' z'
        | inr n ↦ moved (omega arith) refl refl refl (rw n refl) (v s)
      ])
    ]

-- A canceled timer that waits becomes unknown, and one that runs is stopped.
pub cancel_in_loop-AreIndexed :
    (id : ℕ) (es : List ℕ) (q : TimerQueue) → AreIndexed es q → AreIndexed es (cancel_in_loop id q)
unfolding cancel_in_loop
cancel_in_loop-AreIndexed id es q v = elim (v id) [
  | unknown k h z ↦ rw (cancel_in_loop, k) v
  | stopped k h z c b ↦ rw (cancel_in_loop, k) v
  | waiting k h z i c b ↦
      rw (cancel_in_loop, k, i)
        (λ s.
          let found = find-erase id s q.by_id in
          let held = times-erase_key id (q.heap id).expiration s q.timers h in
          elim (Bool-cases (id == s)) [
            | inl y ↦
                unknown (found ∙ rw y refl) (held ∙ rw y refl)
                  (subst (λ j. count j es ≡ 0) (ground (arith, y)) z)
            | inr n ↦
                moved (omega arith) refl (sym (found ∙ rw n refl)) (sym (held ∙ rw n refl))
                  (rw n refl) (v s)
          ])
  | running k h z i b ↦
      rw (cancel_in_loop, k, i)
        (λ s.
          let found = find-erase id s q.by_id in
          elim (Bool-cases (id == s)) [
            | inl y ↦
                let same : id ≡ s = ground (arith, y) in
                stopped (found ∙ rw y refl) (subst (λ j. times j q.timers ≡ []) same h)
                  (subst (λ j. count j es ≡ 1) same z) (rw y refl) (omega (arith, same, b))
            | inr n ↦ moved (omega arith) refl (sym (found ∙ rw n refl)) refl (rw n refl) (v s)
          ])
]
