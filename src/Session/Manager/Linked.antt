-- ===== src/Session/Manager/Linked.antt =====
-- How the two indexes of the session manager, its sessions and their bindings hang together.
use game_net_core.Prelude.{
  ℕ, ◌-◌, ◌^◌, ◌≤◌, ◌<◌, ◌≡◌, ◌≢◌, false, Bool-cases, inl, inr, some, arith, ◌==◌, find, ==_iff,
}
use game_net_core.Core.DeadlineQueue.{DeadlineQueue, DeadlineToken}
use game_net_core.Session.Manager.{Manager, online, update_session}

-- A session that the index of players names: it is the player's, the index of transports leads from
-- its endpoint back to it, it is online, and its binding is the current one.
pub record IsLive (m : Manager) (p h : ℕ) : Type 0 where
  pub owns : (m.heap h).player_id ≡ p
  pub found : find (m.heap h).endpoint.id m.by_transport ≡ some h
  pub is_online : (m.heap h).state ≡ online
  pub named : (m.heap h).session_id ≡ h
  pub current : m.cells h ≡ (m.heap h).generation
  pub positive : 0 < (m.heap h).generation
  pub older : (m.heap h).generation < m.next_generation
  pub numbered : h < m.next_session_id

pub record IsLinked (m : Manager) : Type 0 where
  pub transports :
      (t h : ℕ)
      → find t m.by_transport ≡ some h
      → ((m.heap h).endpoint.id ≡ t) × (find (m.heap h).player_id m.by_player ≡ some h)
  pub players : (p h : ℕ) → find p m.by_player ≡ some h → IsLive m p h
  pub first : 0 < m.next_generation

-- The counters have not run out.
pub record HasNumbers (m : Manager) : Type 0 where
  pub sessions : m.next_session_id < 2 ^ 64 - 1
  pub generations : m.next_generation < 2 ^ 64 - 1
  pub deadlines : m.deadlines.next_generation < 2 ^ 64 - 1

abbrev pub with_deadline : Manager → ℕ → DeadlineQueue → DeadlineToken → Manager
with_deadline m h q token = record m {
  deadlines = q;
  heap = update_session m.heap h (record (m.heap h) { idle_deadline = token });
}

pub with_deadline-IsLinked :
    (m : Manager) (h : ℕ) (q : DeadlineQueue) (token : DeadlineToken)
    → IsLinked m
    → IsLinked (with_deadline m h q token)
with_deadline-IsLinked m h q token v = record {
  transports = λ t k e. ground (arith, v.transports t k e);
  players = λ p k e. let l = v.players p k e in ground arith;
  first = v.first;
}

pub transport-numbered :
    (m : Manager) (t k : ℕ) → IsLinked m → find t m.by_transport ≡ some k → k < m.next_session_id
transport-numbered m t k v e = (v.players (m.heap k).player_id k (v.transports t k e).1).numbered

-- All but session `h` is as before, in the heap and in the indexes.
pub record IsElsewhere (m m' : Manager) (h : ℕ) : Type 0 where
  pub same :
      (k : ℕ)
      → (h == k) ≡ false
      → ((m'.heap k).player_id ≡ (m.heap k).player_id)
        × ((m'.heap k).endpoint.id ≡ (m.heap k).endpoint.id)
        × ((m'.heap k).state ≡ (m.heap k).state)
        × ((m'.heap k).session_id ≡ (m.heap k).session_id)
        × ((m'.heap k).generation ≡ (m.heap k).generation)
        × (m'.cells k ≡ m.cells k)
  pub transports :
      (t k : ℕ)
      → (h == k) ≡ false
      → ((find t m.by_transport ≡ some k) → (find t m'.by_transport ≡ some k))
        × ((find t m'.by_transport ≡ some k) → (find t m.by_transport ≡ some k))
  pub players :
      (p k : ℕ)
      → (h == k) ≡ false
      → ((find p m.by_player ≡ some k) → (find p m'.by_player ≡ some k))
        × ((find p m'.by_player ≡ some k) → (find p m.by_player ≡ some k))
  pub generations : m.next_generation ≤ m'.next_generation
  pub sessions : m.next_session_id ≤ m'.next_session_id

elsewhere-IsLive :
    (m m' : Manager) (h p k : ℕ)
    → IsLinked m
    → IsElsewhere m m' h
    → (h == k) ≡ false
    → find p m'.by_player ≡ some k
    → IsLive m' p k
elsewhere-IsLive m m' h p k v w other at =
    let l = v.players p k ((w.players p k other).1 at) in
    let there = (w.transports (m.heap k).endpoint.id k other).0 l.found in
    ground (arith, w.same k other, l, w.generations, w.sessions, there)

elsewhere-transports :
    (m m' : Manager) (h t k : ℕ)
    → IsLinked m
    → IsElsewhere m m' h
    → (h == k) ≡ false
    → find t m'.by_transport ≡ some k
    → ((m'.heap k).endpoint.id ≡ t) × (find (m'.heap k).player_id m'.by_player ≡ some k)
elsewhere-transports m m' h t k v w other at =
    let (a, b) = v.transports t k ((w.transports t k other).1 at) in
    let there = (w.players (m.heap k).player_id k other).0 b in
    ground (arith, w.same k other, there, a)

-- Session `h` is live for one player at one transport, and the indexes name it nowhere else.
pub place-IsLinked :
    (m m' : Manager) (h p : ℕ)
    → IsLinked m
    → IsElsewhere m m' h
    → IsLive m' p h
    → find p m'.by_player ≡ some h
    → ((t : ℕ) → find t m'.by_transport ≡ some h → t ≡ (m'.heap h).endpoint.id)
    → ((q : ℕ) → find q m'.by_player ≡ some h → q ≡ p)
    → IsLinked m'
place-IsLinked m m' h p v w l at only_t only_p = record {
  transports = λ t k e. elim (Bool-cases (h == k)) [
    | inl same ↦ let eq : h ≡ k = (==_iff h k).0 same in ground (arith, l, at, only_t t)
    | inr other ↦ elsewhere-transports m m' h t k v w other e
  ];
  players = λ q k e. elim (Bool-cases (h == k)) [
    | inl same ↦ let eq : h ≡ k = (==_iff h k).0 same in ground (arith, l, only_p q)
    | inr other ↦ elsewhere-IsLive m m' h q k v w other e
  ];
  first = omega (arith, v.first, w.generations);
}

-- The indexes name session `h` no more.
pub drop-IsLinked :
    (m m' : Manager) (h : ℕ)
    → IsLinked m
    → IsElsewhere m m' h
    → ((t : ℕ) → find t m'.by_transport ≢ some h)
    → ((q : ℕ) → find q m'.by_player ≢ some h)
    → IsLinked m'
drop-IsLinked m m' h v w no_t no_p = record {
  transports = λ t k e. elim (Bool-cases (h == k)) [
    | inl same ↦ let eq : h ≡ k = (==_iff h k).0 same in absurd (no_t t (rw eq e))
    | inr other ↦ elsewhere-transports m m' h t k v w other e
  ];
  players = λ q k e. elim (Bool-cases (h == k)) [
    | inl same ↦ let eq : h ≡ k = (==_iff h k).0 same in absurd (no_p q (rw eq e))
    | inr other ↦ elsewhere-IsLive m m' h q k v w other e
  ];
  first = omega (arith, v.first, w.generations);
}
