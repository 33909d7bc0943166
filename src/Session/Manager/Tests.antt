-- ===== src/Session/Manager/Tests.antt =====
-- The session manager's theorems at concrete inputs.
use game_net_core.Prelude.{
  ◌≡◌, ◌<◌, refl, true, false, none, some, [], ◌∷◌, arith, find, ◌==◌, Bool-cases, inl, inr,
}
use game_net_core.Session.Binding.{SessionBinding, is_current}
use game_net_core.Core.DeadlineQueue.{DeadlineQueue, Entry}
use game_net_core.Core.DeadlineQueue.Agree.{IsConsistent}
use game_net_core.Session.Manager.{
  Manager, PlayerSession, Endpoint, online, replace_existing, rebound, accepted, replaced,
  authenticate, binding, take_offline,
}
use game_net_core.Session.Manager.Linked.{IsLinked, HasNumbers}
use game_net_core.Session.Manager.Outcome.{Outcome}
use game_net_core.Session.Manager.Rebinding.{rebind_lem}
use game_net_core.Session.Manager.Leaving.{take_offline_lem}

abbrev entry : Entry
entry = record { token = record { key = 9; generation = 1 }; deadline = 40 }

abbrev queue : DeadlineQueue
queue = record {
  options = record { resolution = 10; max_expired_per_advance = 2 };
  next_generation = 2;
  buckets = (40, entry ∷ []) ∷ [];
  entries = (9, record { bucket_deadline = 40; entry = entry }) ∷ [];
}

abbrev old_endpoint : Endpoint
old_endpoint = record { pointer = 100; id = 9 }

abbrev new_endpoint : Endpoint
new_endpoint = record { pointer = 101; id = 11 }

abbrev session : PlayerSession
session = record {
  session_id = 1;
  player_id = 5;
  state = online;
  endpoint = old_endpoint;
  last_activity = 10;
  generation = 1;
  idle_deadline = entry.token;
}

-- Player 5 is in, at transport 9.
abbrev manager : Manager
manager = record {
  running = true;
  options = record { duplicate_login = replace_existing; idle_timeout = 30 };
  deadlines = queue;
  next_session_id = 2;
  next_generation = 2;
  by_player = (5, 1) ∷ [];
  by_transport = (9, 1) ∷ [];
  heap = λ k. session;
  cells = λ k. 1;
  closes = [];
}

queue-IsConsistent : IsConsistent queue
unfolding find
queue-IsConsistent = record {
  agree = record {
    matched = λ k. elim (Bool-cases (9 == k)) [ inl e ↦ rw e refl | inr e ↦ rw e refl ];
    ordered = (omega arith, (λ eq. absurd (cc)), tt);
    keyed = λ k l there. ground arith;
  };
  resolved = omega arith;
  budgeted = omega arith;
  first = omega arith;
}

manager-IsLinked : IsLinked manager
unfolding find
manager-IsLinked = record {
  transports = λ t h at. ground arith;
  players = λ p h at. record {
    owns = ground arith;
    found = ground arith;
    is_online = refl;
    named = ground arith;
    current = refl;
    positive = omega arith;
    older = omega arith;
    numbered = ground arith;
  };
  first = omega arith;
}

manager-HasNumbers : HasNumbers manager
manager-HasNumbers = record {
  sessions = omega arith;
  generations = omega arith;
  deadlines = omega arith;
}

rebind_lem_example :
    (m' : Manager) × (authenticate manager 5 (some new_endpoint) 20
      ≡ some (record { status = rebound; session = some 1; dispatch = accepted }, m'))
    × (find 9 m'.by_transport ≡ none)
    × (m'.closes ≡ (old_endpoint, replaced) ∷ [])
    × ((b : SessionBinding)
        → b.state ≡ some 1
        → 0 < b.generation
        → b.generation < 2
        → is_current m'.cells b ≡ false)
    × (is_current m'.cells (binding (m'.heap 1)) ≡ true)
unfolding find
rebind_lem_example =
    rebind_lem manager 5 1 new_endpoint 20 manager-IsLinked queue-IsConsistent manager-HasNumbers
      refl refl refl refl refl refl

take_offline_lem_example :
    (m' : Manager) × (take_offline manager 9 ≡ some (true, m'))
    × IsLinked m'
    × IsConsistent m'.deadlines
    × (find 9 m'.by_transport ≡ none)
    × (find 5 m'.by_player ≡ none)
    × ((b : SessionBinding) → b.state ≡ some 1 → 0 < b.generation → is_current m'.cells b ≡ false)
unfolding find
take_offline_lem_example =
    take_offline_lem manager 9 1 manager-IsLinked queue-IsConsistent refl refl
