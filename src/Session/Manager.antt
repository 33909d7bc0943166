-- ===== src/Session/Manager.antt =====
-- `SessionManager` of include/gamenet/game_session/SessionManager.h and
-- src/game_session/SessionManager.cc, and `PlayerSession`, its sessions. Everything runs on the
-- management loop. Player ids are only compared and tested for emptiness: a number stands for
-- each, zero for the empty one. A `shared_ptr` to a session is the session's id, and the heap maps
-- ids to sessions; a session's binding cell has the session's id for its handle. Time points count
-- clock ticks since the epoch.
pub mod Linked
mod Steps
mod Outcome
pub mod Authenticate
pub mod Rebinding
pub mod Leaving
mod Tests
use game_net_core.Prelude.{
  ℕ, zero, suc, ◌+◌, ◌^◌, Bool, true, false, not, ◌&&◌, ◌||◌, Option, none, some, List, [], ◌∷◌,
  ◌++◌, ltb, leb, ◌==◌, if◌then◌else◌, length, add64, find, erase, assign,
}
use game_net_core.Session.Binding.{SessionBinding, Cells, store_generation}
use game_net_core.Core.DeadlineQueue
use game_net_core.Core.DeadlineQueue.{DeadlineQueue, DeadlineToken, Entry, token_eq}

pub data SessionState : Type 0 where
  authenticating online offline : SessionState

pub data CloseReason : Type 0 where
  normal going_away protocol_error replaced idle_timeout overloaded : CloseReason

pub data DuplicateLoginPolicy : Type 0 where
  replace_existing reject_new : DuplicateLoginPolicy

pub data AuthenticateStatus : Type 0 where
  created existing rebound rejected : AuthenticateStatus

-- `gamenet::DispatchResult`.
pub data DispatchResult : Type 0 where
  accepted queue_full owner_unavailable shut_down endpoint_closed endpoint_overloaded
        policy_rejected :
      DispatchResult

-- A `shared_ptr<TransportEndpoint>`: which object it points to, and the object's `id()`.
pub record Endpoint : Type 0 where
  pub pointer : ℕ
  pub id : ℕ

pub record PlayerSession : Type 0 where
  pub session_id : ℕ
  pub player_id : ℕ
  pub state : SessionState
  pub endpoint : Endpoint
  pub last_activity : ℕ
  pub generation : ℕ
  pub idle_deadline : DeadlineToken

pub record AuthenticateResult : Type 0 where
  pub status : AuthenticateStatus
  pub session : Option ℕ
  pub dispatch : DispatchResult

pub record Options : Type 0 where
  pub duplicate_login : DuplicateLoginPolicy
  pub idle_timeout : ℕ

abbrev pub Heap : Type 0
Heap = ℕ → PlayerSession

abbrev pub update_session : Heap → ℕ → PlayerSession → Heap
update_session heap h s k = if h == k then s else heap k

-- `closes` is what `closeEndpoint` has asked for, the latest first.
pub record Manager : Type 0 where
  pub running : Bool
  pub options : Options
  pub deadlines : DeadlineQueue
  pub next_session_id : ℕ
  pub next_generation : ℕ
  pub by_player : List (ℕ × ℕ)
  pub by_transport : List (ℕ × ℕ)
  pub heap : Heap
  pub cells : Cells
  pub closes : List (Endpoint × CloseReason)

abbrev pub no_token : DeadlineToken
no_token = record { key = 0; generation = 0 }

-- `PlayerSession::binding`.
unfoldable pub binding : PlayerSession → SessionBinding
binding s = record {
  session_id = s.session_id;
  transport_id = s.endpoint.id;
  generation = s.generation;
  state = some s.session_id;
}

abbrev pub set_session : Manager → ℕ → PlayerSession → Manager
set_session m h s = record m { heap = update_session m.heap h s }

-- `PlayerSession::markOffline`.
unfoldable pub mark_offline : Manager → ℕ → Manager
mark_offline m h = record m {
  cells = store_generation m.cells h 0;
  heap = update_session m.heap h (record (m.heap h) { state = offline });
}

-- `PlayerSession::refreshBinding`, with `markOnline`.
unfoldable pub refresh_binding : Manager → ℕ → ℕ → ℕ → Manager
refresh_binding m h generation now = record m {
  cells = store_generation (store_generation m.cells h 0) h generation;
  heap =
      update_session m.heap h
        (record (m.heap h) { generation = generation; state = online; last_activity = now });
}

-- `PlayerSession::rebind`, with `markOnline`.
unfoldable pub rebind : Manager → ℕ → Endpoint → ℕ → ℕ → Manager
rebind m h endpoint generation now = record m {
  cells = store_generation (store_generation m.cells h 0) h generation;
  heap = update_session m.heap h (record (m.heap h) {
    endpoint = endpoint;
    generation = generation;
    state = online;
    last_activity = now;
  });
}

-- `PlayerSession::heartbeat`.
unfoldable pub touch : Manager → ℕ → ℕ → Manager
touch m h now = record m {
  heap = update_session m.heap h (record (m.heap h) { last_activity = now });
}

unfoldable pub close_endpoint : Manager → Endpoint → CloseReason → Manager
close_endpoint m e reason = record m { closes = (e, reason) ∷ m.closes }

-- `session->idleDeadline_ = idleDeadlines_->schedule(...)`; `none` is an exception of the queue.
unfoldable pub schedule_idle : Manager → ℕ → ℕ → Option Manager
schedule_idle m h deadline =
    elim (DeadlineQueue.schedule m.deadlines (m.heap h).endpoint.id deadline) [
      | none ↦ none
      | some (token, q) ↦ some (record m {
        deadlines = q;
        heap = update_session m.heap h (record (m.heap h) { idle_deadline = token });
      })
    ]

-- `idleDeadlines_->cancel(session->idleDeadline_)`.
unfoldable pub cancel_idle : Manager → ℕ → Option Manager
cancel_idle m h = elim (DeadlineQueue.cancel m.deadlines (m.heap h).idle_deadline) [
  | none ↦ none
  | some (found, q) ↦ some (record m { deadlines = q })
]

abbrev pub Authenticated : Type 0
Authenticated = Option (AuthenticateResult × Manager)

abbrev pub answer : AuthenticateStatus → ℕ → Option Manager → Authenticated
answer status h none = none
answer status h (some m) =
    some (record { status = status; session = some h; dispatch = accepted }, m)

-- The endpoint's id is taken: by another player, or through another endpoint object.
unfoldable pub conflicts : Manager → ℕ → Endpoint → Option ℕ → Bool
conflicts m player e none = false
conflicts m player e (some h) =
    not ((m.heap h).player_id == player && (m.heap h).endpoint.pointer == e.pointer)

unfoldable pub refuse_transport : Manager → Endpoint → Option ℕ → Manager
unfolding close_endpoint
refuse_transport m e none = m
refuse_transport m e (some h) =
    if (m.heap h).endpoint.pointer == e.pointer then m else close_endpoint m e protocol_error

abbrev pub index : ℕ → Manager → Manager
index h m = record m {
  by_transport = assign (m.heap h).endpoint.id h m.by_transport;
  by_player = assign (m.heap h).player_id h m.by_player;
}

abbrev pub map_manager : (Manager → Manager) → Option Manager → Option Manager
map_manager f none = none
map_manager f (some m) = some (f m)

-- The new session, online and current, before its deadline and its places in the indexes.
unfoldable pub new_session : Manager → ℕ → Endpoint → ℕ → Manager
new_session m player e now =
    let h = m.next_session_id in
    record m {
      next_session_id = add64 m.next_session_id 1;
      next_generation = add64 m.next_generation 1;
      cells = store_generation m.cells h m.next_generation;
      heap = update_session m.heap h (record {
        session_id = h;
        player_id = player;
        state = online;
        endpoint = e;
        last_activity = now;
        generation = m.next_generation;
        idle_deadline = no_token;
      });
    }

unfoldable pub create_session : Manager → ℕ → Endpoint → ℕ → Authenticated
unfolding new_session schedule_idle
create_session m player e now = answer created m.next_session_id (
    map_manager (index m.next_session_id)
      (schedule_idle (new_session m player e now) m.next_session_id (now + m.options.idle_timeout)))

unfoldable pub refresh_session : Manager → ℕ → ℕ → Authenticated
unfolding refresh_binding schedule_idle
refresh_session m h now =
    let m' = record (refresh_binding m h m.next_generation now) {
      next_generation = add64 m.next_generation 1;
    } in
    answer existing h (schedule_idle m' h (now + m.options.idle_timeout))

abbrev pub unindex_transport : ℕ → Manager → Manager
unindex_transport h m = record m { by_transport = erase (m.heap h).endpoint.id m.by_transport }

abbrev pub index_transport : ℕ → Manager → Manager
index_transport h m = record m { by_transport = assign (m.heap h).endpoint.id h m.by_transport }

unfoldable pub rebind_session : Manager → ℕ → Endpoint → ℕ → Authenticated
unfolding rebind schedule_idle cancel_idle close_endpoint
rebind_session m h e now = elim (cancel_idle m h) [
  | none ↦ none
  | some m₁ ↦
      let m₂ = unindex_transport h m₁ in
      let m₃ = record (rebind m₂ h e m.next_generation now) {
        next_generation = add64 m.next_generation 1;
      } in
      answer rebound h (
        map_manager (λ m₄. close_endpoint (index_transport h m₄) (m.heap h).endpoint replaced)
          (schedule_idle m₃ h (now + m.options.idle_timeout)))
]

-- `authenticate` for a player that has a session already.
unfoldable pub login_again : Manager → ℕ → Endpoint → ℕ → Authenticated
unfolding refresh_session rebind_session
login_again m h e now =
    if (m.heap h).endpoint.id == e.id
    then refresh_session m h now
    else elim m.options.duplicate_login [
      | reject_new ↦
          some (record { status = rejected; session = some h; dispatch = policy_rejected }, m)
      | replace_existing ↦ rebind_session m h e now
    ]

abbrev pub login : Manager → ℕ → Endpoint → ℕ → Option ℕ → Authenticated
login m player e now none = create_session m player e now
login m player e now (some h) = login_again m h e now

-- A null endpoint is `none`.
unfoldable pub authenticate : Manager → ℕ → Option Endpoint → ℕ → Authenticated
unfolding conflicts refuse_transport create_session login_again
authenticate m player none now = some (
  record {
    status = rejected;
    session = none;
    dispatch = if m.running then policy_rejected else shut_down;
  },
  m,
)
authenticate m player (some e) now =
    let owner = find e.id m.by_transport in
    if not m.running
    then some (record { status = rejected; session = none; dispatch = shut_down }, m)
    else if player == 0
    then some (record { status = rejected; session = none; dispatch = policy_rejected }, m)
    else if conflicts m player e owner
    then some (
      record { status = rejected; session = none; dispatch = policy_rejected },
      refuse_transport m e owner,
    )
    else login m player e now (find player m.by_player)

-- `eraseSession`.
unfoldable pub erase_session : Manager → ℕ → Option Manager
unfolding cancel_idle mark_offline
erase_session m h = elim (cancel_idle m h) [
  | none ↦ none
  | some m₁ ↦
      let s : PlayerSession = record (m₁.heap h) { idle_deadline = no_token } in
      let keeps : Bool = elim (find s.player_id m₁.by_player) [ none ↦ false | some k ↦ k == h ] in
      some (
        mark_offline
          (record m₁ {
            heap = update_session m₁.heap h s;
            by_transport = erase s.endpoint.id m₁.by_transport;
            by_player = if keeps then erase s.player_id m₁.by_player else m₁.by_player;
          })
          h)
]

abbrev pub done : Option Manager → Option (Bool × Manager)
done none = none
done (some m) = some (true, m)

unfoldable pub take_offline : Manager → ℕ → Option (Bool × Manager)
unfolding erase_session
take_offline m transport = elim (find transport m.by_transport) [
  | none ↦ some (false, m)
  | some h ↦
      if m.running && (m.heap h).endpoint.id == transport
      then done (erase_session m h)
      else some (false, m)
]

unfoldable pub heartbeat : Manager → ℕ → ℕ → Option (Bool × Manager)
unfolding touch schedule_idle
heartbeat m transport now = elim (find transport m.by_transport) [
  | none ↦ some (false, m)
  | some h ↦
      if m.running && (m.heap h).endpoint.id == transport
      then done (schedule_idle (touch m h now) h (now + m.options.idle_timeout))
      else some (false, m)
]

-- One expired deadline of `expireIdleBatch`; the number counts sessions that were expired. The
-- source compares `now - lastActivity` with the timeout.
unfoldable pub expire_one : Manager → ℕ → Entry → Option (ℕ × Manager)
unfolding erase_session schedule_idle close_endpoint
expire_one m now e = elim (find e.token.key m.by_transport) [
  | none ↦ some (0, m)
  | some h ↦
      let s = m.heap h in
      if not (token_eq s.idle_deadline e.token)
      then some (0, m)
      else if ltb now (s.last_activity + m.options.idle_timeout)
      then elim (schedule_idle m h (s.last_activity + m.options.idle_timeout)) [
        | none ↦ none
        | some m' ↦ some (0, m')
      ]
      else elim (erase_session m h) [
        | none ↦ none
        | some m' ↦ some (1, close_endpoint m' s.endpoint idle_timeout)
      ]
]

unfoldable pub expire_all : Manager → ℕ → List Entry → Option (ℕ × Manager)
unfolding expire_one
expire_all m now [] = some (0, m)
expire_all m now (e ∷ es) = elim (expire_one m now e) [
  | none ↦ none
  | some (n, m') ↦ elim (expire_all m' now es) [ none ↦ none | some (k, m'') ↦ some (n + k, m'') ]
]

-- `expireIdleBatch`: how many sessions were expired, and whether deadlines are due still.
unfoldable pub expire_idle_batch : Manager → ℕ → Option (ℕ × Bool × Manager)
unfolding expire_all
expire_idle_batch m now =
    if m.running
    then elim (DeadlineQueue.advance m.deadlines now) [
      | none ↦ none
      | some (ready, q) ↦ elim (expire_all (record m { deadlines = q }) now ready.expired) [
        | none ↦ none
        | some (n, m') ↦ some (n, ready.ready_remaining, m')
      ]
    ]
    else some (0, false, m)

unfoldable pub find_by_player : Manager → ℕ → Option ℕ
find_by_player m player = find player m.by_player

unfoldable pub find_by_transport : Manager → ℕ → Option ℕ
find_by_transport m transport = find transport m.by_transport

unfoldable pub session_count : Manager → ℕ
session_count m = length m.by_player

-- The loop of `shutdown` over the players, and the closing of their endpoints.
unfoldable pub revoke_all : Manager → List (ℕ × ℕ) → Manager
unfolding mark_offline
revoke_all m [] = m
revoke_all m ((player, h) ∷ rest) = revoke_all (mark_offline m h) rest

abbrev pub endpoints_of : Heap → List (ℕ × ℕ) → List (Endpoint × CloseReason)
endpoints_of heap [] = []
endpoints_of heap ((player, h) ∷ rest) = ((heap h).endpoint, going_away) ∷ endpoints_of heap rest

unfoldable pub shutdown : Manager → Manager
unfolding revoke_all
shutdown m =
    if m.running
    then record (revoke_all m m.by_player) {
      running = false;
      by_transport = [];
      by_player = [];
      deadlines = DeadlineQueue.clear m.deadlines;
      closes = endpoints_of m.heap m.by_player ++ m.closes;
    }
    else m
