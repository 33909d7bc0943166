-- ===== src/Session/Manager/Outcome.antt =====
-- What a login answers, case by case.
use game_net_core.Prelude.{
  ℕ, ◌+◌, ◌-◌, ◌^◌, ◌<◌, ◌≡◌, ◌⊎◌, refl, sym, Bool-cases, inl, inr, Option, none, some, arith, ◌==◌,
  if◌then◌else◌, ◌&&◌, false, [], ◌∷◌, add64, find, erase, find-assign,
}
use game_net_core.Core.DeadlineQueue.{DeadlineQueue, DeadlineToken}
use game_net_core.Core.DeadlineQueue.Agree.{IsConsistent}
use game_net_core.Core.DeadlineQueue.Schedule.{schedule_lem}
use game_net_core.Core.DeadlineQueue.Consistent.{with_key}
use game_net_core.Core.DeadlineQueue.Cancel.{cancel_lem}
use game_net_core.Session.Manager.{
  reject_new, replace_existing, Manager, Endpoint, AuthenticateResult, created, existing, rebound,
  rejected, accepted, schedule_idle, cancel_idle, refuse_transport, close_endpoint, new_session,
  create_session, refresh_session, rebind_session, refresh_binding, rebind, Authenticated,
  unindex_transport, protocol_error,
}
use game_net_core.Session.Manager.Linked.{IsLive, IsLinked, HasNumbers, with_deadline}
use game_net_core.Session.Manager.Steps.{
  created_manager, create-IsLinked, refreshed_manager, refresh-IsLinked, rebound_manager,
  rebind-IsLinked,
}

-- The queue has one deadline of the key, at this time and under this token.
abbrev pub IsScheduled : ℕ → ℕ → DeadlineToken → DeadlineQueue → Type 0
IsScheduled key deadline token q =
    (u : ℕ) × (with_key key q.buckets
      ≡ record { bucket_deadline = u; entry = record { token = token; deadline = deadline } } ∷ [])

pub schedule_idle-some :
    (m : Manager) (h deadline : ℕ)
    → IsConsistent m.deadlines
    → m.deadlines.next_generation < 2 ^ 64 - 1
    → (q : DeadlineQueue) × (token : DeadlineToken) × (schedule_idle m h deadline
        ≡ some (with_deadline m h q token))
      × IsConsistent q
      × IsScheduled (m.heap h).endpoint.id deadline token q
unfolding schedule_idle
schedule_idle-some m h deadline v room =
    let (q, done, c, due, _) = schedule_lem m.deadlines (m.heap h).endpoint.id deadline v room in
    (
      q,
      record { key = (m.heap h).endpoint.id; generation = m.deadlines.next_generation },
      rw (schedule_idle, done) refl,
      c,
      (_, due),
    )

pub cancel_idle-some :
    (m : Manager) (h : ℕ)
    → IsConsistent m.deadlines
    → (q : DeadlineQueue) × (cancel_idle m h ≡ some (record m { deadlines = q }))
      × IsConsistent q
      × (q.next_generation ≡ m.deadlines.next_generation)
unfolding cancel_idle
cancel_idle-some m h v =
    let (found, q, done, c) = cancel_lem m.deadlines (m.heap h).idle_deadline v in
    (q, rw (cancel_idle, done) refl, c.consistent, c.counted)

-- The session of the answer is the player's, at the endpoint, with its idle deadline scheduled. It
-- is new, or the one that the player had, at this endpoint's id or at another, as the status says.
-- A player that was in through an endpoint with another id got there by the policy.
pub record IsBound (player : ℕ) (e : Endpoint) (now : ℕ) (before : Manager) (r : AuthenticateResult)
    (m : Manager) : Type 0 where
  pub session : ℕ
  pub answered : r.session ≡ some session
  pub dispatched : r.dispatch ≡ accepted
  pub of_player : find player m.by_player ≡ some session
  pub at_endpoint : find e.id m.by_transport ≡ some session
  pub live : IsLive m player session
  pub due :
      IsScheduled e.id
        (now + before.options.idle_timeout)
        (m.heap session).idle_deadline
        m.deadlines
  pub new : find player before.by_player ≡ none → r.status ≡ created
  pub again :
      (k : ℕ)
      → find player before.by_player ≡ some k
      → (session ≡ k)
        × (r.status ≡ (if (before.heap k).endpoint.id == e.id then existing else rebound))
  pub allowed :
      (k : ℕ)
      → find player before.by_player ≡ some k
      → ((before.heap k).endpoint.id == e.id) ≡ false
      → before.options.duplicate_login ≡ replace_existing

-- Why a login is rejected: the manager is shut down, the player is nobody, another player or another
-- endpoint has the endpoint's id, or the player is in elsewhere and the policy keeps the old login.
pub data IsRefused (player : ℕ) (e : Endpoint) (m : Manager) : Type 0 where
  is_shut_down : m.running ≡ false → IsRefused player e m
  is_nobody : player ≡ 0 → IsRefused player e m
  is_taken :
      (k : ℕ)
      → find e.id m.by_transport ≡ some k
      → ((m.heap k).player_id == player && (m.heap k).endpoint.pointer == e.pointer) ≡ false
      → IsRefused player e m
  is_elsewhere :
      (k : ℕ)
      → find player m.by_player ≡ some k
      → ((m.heap k).endpoint.id == e.id) ≡ false
      → m.options.duplicate_login ≡ reject_new
      → IsRefused player e m

-- Only closing an endpoint may have happened.
pub record IsUnchanged (m m' : Manager) : Type 0 where
  pub same_players : m'.by_player ≡ m.by_player
  pub same_transports : m'.by_transport ≡ m.by_transport
  pub same_heap : m'.heap ≡ m.heap
  pub same_cells : m'.cells ≡ m.cells
  pub same_deadlines : m'.deadlines ≡ m.deadlines

pub record Outcome (player : ℕ) (e : Endpoint) (now : ℕ) (m : Manager) (r : AuthenticateResult)
    (m' : Manager) : Type 0 where
  pub linked : IsLinked m'
  pub consistent : IsConsistent m'.deadlines
  pub decided :
      ((r.status ≡ rejected) × IsRefused player e m × IsUnchanged m m')
      ⊎ IsBound player e now m r m'

abbrev pub Answers : ℕ → Endpoint → ℕ → Manager → Authenticated → Type 0
Answers player e now m a =
    (r : AuthenticateResult) × (m' : Manager) × (a ≡ some (r, m')) × Outcome player e now m r m'

pub create_session-Answers :
    (m : Manager) (player : ℕ) (e : Endpoint) (now : ℕ)
    → IsLinked m
    → IsConsistent m.deadlines
    → HasNumbers m
    → find e.id m.by_transport ≡ none
    → find player m.by_player ≡ none
    → Answers player e now m (create_session m player e now)
unfolding create_session new_session created_manager
create_session-Answers m player e now v c n free unknown =
    let h : ℕ = m.next_session_id in
    let (q, token, done, c', due) =
      schedule_idle-some (new_session m player e now) h (now + m.options.idle_timeout) c
        n.deadlines in
    let linked = create-IsLinked m player e now q token v n free unknown in
    let known : find player (created_manager m player e now q token).by_player ≡ some h =
      ground (arith, find-assign player player h m.by_player) in
    (
      record { status = created; session = some h; dispatch = accepted },
      created_manager m player e now q token,
      rw done refl,
      record {
        linked = linked;
        consistent = c';
        decided = inr (record {
          session = h;
          answered = refl;
          dispatched = refl;
          of_player = known;
          at_endpoint = ground (arith, find-assign e.id e.id h m.by_transport);
          live = linked.players player h known;
          due = ground (arith, due);
          new = λ none_there. refl;
          again = λ k at. absurd (ground (arith, at, unknown));
          allowed = λ k at other. absurd (ground (arith, at, unknown));
        });
      },
    )

pub refresh_session-Answers :
    (m : Manager) (player h : ℕ) (e : Endpoint) (now : ℕ)
    → IsLinked m
    → IsConsistent m.deadlines
    → HasNumbers m
    → find player m.by_player ≡ some h
    → (m.heap h).endpoint.id ≡ e.id
    → Answers player e now m (refresh_session m h now)
unfolding refresh_session refresh_binding refreshed_manager
refresh_session-Answers m player h e now v c n known here =
    let m₁ : Manager = record (refresh_binding m h m.next_generation now) {
      next_generation = add64 m.next_generation 1;
    } in
    let (q, token, done, c', due) =
      schedule_idle-some m₁ h (now + m.options.idle_timeout) c n.deadlines in
    let linked = refresh-IsLinked m player h now q token v n known in
    (
      record { status = existing; session = some h; dispatch = accepted },
      refreshed_manager m player h now q token,
      rw done refl,
      record {
        linked = linked;
        consistent = c';
        decided = inr (record {
          session = h;
          answered = refl;
          dispatched = refl;
          of_player = known;
          at_endpoint = rw (sym here) (v.players player h known).found;
          live = linked.players player h known;
          due = ground (arith, due, here);
          new = λ none_there. absurd (ground (arith, none_there, known));
          again = λ k at.
              let same : h ≡ k = ground (arith, at, known) in (same, ground (arith, same, here));
          allowed = λ k at other. absurd (ground (arith, at, known, other, here));
        });
      },
    )

pub rebind_session-some :
    (m : Manager) (player h : ℕ) (e : Endpoint) (now : ℕ)
    → IsLinked m
    → IsConsistent m.deadlines
    → HasNumbers m
    → (q : DeadlineQueue) × (token : DeadlineToken) × (rebind_session m h e now
        ≡ some (
          record { status = rebound; session = some h; dispatch = accepted },
          rebound_manager m player h e now q token,
        ))
      × IsConsistent q
      × IsScheduled e.id (now + m.options.idle_timeout) token q
unfolding rebind_session rebind close_endpoint rebound_manager
rebind_session-some m player h e now v c n =
    let (q₁, canceled, c₁, same) = cancel_idle-some m h c in
    let m₁ : Manager = record m { deadlines = q₁ } in
    let m₃ : Manager = record (rebind (unindex_transport h m₁) h e m.next_generation now) {
      next_generation = add64 m.next_generation 1;
    } in
    let (q, token, done, c', due) =
      schedule_idle-some m₃ h (now + m.options.idle_timeout) c₁
        (omega (arith, same, n.deadlines)) in
    (q, token, rw (rebind_session, canceled, done) refl, c', ground (arith, due))

pub rebind_session-Answers :
    (m : Manager) (player h : ℕ) (e : Endpoint) (now : ℕ)
    → IsLinked m
    → IsConsistent m.deadlines
    → HasNumbers m
    → find player m.by_player ≡ some h
    → find e.id m.by_transport ≡ none
    → ((m.heap h).endpoint.id == e.id) ≡ false
    → m.options.duplicate_login ≡ replace_existing
    → Answers player e now m (rebind_session m h e now)
unfolding rebound_manager rebind close_endpoint
rebind_session-Answers m player h e now v c n known free elsewhere policy =
    let (q, token, done, c', due) = rebind_session-some m player h e now v c n in
    let linked = rebind-IsLinked m player h e now q token v n free known in
    (
      record { status = rebound; session = some h; dispatch = accepted },
      rebound_manager m player h e now q token,
      done,
      record {
        linked = linked;
        consistent = c';
        decided = inr (record {
          session = h;
          answered = refl;
          dispatched = refl;
          of_player = known;
          at_endpoint =
              ground (arith, find-assign e.id e.id h (erase (m.heap h).endpoint.id m.by_transport));
          live = linked.players player h known;
          due = ground (arith, due);
          new = λ none_there. absurd (ground (arith, none_there, known));
          again = λ k at.
              let same : h ≡ k = ground (arith, at, known) in
              (same, ground (arith, same, elsewhere));
          allowed = λ k at other. policy;
        });
      },
    )

unchanged : (m : Manager) → IsUnchanged m m
unchanged m = record {
  same_players = refl;
  same_transports = refl;
  same_heap = refl;
  same_cells = refl;
  same_deadlines = refl;
}

pub refused-Answers :
    (m : Manager) (player : ℕ) (e : Endpoint) (now : ℕ) (r : AuthenticateResult)
    → r.status ≡ rejected
    → IsRefused player e m
    → IsLinked m
    → IsConsistent m.deadlines
    → Answers player e now m (some (r, m))
refused-Answers m player e now r s why v c =
    (r, m, refl, record { linked = v; consistent = c; decided = inl (s, why, unchanged m) })

pub refuse_transport-Answers :
    (m : Manager) (player : ℕ) (e : Endpoint) (now : ℕ) (r : AuthenticateResult) (o : Option ℕ)
    → r.status ≡ rejected
    → IsRefused player e m
    → IsLinked m
    → IsConsistent m.deadlines
    → Answers player e now m (some (r, refuse_transport m e o))
unfolding refuse_transport close_endpoint
refuse_transport-Answers m player e now r none s why v c =
    refused-Answers m player e now r s why v c
refuse_transport-Answers m player e now r (some h) s why v c =
    elim (Bool-cases ((m.heap h).endpoint.pointer == e.pointer)) [
      | inl same ↦ rw same (refused-Answers m player e now r s why v c)
      | inr differs ↦ rw differs (
        r,
        close_endpoint m e protocol_error,
        refl,
        record {
          linked = record {
            transports = v.transports;
            players = λ p k known.
                let l = v.players p k known in
                record {
                  owns = l.owns;
                  found = l.found;
                  is_online = l.is_online;
                  named = l.named;
                  current = l.current;
                  positive = l.positive;
                  older = l.older;
                  numbered = l.numbered;
                };
            first = v.first;
          };
          consistent = c;
          decided = inl (
            s,
            why,
            record {
              same_players = refl;
              same_transports = refl;
              same_heap = refl;
              same_cells = refl;
              same_deadlines = refl;
            },
          );
        },
      )
    ]
