-- ===== src/Session/Manager/Steps.antt =====
-- Each way in which the session manager changes a session keeps its indexes linked.
use game_net_core.Prelude.{
  ℕ, ◌≡◌, none, some, arith, ◌==◌, if◌then◌else◌, add64, find, erase, find-erase, find-assign,
}
use game_net_core.Core.DeadlineQueue.{DeadlineQueue, DeadlineToken}
use game_net_core.Session.Manager.{
  Manager, Endpoint, update_session, mark_offline, refresh_binding, rebind, index, new_session,
  close_endpoint, replaced, unindex_transport, index_transport, no_token,
}
use game_net_core.Session.Manager.Linked.{
  IsLive, IsLinked, IsElsewhere, HasNumbers, with_deadline, place-IsLinked, drop-IsLinked,
  transport-numbered,
}

module _ (m : Manager) (player : ℕ) (e : Endpoint) (now : ℕ) (q : DeadlineQueue)
    (token : DeadlineToken) where
  unfoldable pub created_manager : Manager
  unfolding new_session
  created_manager =
      index m.next_session_id (with_deadline (new_session m player e now) m.next_session_id q token)

  create-IsElsewhere :
      IsLinked m
      → HasNumbers m
      → find e.id m.by_transport ≡ none
      → find player m.by_player ≡ none
      → IsElsewhere m created_manager m.next_session_id
  unfolding created_manager new_session
  create-IsElsewhere v n free unknown = record {
    same = λ k other. ground arith;
    transports = λ t k other. ground (arith, find-assign e.id t m.next_session_id m.by_transport);
    players = λ p k other. ground (arith, find-assign player p m.next_session_id m.by_player);
    generations = omega (arith, n.generations);
    sessions = omega (arith, n.sessions);
  }

  create-IsLive : IsLinked m → HasNumbers m → IsLive created_manager player m.next_session_id
  unfolding created_manager new_session
  create-IsLive v n = record {
    owns = ground arith;
    found = ground (arith, find-assign e.id e.id m.next_session_id m.by_transport);
    is_online = ground arith;
    named = ground arith;
    current = ground arith;
    positive = ground (arith, v.first);
    older = ground (arith, n.generations);
    numbered = ground (arith, n.sessions);
  }

  pub create-IsLinked :
      IsLinked m
      → HasNumbers m
      → find e.id m.by_transport ≡ none
      → find player m.by_player ≡ none
      → IsLinked created_manager
  unfolding created_manager new_session
  create-IsLinked v n free unknown =
      place-IsLinked m created_manager m.next_session_id player v
        (create-IsElsewhere v n free unknown) (create-IsLive v n)
        (ground (arith, find-assign player player m.next_session_id m.by_player))
        (λ t at.
          let old = transport-numbered m t m.next_session_id v in
          ground (arith, at, find-assign e.id t m.next_session_id m.by_transport, old))
        (λ p at.
          let old = (λ (known : find p m.by_player ≡ some m.next_session_id).
            (v.players p m.next_session_id known).numbered) in
          ground (arith, at, find-assign player p m.next_session_id m.by_player, old))

module _ (m : Manager) (p h now : ℕ) (q : DeadlineQueue) (token : DeadlineToken) where
  unfoldable pub refreshed_manager : Manager
  unfolding refresh_binding
  refreshed_manager =
      with_deadline
        (record (refresh_binding m h m.next_generation now) {
          next_generation = add64 m.next_generation 1;
        })
        h q token

  refresh-IsElsewhere : IsLinked m → HasNumbers m → IsElsewhere m refreshed_manager h
  unfolding refreshed_manager refresh_binding
  refresh-IsElsewhere v n = record {
    same = λ k other. ground arith;
    transports = λ t k other. ground arith;
    players = λ r k other. ground arith;
    generations = omega (arith, n.generations);
    sessions = omega arith;
  }

  refresh-IsLive :
      IsLinked m → HasNumbers m → find p m.by_player ≡ some h → IsLive refreshed_manager p h
  unfolding refreshed_manager refresh_binding
  refresh-IsLive v n known =
      let l = v.players p h known in
      record {
        owns = ground (arith, l);
        found = ground (arith, l);
        is_online = ground arith;
        named = ground (arith, l);
        current = ground arith;
        positive = ground (arith, v.first);
        older = ground (arith, n.generations);
        numbered = l.numbered;
      }

  pub refresh-IsLinked :
      IsLinked m → HasNumbers m → find p m.by_player ≡ some h → IsLinked refreshed_manager
  unfolding refreshed_manager refresh_binding
  refresh-IsLinked v n known =
      place-IsLinked m refreshed_manager h p v (refresh-IsElsewhere v n) (refresh-IsLive v n known)
        known (λ t at. let home = v.transports t h at in ground arith)
        (λ r at. let l = v.players p h known in let l' = v.players r h at in ground arith)

module _ (m : Manager) (p h : ℕ) (e : Endpoint) (now : ℕ) (q : DeadlineQueue)
    (token : DeadlineToken) where
  unfoldable pub rebound_manager : Manager
  unfolding rebind close_endpoint
  rebound_manager =
      close_endpoint
        (index_transport h (
          with_deadline
            (record (rebind (unindex_transport h m) h e m.next_generation now) {
              next_generation = add64 m.next_generation 1;
            })
            h q token))
        (m.heap h).endpoint replaced

  pub rebind-find :
      (t : ℕ)
      → find t rebound_manager.by_transport ≡ (
          if e.id == t
          then some h
          else if (m.heap h).endpoint.id == t
          then none
          else find t m.by_transport)
  unfolding rebound_manager rebind close_endpoint
  rebind-find t = ground (
    arith,
    find-assign e.id t h (erase (m.heap h).endpoint.id m.by_transport),
    find-erase (m.heap h).endpoint.id t m.by_transport,
  )

  rebind-IsElsewhere :
      IsLinked m
      → HasNumbers m
      → find e.id m.by_transport ≡ none
      → find p m.by_player ≡ some h
      → IsElsewhere m rebound_manager h
  unfolding rebound_manager rebind close_endpoint
  rebind-IsElsewhere v n free known = record {
    same = λ k other. ground arith;
    transports = λ t k other. ground (arith, rebind-find t, (v.players p h known).found);
    players = λ r k other. ground arith;
    generations = omega (arith, n.generations);
    sessions = omega arith;
  }

  rebind-IsLive :
      IsLinked m → HasNumbers m → find p m.by_player ≡ some h → IsLive rebound_manager p h
  unfolding rebound_manager rebind close_endpoint
  rebind-IsLive v n known =
      let l = v.players p h known in
      record {
        owns = ground (arith, l);
        found = ground (arith, rebind-find e.id);
        is_online = ground arith;
        named = ground (arith, l);
        current = ground arith;
        positive = ground (arith, v.first);
        older = ground (arith, n.generations);
        numbered = l.numbered;
      }

  pub rebind-IsLinked :
      IsLinked m
      → HasNumbers m
      → find e.id m.by_transport ≡ none
      → find p m.by_player ≡ some h
      → IsLinked rebound_manager
  unfolding rebound_manager rebind close_endpoint
  rebind-IsLinked v n free known =
      place-IsLinked m rebound_manager h p v (rebind-IsElsewhere v n free known)
        (rebind-IsLive v n known) known
        (λ t at. let home = v.transports t h in ground (arith, at, rebind-find t, home))
        (λ r at. let l = v.players p h known in let l' = v.players r h at in ground arith)

-- `erase_session` after its deadline has been canceled.
module _ (m : Manager) (p h : ℕ) (q : DeadlineQueue) where
  unfoldable pub erased_manager : Manager
  unfolding mark_offline
  erased_manager =
      mark_offline
        (record m {
          deadlines = q;
          heap = update_session m.heap h (record (m.heap h) { idle_deadline = no_token });
          by_transport = erase (m.heap h).endpoint.id m.by_transport;
          by_player = erase p m.by_player;
        })
        h

  erase-IsElsewhere : IsLinked m → find p m.by_player ≡ some h → IsElsewhere m erased_manager h
  unfolding erased_manager mark_offline
  erase-IsElsewhere v known = record {
    same = λ k other. ground arith;
    transports = λ t k other.
        ground
          (arith, find-erase (m.heap h).endpoint.id t m.by_transport, (v.players p h known).found);
    players = λ r k other. ground (arith, find-erase p r m.by_player, known);
    generations = omega arith;
    sessions = omega arith;
  }

  pub erase-IsLinked : IsLinked m → find p m.by_player ≡ some h → IsLinked erased_manager
  unfolding erased_manager mark_offline
  erase-IsLinked v known =
      drop-IsLinked m erased_manager h v (erase-IsElsewhere v known)
        (λ t at.
          let home = v.transports t h in
          ground (arith, at, find-erase (m.heap h).endpoint.id t m.by_transport, home))
        (λ r at.
          let l = v.players p h known in
          let l' = v.players r h in
          let owns = (λ (there : find r m.by_player ≡ some h). (l' there).owns) in
          ground (arith, at, find-erase p r m.by_player, owns, l))
