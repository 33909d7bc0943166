-- ===== src/Session/Manager/Leaving.antt =====
-- What taking a player offline does.
use game_net_core.Prelude.{
  ℕ, ◌≡◌, refl, ap, ◌∙◌, true, false, some, none, arith, ◌<◌, ◌==◌, find, find-erase,
}
use game_net_core.Session.Binding.{SessionBinding, is_current, tracked}
use game_net_core.Core.DeadlineQueue.{DeadlineQueue}
use game_net_core.Core.DeadlineQueue.Agree.{IsConsistent}
use game_net_core.Session.Manager.{Manager, erase_session, mark_offline, take_offline, done}
use game_net_core.Session.Manager.Linked.{IsLive, IsLinked}
use game_net_core.Session.Manager.Steps.{erased_manager, erase-IsLinked}
use game_net_core.Session.Manager.Outcome.{cancel_idle-some}

erase_session-some :
    (m : Manager) (p h : ℕ)
    → IsConsistent m.deadlines
    → (m.heap h).player_id ≡ p
    → find p m.by_player ≡ some h
    → (q : DeadlineQueue) × (erase_session m h ≡ some (erased_manager m p h q)) × IsConsistent q
unfolding erase_session erased_manager mark_offline
erase_session-some m p h c own known =
    let (q, canceled, c', _) = cancel_idle-some m h c in
    let same : (h == h) ≡ true = ground arith in
    (q, rw (erase_session, canceled, own, known, same) refl, c')

erased-stale :
    (m : Manager) (p h : ℕ) (q : DeadlineQueue) (b : SessionBinding)
    → IsLive m p h
    → b.state ≡ some h
    → 0 < b.generation
    → is_current (erased_manager m p h q).cells b ≡ false
unfolding is_current tracked erased_manager mark_offline
erased-stale m p h q b l own positive = ground (arith, l.named, own, positive)

take_offline-known :
    (m : Manager) (t h : ℕ)
    → m.running ≡ true
    → find t m.by_transport ≡ some h
    → (m.heap h).endpoint.id ≡ t
    → take_offline m t ≡ done (erase_session m h)
unfolding take_offline
take_offline-known m t h runs at here = ground (arith, runs, at, here)

-- On a running manager whose indexes are linked and whose deadline queue is consistent, taking the
-- session at a known transport offline succeeds and keeps both: neither the transport nor the player
-- leads to a session any more, and every binding of the session with a positive number, whichever
-- login it comes from, is stale.
pub take_offline_lem :
    (m : Manager) (t h : ℕ)
    → IsLinked m
    → IsConsistent m.deadlines
    → m.running ≡ true
    → find t m.by_transport ≡ some h
    → (m' : Manager) × (take_offline m t ≡ some (true, m'))
      × IsLinked m'
      × IsConsistent m'.deadlines
      × (find t m'.by_transport ≡ none)
      × (find (m.heap h).player_id m'.by_player ≡ none)
      × ((b : SessionBinding) → b.state ≡ some h → 0 < b.generation → is_current m'.cells b ≡ false)
unfolding erased_manager mark_offline
take_offline_lem m t h v c runs at =
    let (here, known) = v.transports t h at in
    let p : ℕ = (m.heap h).player_id in
    let (q, erased, c') = erase_session-some m p h c refl known in
    (
      erased_manager m p h q,
      take_offline-known m t h runs at here ∙ ap done erased,
      erase-IsLinked m p h q v known,
      c',
      ground (arith, find-erase (m.heap h).endpoint.id t m.by_transport),
      ground (arith, find-erase p p m.by_player),
      λ b own positive. erased-stale m p h q b (v.players p h known) own positive,
    )
