-- ===== src/Session/Manager/Rebinding.antt =====
-- A second login of a player that replaces the first.
use game_net_core.Prelude.{ℕ, ◌<◌, ◌≡◌, refl, ◌∙◌, true, false, none, some, ◌∷◌, arith, ◌==◌, find}
use game_net_core.Session.Binding.{SessionBinding, Cells, store_generation, is_current, tracked}
use game_net_core.Core.DeadlineQueue.Agree.{IsConsistent}
use game_net_core.Session.Manager.{
  Manager, PlayerSession, Endpoint, rebound, accepted, replace_existing, conflicts, close_endpoint,
  rebind_session, rebind, login_again, authenticate, binding, replaced,
}
use game_net_core.Session.Manager.Linked.{IsLinked, HasNumbers}
use game_net_core.Session.Manager.Steps.{rebound_manager, rebind-find}
use game_net_core.Session.Manager.Outcome.{rebind_session-some}

login-rebinds :
    (m : Manager) (player h : ℕ) (e : Endpoint) (now : ℕ)
    → m.running ≡ true
    → (player == 0) ≡ false
    → m.options.duplicate_login ≡ replace_existing
    → find player m.by_player ≡ some h
    → ((m.heap h).endpoint.id == e.id) ≡ false
    → find e.id m.by_transport ≡ none
    → authenticate m player (some e) now ≡ rebind_session m h e now
unfolding authenticate conflicts login_again
login-rebinds m player h e now runs somebody policy known elsewhere free =
    ground (arith, runs, somebody, free, known, elsewhere, policy)

stored-is_current :
    (m : Manager) (h g : ℕ) (s : PlayerSession)
    → s.session_id ≡ h
    → 0 < s.generation
    → is_current (store_generation (store_generation m.cells h 0) h g) (binding s)
      ≡ (g == s.generation)
unfolding is_current tracked binding
stored-is_current m h g s own positive = ground (arith, own, positive)

stored-stale :
    (cells : Cells) (h g : ℕ) (b : SessionBinding)
    → b.state ≡ some h
    → 0 < b.generation
    → b.generation < g
    → is_current (store_generation (store_generation cells h 0) h g) b ≡ false
unfolding is_current tracked
stored-stale cells h g b own positive older = ground (arith, own, positive, older)

-- A player logs in again, through a free endpoint with another id, on a manager that lets the new
-- login replace the old one: the same session is answered as rebound; the old endpoint's id leads
-- nowhere any more and the old endpoint is asked to close as replaced; afterwards every binding of
-- the session with a number given out before the login, whichever login it comes from, is stale, and
-- the session's new binding is current.
pub rebind_lem :
    (m : Manager) (player h : ℕ) (e : Endpoint) (now : ℕ)
    → IsLinked m
    → IsConsistent m.deadlines
    → HasNumbers m
    → m.running ≡ true
    → (player == 0) ≡ false
    → m.options.duplicate_login ≡ replace_existing
    → find player m.by_player ≡ some h
    → ((m.heap h).endpoint.id == e.id) ≡ false
    → find e.id m.by_transport ≡ none
    → (m' : Manager) × (authenticate m player (some e) now
        ≡ some (record { status = rebound; session = some h; dispatch = accepted }, m'))
      × (find (m.heap h).endpoint.id m'.by_transport ≡ none)
      × (m'.closes ≡ ((m.heap h).endpoint, replaced) ∷ m.closes)
      × ((b : SessionBinding)
          → b.state ≡ some h
          → 0 < b.generation
          → b.generation < m.next_generation
          → is_current m'.cells b ≡ false)
      × (is_current m'.cells (binding (m'.heap h)) ≡ true)
unfolding rebound_manager rebind close_endpoint
rebind_lem m player h e now v c n runs somebody policy known elsewhere free =
    let (q, token, done, c', due) = rebind_session-some m player h e now v c n in
    let l = v.players player h known in
    (
      rebound_manager m player h e now q token,
      login-rebinds m player h e now runs somebody policy known elsewhere free ∙ done,
      ground (arith, rebind-find m player h e now q token (m.heap h).endpoint.id),
      refl,
      λ b own positive older. stored-stale m.cells h m.next_generation b own positive older,
      ground (
        arith,
        stored-is_current m h m.next_generation ((rebound_manager m player h e now q token).heap h),
        l.named,
        v.first,
      ),
    )
