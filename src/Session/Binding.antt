-- ===== src/Session/Binding.antt =====
-- `SessionBinding` of include/gamenet/game_session/PlayerSession.h and
-- src/game_session/PlayerSession.cc. A binding shares an atomic cell with its session; the cells
-- are a store from handles to current generations, which every read and write goes through.
use game_net_core.Prelude.{
  ℕ, Bool, true, false, not, ◌&&◌, ◌||◌, Option, none, some, ◌==◌, if◌then◌else◌,
}

-- `SessionBinding::State::currentGeneration`, by the handle of the shared state.
abbrev pub Cells : Type 0
Cells = ℕ → ℕ

pub record SessionBinding : Type 0 where
  pub session_id : ℕ
  pub transport_id : ℕ
  pub generation : ℕ
  pub state : Option ℕ

-- The default-constructed binding, which owns no state.
abbrev pub untracked : SessionBinding
untracked = record { session_id = 0; transport_id = 0; generation = 0; state = none }

abbrev pub has_state : Option ℕ → Bool
has_state none = false
has_state (some cell) = true

unfoldable pub tracked : SessionBinding → Bool
tracked b = has_state b.state && not (b.generation == 0)

-- The atomic load; it happens only behind `tracked`, so the state is there.
abbrev pub load_generation : Cells → Option ℕ → ℕ
load_generation cells none = 0
load_generation cells (some cell) = cells cell

unfoldable pub is_current : Cells → SessionBinding → Bool
unfolding tracked
is_current cells b = not (tracked b) || load_generation cells b.state == b.generation

-- The atomic store.
abbrev pub store_generation : Cells → ℕ → ℕ → Cells
store_generation cells cell g other = if other == cell then g else cells other
