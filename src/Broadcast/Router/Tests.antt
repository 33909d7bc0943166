-- ===== src/Broadcast/Router/Tests.antt =====
-- A run of the broadcast router, and its theorem at a concrete input.
use game_net_core.Prelude.{ℕ, ◌≡◌, refl, true, some, none, List, [], ◌∷◌, Option, find, assign}
use game_net_core.Session.Binding.{untracked, tracked}
use game_net_core.Broadcast.Router.{
  low, BroadcastTarget, BroadcastLimits, BroadcastPlan, RoutedEndpoint, route, route_targets,
}
use game_net_core.Broadcast.Router.Limits.{Carries, IsWithin, route-IsWithin}

abbrev limits : BroadcastLimits
limits = record { soft_fanout = 2; hard_fanout = 4; soft_bytes = 10; hard_bytes = 20 }

abbrev endpoint : ℕ → RoutedEndpoint
endpoint id = record { id = id; owner = 1; owner_available = true; is_open = true }

abbrev target : ℕ → BroadcastTarget
target id = record { endpoint = some (endpoint id); binding = untracked; marked_eligible = true }

-- The second target is the first again, the last one is beyond the soft fan-out.
abbrev targets : List BroadcastTarget
targets = target 1 ∷ target 1 ∷ target 2 ∷ target 3 ∷ []

abbrev accepted_of : Option BroadcastPlan → ℕ × ℕ
accepted_of none = (0, 0)
accepted_of (some p) = (p.accepted, p.dropped)

route_run : accepted_of (route (λ cell. 0) limits (some 3) targets low) ≡ (2, 2)
unfolding route route_targets tracked find assign
route_run = refl

route-IsWithin_example :
    (p : BroadcastPlan) × (route (λ cell. 0) limits (some 3) targets low ≡ some p)
    × Carries 3 low p
    × IsWithin limits 4 p
route-IsWithin_example = route-IsWithin (λ cell. 0) limits 3 targets low
