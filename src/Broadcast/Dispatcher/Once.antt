-- ===== src/Broadcast/Dispatcher/Once.antt =====
-- A routed plan holds no transport endpoint twice.
use game_net_core.Prelude.{
  ℕ, zero, suc, refl, subst, ◌+◌, ◌≤◌, ◌≡◌, inl, inr, false, Bool, List, [], ◌∷◌, ◌++◌, ◌==◌,
  if◌then◌else◌, length, find, arith, Option-cases, Bool-cases,
}
use game_net_core.Session.Binding.{Cells}
use game_net_core.Broadcast.Router.{
  BroadcastLimits, BroadcastPriority, BroadcastTarget, RoutedEndpoint, LoopBatch, Routing, contains,
  drop_target, push_endpoint, accept, eligible, refusal, route_target, route_targets, empty_routing,
}
use game_net_core.Broadcast.Dispatcher.Owned.{marked-append}
use game_net_core.Broadcast.Dispatcher.Plans.{marked_routed}

abbrev pub has_id : ℕ → RoutedEndpoint → Bool
has_id id e = e.id == id

-- The batches hold an endpoint's id once if it was seen, and else not.
IsOnce : Routing → Type 0
unfolding contains
IsOnce r =
    (id : ℕ) → marked_routed (has_id id) r.plan.batches ≤ (if contains id r.seen then 1 else 0)

marked-push :
    (f : RoutedEndpoint → Bool) (i : ℕ) (e : RoutedEndpoint) (bs : List LoopBatch)
    → marked_routed f (push_endpoint i e bs) ≤ marked_routed f bs + (if f e then 1 else 0)
unfolding push_endpoint
marked-push f i e [] = omega arith
marked-push f zero e (b ∷ bs) = omega (arith, marked-append f b.endpoints (e ∷ []))
marked-push f (suc i) e (b ∷ bs) = omega (arith, marked-push f i e bs)

marked-opened :
    (f : RoutedEndpoint → Bool) (owner : ℕ) (bs : List LoopBatch)
    → marked_routed f (bs ++ (record { owner_executor = owner; endpoints = [] } ∷ []))
      ≡ marked_routed f bs
marked-opened f owner [] = omega arith
marked-opened f owner (b ∷ bs) = omega (arith, marked-opened f owner bs)

accept-marked :
    (f : RoutedEndpoint → Bool) (e : RoutedEndpoint) (r : Routing)
    → marked_routed f (accept e r).plan.batches
      ≤ marked_routed f r.plan.batches + (if f e then 1 else 0)
unfolding accept
accept-marked f e r =
    let bs = r.plan.batches in
    elim (Option-cases (find e.owner r.batch_indexes)) [
      | inr (i, known) ↦ simp (accept, known) (marked-push f i e bs)
      | inl fresh ↦
          let opened = bs ++ (record { owner_executor = e.owner; endpoints = [] } ∷ []) in
          let grown = marked-push f (length bs) e opened in
          simp (accept, fresh) (omega (arith, grown, marked-opened f e.owner bs))
    ]

accept-seen : (e : RoutedEndpoint) (r : Routing) → (accept e r).seen ≡ r.seen
unfolding accept
accept-seen e r = elim (Option-cases (find e.owner r.batch_indexes)) [
  | inr (i, known) ↦ simp (accept, known) refl
  | inl fresh ↦ simp (accept, fresh) refl
]

-- An endpoint that was not seen is accepted, or it is only seen.
accept-IsOnce :
    (e : RoutedEndpoint) (r : Routing)
    → contains e.id r.seen ≡ false
    → IsOnce r
    → IsOnce (accept e (record r { seen = e.id ∷ r.seen }))
unfolding IsOnce contains
accept-IsOnce e r first v id =
    let r' = record r { seen = e.id ∷ r.seen } in
    let grown = accept-marked (has_id id) e r' in
    let before = v id in
    let seen = accept-seen e r' in
    simp seen (elim (Bool-cases (e.id == id)) [
      | inl y ↦
          let unseen : contains id r.seen ≡ false =
            subst (λ k. contains k r.seen ≡ false) (ground (arith, y)) first in
          ground (arith, grown, before, y, unseen)
      | inr n ↦ ground (arith, grown, before, n)
    ])

seen-IsOnce :
    (e : RoutedEndpoint) (r : Routing) → IsOnce r → IsOnce (record r { seen = e.id ∷ r.seen })
unfolding IsOnce contains
seen-IsOnce e r v id = let before = v id in ground (arith, before)

route_target-IsOnce :
    (cells : Cells) (l : BroadcastLimits) (r : Routing) (t : BroadcastTarget)
    → IsOnce r
    → IsOnce (route_target cells l r t)
unfolding route_target drop_target IsOnce
route_target-IsOnce cells l r t v = elim (Bool-cases (eligible cells t)) [
  | inr offline ↦ rw offline v
  | inl online ↦ elim (Option-cases t.endpoint) [
    | inl missing ↦ rw (online, missing) v
    | inr (e, there) ↦ elim (Bool-cases (contains e.id r.seen)) [
      | inl again ↦ rw (online, there, again) v
      | inr first ↦ elim (Option-cases (refusal l r.plan e)) [
        | inl welcome ↦ rw (online, there, first, welcome) (accept-IsOnce e r first v)
        | inr (why, refused) ↦ rw (online, there, first, refused) (seen-IsOnce e r v)
      ]
    ]
  ]
]

route_targets-IsOnce :
    (cells : Cells) (l : BroadcastLimits) (r : Routing) (ts : List BroadcastTarget)
    → IsOnce r
    → IsOnce (route_targets cells l r ts)
unfolding route_targets
route_targets-IsOnce cells l r [] v = v
route_targets-IsOnce cells l r (t ∷ ts) v =
    route_targets-IsOnce cells l (route_target cells l r t) ts (route_target-IsOnce cells l r t v)

-- Whatever the targets, the plan holds no endpoint's id twice.
pub route-once :
    (cells : Cells) (l : BroadcastLimits) (payload_bytes : ℕ) (priority : BroadcastPriority)
    (ts : List BroadcastTarget) (id : ℕ)
    → marked_routed
        (has_id id)
        (route_targets cells l (empty_routing payload_bytes priority) ts).plan.batches
      ≤ 1
unfolding IsOnce
route-once cells l payload_bytes priority ts id =
    let r = empty_routing payload_bytes priority in
    let bound = route_targets-IsOnce cells l r ts (λ k. omega arith) id in ground (arith, bound)
