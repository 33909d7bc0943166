-- ===== src/Broadcast/Router/Limits.antt =====
-- The limits that a routed plan keeps to, and its counts.
use native.Mathlib.Nat.{div-add-mod, mul-le-mul_right, mul_comm}
use game_net_core.Prelude.{
  ℕ, zero, suc, ◌+◌, ◌*◌, ◌/◌, ◌≤◌, ◌<◌, ◌≡◌, refl, ap, subst, none, some, List, [], ◌∷◌, ◌++◌,
  length, length-append, find, find-assign, find-nil, arith, Option-cases, Bool-cases, inl, inr,
}
use game_net_core.Session.Binding.{Cells}
use game_net_core.Broadcast.Router.{
  BroadcastPriority, low, BroadcastReason, offline_session, invalid_plan, duplicate_endpoint,
  BroadcastTarget, BroadcastLimits, BroadcastPlan, LoopBatch, RoutedEndpoint, Routing, drop_target,
  push_endpoint, accept, over_soft_limit, refusal, route_target, route_targets, empty_routing,
  route, eligible, contains,
}

-- All endpoints of the batches.
abbrev pub routed : List LoopBatch → ℕ
routed [] = 0
routed (b ∷ bs) = length b.endpoints + routed bs

-- What holds of a plan after `n` targets.
pub record IsWithin (l : BroadcastLimits) (n : ℕ) (p : BroadcastPlan) : Type 0 where
  pub fanout : p.accepted ≤ l.hard_fanout
  pub bytes : p.payload_bytes * p.accepted ≤ l.hard_bytes
  pub soft_fanout : p.priority ≡ low → p.accepted ≤ l.soft_fanout
  pub soft_bytes : p.priority ≡ low → p.payload_bytes * p.accepted ≤ l.soft_bytes
  pub counted : p.accepted + p.dropped ≡ n
  pub all : routed p.batches ≡ p.accepted

-- The plan carries the payload's size and the priority that it was routed with.
pub record Carries (payload_bytes : ℕ) (priority : BroadcastPriority) (p : BroadcastPlan)
    : Type 0 where
  pub size : p.payload_bytes ≡ payload_bytes
  pub level : p.priority ≡ priority

record IsSound (l : BroadcastLimits) (n : ℕ) (r : Routing) : Type 0 where
  within : IsWithin l n r.plan
  indexed : (k i : ℕ) → find k r.batch_indexes ≡ some i → i < length r.plan.batches

fits : (payload a b : ℕ) → payload ≤ b / (a + 1) → payload * (a + 1) ≤ b
fits payload a b h =
    omega (arith, mul-le-mul_right (a + 1) h, mul_comm (b / (a + 1)) (a + 1), div-add-mod b (a + 1))

routed-append : (bs cs : List LoopBatch) → routed (bs ++ cs) ≡ routed bs + routed cs
routed-append [] cs = omega arith
routed-append (b ∷ bs) cs = omega (arith, routed-append bs cs)

routed-push :
    (i : ℕ) (e : RoutedEndpoint) (bs : List LoopBatch)
    → i < length bs
    → routed (push_endpoint i e bs) ≡ routed bs + 1
unfolding push_endpoint
routed-push i e [] h = absurd (omega (arith, h))
routed-push zero e (b ∷ bs) h = omega (arith, length-append b.endpoints (e ∷ []))
routed-push (suc i) e (b ∷ bs) h = omega (arith, routed-push i e bs (omega (arith, h)))

length-push :
    (i : ℕ) (e : RoutedEndpoint) (bs : List LoopBatch) → length (push_endpoint i e bs) ≡ length bs
unfolding push_endpoint
length-push i e [] = refl
length-push zero e (b ∷ bs) = refl
length-push (suc i) e (b ∷ bs) = ap suc (length-push i e bs)

refusal-none :
    (l : BroadcastLimits) (p : BroadcastPlan) (e : RoutedEndpoint)
    → refusal l p e ≡ none
    → (p.accepted < l.hard_fanout)
      × (p.payload_bytes ≤ l.hard_bytes / (p.accepted + 1))
      × (p.priority ≡ low
          → (p.accepted < l.soft_fanout) × (p.payload_bytes ≤ l.soft_bytes / (p.accepted + 1)))
unfolding refusal over_soft_limit
refusal-none l p e h = (ground (arith, h), ground (arith, h), λ is_low. ground (arith, h, is_low))

drop-IsSound :
    (l : BroadcastLimits) (n : ℕ) (r : Routing) (why : BroadcastReason)
    → IsSound l n r
    → IsSound l (n + 1) (drop_target why r)
unfolding drop_target
drop-IsSound l n r why v = record {
  within = record {
    fanout = v.within.fanout;
    bytes = v.within.bytes;
    soft_fanout = v.within.soft_fanout;
    soft_bytes = v.within.soft_bytes;
    counted = omega (arith, v.within.counted);
    all = v.within.all;
  };
  indexed = v.indexed;
}

accept-IsSound :
    (l : BroadcastLimits) (n : ℕ) (r : Routing) (e : RoutedEndpoint)
    → IsSound l n r
    → refusal l r.plan e ≡ none
    → IsSound l (n + 1) (accept e r)
unfolding accept
accept-IsSound l n r e v h =
    let (room, bytes, soft) = refusal-none l r.plan e h in
    let p = r.plan in
    let within : (bs : List LoopBatch)
        → routed bs ≡ routed p.batches + 1
        → IsWithin l (n + 1) (record p { batches = bs; accepted = p.accepted + 1 }) =
      λ bs grown. record {
        fanout = omega (arith, room);
        bytes = fits p.payload_bytes p.accepted l.hard_bytes bytes;
        soft_fanout = λ is_low. omega (arith, (soft is_low).0);
        soft_bytes = λ is_low. fits p.payload_bytes p.accepted l.soft_bytes (soft is_low).1;
        counted = omega (arith, v.within.counted);
        all = omega (arith, grown, v.within.all);
      } in
    elim (Option-cases (find e.owner r.batch_indexes)) [
      | inr (i, known) ↦
          rw (accept, known)
            (record {
              within =
                  within (push_endpoint i e p.batches)
                    (routed-push i e p.batches (v.indexed e.owner i known));
              indexed = λ k j at. omega (arith, v.indexed k j at, length-push i e p.batches);
            })
      | inl fresh ↦
          let opened = p.batches ++ (record { owner_executor = e.owner; endpoints = [] } ∷ []) in
          let longer =
            length-append p.batches (record { owner_executor = e.owner; endpoints = [] } ∷ []) in
          rw (accept, fresh)
            (record {
              within = within (push_endpoint (length p.batches) e opened) (
                  omega (
                    arith,
                    routed-push (length p.batches) e opened (omega (arith, longer)),
                    routed-append p.batches
                        (record { owner_executor = e.owner; endpoints = [] } ∷ []),
                  ));
              indexed = λ k j at.
                  let old = v.indexed k j in
                  ground (
                    arith,
                    old,
                    at,
                    find-assign e.owner k (length p.batches) r.batch_indexes,
                    length-push (length p.batches) e opened,
                    longer,
                  );
            })
    ]

seen-IsSound :
    (l : BroadcastLimits) (n : ℕ) (r : Routing) (seen : List ℕ)
    → IsSound l n r
    → IsSound l n (record r { seen = seen })
seen-IsSound l n r seen v = record { within = v.within; indexed = v.indexed }

route_target-IsSound :
    (cells : Cells) (l : BroadcastLimits) (n : ℕ) (r : Routing) (t : BroadcastTarget)
    → IsSound l n r
    → IsSound l (n + 1) (route_target cells l r t)
unfolding route_target
route_target-IsSound cells l n r t v = elim (Bool-cases (eligible cells t)) [
  | inr offline ↦ rw offline (drop-IsSound l n r offline_session v)
  | inl online ↦ elim (Option-cases t.endpoint) [
    | inl missing ↦ rw (online, missing) (drop-IsSound l n r invalid_plan v)
    | inr (e, there) ↦ elim (Bool-cases (contains e.id r.seen)) [
      | inl again ↦ rw (online, there, again) (drop-IsSound l n r duplicate_endpoint v)
      | inr first ↦
          let r' = record r { seen = e.id ∷ r.seen } in
          let v' = seen-IsSound l n r (e.id ∷ r.seen) v in
          elim (Option-cases (refusal l r.plan e)) [
            | inl welcome ↦ rw (online, there, first, welcome) (accept-IsSound l n r' e v' welcome)
            | inr (why, refused) ↦ rw (online, there, first, refused) (drop-IsSound l n r' why v')
          ]
    ]
  ]
]

route_targets-IsSound :
    (cells : Cells) (l : BroadcastLimits) (n : ℕ) (r : Routing) (ts : List BroadcastTarget)
    → IsSound l n r
    → IsSound l (n + length ts) (route_targets cells l r ts)
unfolding route_targets
route_targets-IsSound cells l n r [] v = subst (λ k. IsSound l k r) (omega arith) v
route_targets-IsSound cells l n r (t ∷ ts) v =
    subst (λ k. IsSound l k (route_targets cells l (route_target cells l r t) ts)) (omega arith)
      (route_targets-IsSound cells l (n + 1) (route_target cells l r t) ts
        (route_target-IsSound cells l n r t v))

accept-Carries :
    (b : ℕ) (c : BroadcastPriority) (e : RoutedEndpoint) (r : Routing)
    → Carries b c r.plan
    → Carries b c (accept e r).plan
unfolding accept
accept-Carries b c e r v = elim (Option-cases (find e.owner r.batch_indexes)) [
  | inr (i, known) ↦ rw (accept, known) (record { size = v.size; level = v.level })
  | inl fresh ↦ rw (accept, fresh) (record { size = v.size; level = v.level })
]

route_target-Carries :
    (cells : Cells) (l : BroadcastLimits) (b : ℕ) (c : BroadcastPriority) (r : Routing)
    (t : BroadcastTarget)
    → Carries b c r.plan
    → Carries b c (route_target cells l r t).plan
unfolding route_target drop_target
route_target-Carries cells l b c r t v = elim (Bool-cases (eligible cells t)) [
  | inr offline ↦ rw offline (record { size = v.size; level = v.level })
  | inl online ↦ elim (Option-cases t.endpoint) [
    | inl missing ↦ rw (online, missing) (record { size = v.size; level = v.level })
    | inr (e, there) ↦ elim (Bool-cases (contains e.id r.seen)) [
      | inl again ↦ rw (online, there, again) (record { size = v.size; level = v.level })
      | inr first ↦ elim (Option-cases (refusal l r.plan e)) [
        | inl welcome ↦
            rw (online, there, first, welcome)
              (accept-Carries b c e (record r { seen = e.id ∷ r.seen }) v)
        | inr (why, refused) ↦
            rw (online, there, first, refused) (record { size = v.size; level = v.level })
      ]
    ]
  ]
]

route_targets-Carries :
    (cells : Cells) (l : BroadcastLimits) (b : ℕ) (c : BroadcastPriority) (r : Routing)
    (ts : List BroadcastTarget)
    → Carries b c r.plan
    → Carries b c (route_targets cells l r ts).plan
unfolding route_targets
route_targets-Carries cells l b c r [] v = v
route_targets-Carries cells l b c r (t ∷ ts) v =
    route_targets-Carries cells l b c (route_target cells l r t) ts
      (route_target-Carries cells l b c r t v)

-- Routing a payload always gives a plan, for a payload of that size and for that priority: each
-- target is accepted or dropped; the batches hold as many endpoints as were accepted; they are no
-- more than the hard fan-out, and the payload to all of them takes no more than the hard number of
-- bytes; for low priority the soft limits bound both too.
pub route-IsWithin :
    (cells : Cells) (l : BroadcastLimits) (payload_bytes : ℕ) (targets : List BroadcastTarget)
    (priority : BroadcastPriority)
    → (p : BroadcastPlan) × (route cells l (some payload_bytes) targets priority ≡ some p)
      × Carries payload_bytes priority p
      × IsWithin l (length targets) p
unfolding route
route-IsWithin cells l payload_bytes targets priority =
    let start : IsSound l 0 (empty_routing payload_bytes priority) = record {
      within = record {
        fanout = omega arith;
        bytes = omega arith;
        soft_fanout = λ is_low. omega arith;
        soft_bytes = λ is_low. omega arith;
        counted = refl;
        all = refl;
      };
      indexed = λ k i at. absurd (ground (arith, at, find-nil {V = ℕ} k));
    } in
    (
      (route_targets cells l (empty_routing payload_bytes priority) targets).plan,
      refl,
      route_targets-Carries cells l payload_bytes priority (empty_routing payload_bytes priority)
          targets (record { size = refl; level = refl }),
      subst
          (λ k.
            IsWithin l k
              (route_targets cells l (empty_routing payload_bytes priority) targets).plan)
          (omega arith)
          (route_targets-IsSound cells l 0 (empty_routing payload_bytes priority) targets
            start).within,
    )
