-- ===== src/Broadcast/Dispatcher/Covered.antt =====
-- The registry covers the tasks of a dispatch.
use game_net_core.Prelude.{
  ℕ, ◌+◌, ◌≤◌, ◌≡◌, inl, inr, refl, sym, ap, subst, ◌∙◌, Bool, true, false, not, ◌&&◌, Option, none,
  some, List, [], ◌∷◌, ◌==◌, if◌then◌else◌, arith, Bool-cases,
}
use game_net_core.Broadcast.Router.{BroadcastReason, RoutedEndpoint}
use game_net_core.Broadcast.Reservations.{
  DispatcherState, OwnerOutstanding, find_owner, store_owner,
}
use game_net_core.Broadcast.Reservations.Registry.{
  ascends, find_owner-id, find_owner-store_owner, store_owner-ascends, IsRegistered,
}
use game_net_core.Broadcast.Progress.{Task, Dispatching, record_drop, valid_endpoints}
use game_net_core.Broadcast.Dispatcher.Owned.{IsOwned, marked, tasks_of, bytes_of}

-- What the registry counts for an owner.
abbrev pub tasks_at : List OwnerOutstanding → ℕ → ℕ
tasks_at os id = elim (find_owner id os) [ none ↦ 0 | some o ↦ o.tasks.current ]

abbrev pub bytes_at : List OwnerOutstanding → ℕ → ℕ
bytes_at os id = elim (find_owner id os) [ none ↦ 0 | some o ↦ o.bytes.current ]

-- The owner that is found counts so many tasks and bytes, on top of the counts from before; one that
-- is not in the registry has none.
abbrev pub Held : ℕ → ℕ → Option OwnerOutstanding → ℕ → ℕ → Type 0
Held bt bb none tasks bytes = (bt ≡ 0) × (bb ≡ 0) × (tasks ≡ 0) × (bytes ≡ 0)
Held bt bb (some o) tasks bytes = (o.tasks.current ≡ bt + tasks) × (o.bytes.current ≡ bb + bytes)

-- The registry counts for every owner what it did before and the owner's tasks, with their bytes.
pub record IsCovered (bt bb : ℕ → ℕ) (os : List OwnerOutstanding) (ts : List Task) : Type 0 where
  pub ordered : ascends 0 os ≡ true
  pub held : (id : ℕ) → Held (bt id) (bb id) (find_owner id os) (tasks_of id ts) (bytes_of id ts)

pub valid_endpoints-same :
    (is_open : ℕ → Bool) (owner : ℕ) (es : List RoutedEndpoint) (d : Dispatching)
    → ((valid_endpoints is_open owner es d).1.tasks ≡ d.tasks)
      × ((valid_endpoints is_open owner es d).1.state ≡ d.state)
unfolding valid_endpoints record_drop
valid_endpoints-same is_open owner [] d = (refl, refl)
valid_endpoints-same is_open owner (e ∷ es) d =
    elim (Bool-cases (e.owner == owner && is_open e.id)) [
      | inl fine ↦ simp (valid_endpoints, fine) (valid_endpoints-same is_open owner es d)
      | inr bad ↦
          let reason =
            if not (e.owner == owner)
            then BroadcastReason.invalid_plan
            else BroadcastReason.endpoint_closed in
          simp (valid_endpoints, bad) (valid_endpoints-same is_open owner es (record_drop reason d))
    ]

pub valid_endpoints-marked :
    (f : RoutedEndpoint → Bool) (is_open : ℕ → Bool) (owner : ℕ) (es : List RoutedEndpoint)
    (d : Dispatching)
    → marked f (valid_endpoints is_open owner es d).0 ≤ marked f es
unfolding valid_endpoints record_drop
valid_endpoints-marked f is_open owner [] d = omega arith
valid_endpoints-marked f is_open owner (e ∷ es) d =
    elim (Bool-cases (e.owner == owner && is_open e.id)) [
      | inl fine ↦
          let rest = valid_endpoints-marked f is_open owner es d in
          simp (valid_endpoints, fine) (omega (arith, rest))
      | inr bad ↦
          let reason =
            if not (e.owner == owner)
            then BroadcastReason.invalid_plan
            else BroadcastReason.endpoint_closed in
          let rest = valid_endpoints-marked f is_open owner es (record_drop reason d) in
          simp (valid_endpoints, bad) (omega (arith, rest))
    ]

-- The owner counts its tasks in the registry before.
before-Held :
    {bt bb : ℕ → ℕ} (id : ℕ) (o : OwnerOutstanding) (s s' : DispatcherState) (ts : List Task)
    → IsRegistered id o s s'
    → IsCovered bt bb s.owners ts
    → (o.tasks.current ≡ bt id + tasks_of id ts) × (o.bytes.current ≡ bb id + bytes_of id ts)
before-Held {bt} {bb} id o s s' ts registered c = elim registered.counts [
  | inl found ↦
      subst (λ f. Held (bt id) (bb id) f (tasks_of id ts) (bytes_of id ts)) found (c.held id)
  | inr (unknown, no_tasks, no_bytes) ↦
      let (none_before, no_bytes_before, t, b) =
        subst (λ f. Held (bt id) (bb id) f (tasks_of id ts) (bytes_of id ts)) unknown (c.held id) in
      (omega (arith, t, none_before, no_tasks), omega (arith, b, no_bytes_before, no_bytes))
]

-- The registry after a batch: the owner's counts grew by its tasks.
pub batch-IsCovered :
    {bt bb : ℕ → ℕ} {es : List RoutedEndpoint} (id : ℕ) (o o' : OwnerOutstanding)
    (s s' : DispatcherState) (d d' : Dispatching)
    → IsRegistered id o s s'
    → d.state.owners ≡ s'.owners
    → IsOwned es o o' d d'
    → IsCovered bt bb s.owners d.tasks
    → IsCovered bt bb (store_owner o' d'.state.owners) d'.tasks
batch-IsCovered {bt} {bb} id o o' s s' d d' registered at w c =
    let own : o.owner_id ≡ id = find_owner-id id o s'.owners registered.known in
    let same : o'.owner_id ≡ id = w.same_owner ∙ own in
    let registry : d'.state.owners ≡ s'.owners = w.same_registry ∙ at in
    let known : find_owner o'.owner_id s'.owners ≡ some o =
      ap (λ k. find_owner k s'.owners) same ∙ registered.known in
    let (t_before, b_before) = before-Held id o s s' d.tasks registered c in
    let tasks =
      subst (λ k. o'.tasks.current + tasks_of k d.tasks ≡ o.tasks.current + tasks_of k d'.tasks) own
        w.tasks in
    let bytes =
      subst (λ k. o'.bytes.current + bytes_of k d.tasks ≡ o.bytes.current + bytes_of k d'.tasks) own
        w.bytes in
    let held : (k : ℕ)
        → Held (bt k) (bb k) (find_owner k (store_owner o' s'.owners)) (tasks_of k d'.tasks)
            (bytes_of k d'.tasks) =
      λ k.
        let found = find_owner-store_owner o o' k s'.owners known in
        elim (Bool-cases (id == k)) [
          | inl y ↦
              let me : id ≡ k = ground (arith, y) in
              let found' : find_owner k (store_owner o' s'.owners) ≡ some o' =
                found ∙ rw (same, y) refl in
              subst (λ f. Held (bt k) (bb k) f (tasks_of k d'.tasks) (bytes_of k d'.tasks))
                (sym found')
                (subst
                  (λ j.
                    (o'.tasks.current ≡ bt j + tasks_of j d'.tasks)
                    × (o'.bytes.current ≡ bb j + bytes_of j d'.tasks))
                  me (omega (arith, tasks, t_before), omega (arith, bytes, b_before)))
          | inr n ↦
              let found' : find_owner k (store_owner o' s'.owners) ≡ find_owner k s.owners =
                found ∙ (rw (same, n) refl) ∙ registered.others k n in
              let n' : (o.owner_id == k) ≡ false = rw own n in
              subst (λ f. Held (bt k) (bb k) f (tasks_of k d'.tasks) (bytes_of k d'.tasks))
                (sym found')
                (subst (λ a. Held (bt k) (bb k) (find_owner k s.owners) a (bytes_of k d'.tasks))
                  (sym (w.other_tasks k n'))
                  (subst (λ a. Held (bt k) (bb k) (find_owner k s.owners) (tasks_of k d.tasks) a)
                    (sym (w.other_bytes k n')) (c.held k)))
        ] in
    subst (λ os. IsCovered bt bb (store_owner o' os) d'.tasks) (sym registry)
      (record { ordered = store_owner-ascends o' 0 s'.owners registered.ordered; held = held })
