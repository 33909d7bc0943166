-- ===== src/Broadcast/Dispatcher/Accounted.antt =====
-- What a dispatch counts: every endpoint of the plan is scheduled or dropped, and what is
-- outstanding is what its tasks hold.
use game_net_core.Prelude.{
  ℕ, ◌+◌, ◌≤◌, ◌≡◌, inl, inr, refl, subst, ◌∙◌, Bool, not, ◌&&◌, List, [], ◌∷◌, ◌++◌, ◌==◌,
  if◌then◌else◌, arith, length, Bool-cases,
}
use game_net_core.Broadcast.Router.{BroadcastReason, RoutedEndpoint}
use game_net_core.Broadcast.Reservations.{DispatcherState}
use game_net_core.Broadcast.Progress.{
  Task, Dispatching, DispatchProgress, record_drop, drop_all, valid_endpoints,
}

abbrev pub held_bytes : List Task → ℕ
held_bytes [] = 0
held_bytes (t ∷ ts) = t.bytes + held_bytes ts

abbrev pub held_endpoints : List Task → ℕ
held_endpoints [] = 0
held_endpoints (t ∷ ts) = length t.endpoints + held_endpoints ts

-- A dispatch in which so many endpoints were counted, where the dispatcher began with so many tasks
-- and bytes outstanding.
pub record IsAccounted (tasks_before bytes_before seen : ℕ) (d : Dispatching) : Type 0 where
  pub all_seen : d.summary.scheduled_endpoints + d.summary.dropped_endpoints ≡ seen
  pub same_dropped : d.progress.dropped_endpoints ≡ d.summary.dropped_endpoints
  pub same_scheduled : d.progress.scheduled_endpoints ≡ d.summary.scheduled_endpoints
  pub admitted : d.summary.accepted_endpoints ≡ d.summary.scheduled_endpoints
  pub none_sent : d.progress.accepted_endpoints ≡ 0
  pub endpoints_held : held_endpoints d.tasks ≡ d.summary.scheduled_endpoints
  pub scheduled_tasks : d.summary.scheduled_tasks ≡ length d.tasks
  pub few : length d.tasks ≤ d.summary.scheduled_endpoints
  pub outstanding_tasks : d.progress.outstanding_tasks ≡ length d.tasks
  pub outstanding_bytes : d.progress.outstanding_bytes ≡ held_bytes d.tasks
  pub global_tasks : d.state.global_tasks.current ≡ tasks_before + length d.tasks
  pub global_bytes : d.state.global_bytes.current ≡ bytes_before + held_bytes d.tasks

pub held_bytes-append : (ts us : List Task) → held_bytes (ts ++ us) ≡ held_bytes ts + held_bytes us
held_bytes-append [] us = omega arith
held_bytes-append (t ∷ ts) us = omega (arith, held_bytes-append ts us)

pub held_endpoints-append :
    (ts us : List Task) → held_endpoints (ts ++ us) ≡ held_endpoints ts + held_endpoints us
held_endpoints-append [] us = omega arith
held_endpoints-append (t ∷ ts) us = omega (arith, held_endpoints-append ts us)

record_drop-IsAccounted :
    (why : BroadcastReason) (gt gb n : ℕ) (d : Dispatching)
    → IsAccounted gt gb n d
    → IsAccounted gt gb (n + 1) (record_drop why d)
unfolding record_drop
record_drop-IsAccounted why gt gb n d a = record {
  all_seen = omega (arith, a.all_seen);
  same_dropped = omega (arith, a.same_dropped);
  same_scheduled = a.same_scheduled;
  admitted = a.admitted;
  none_sent = a.none_sent;
  endpoints_held = a.endpoints_held;
  scheduled_tasks = a.scheduled_tasks;
  few = a.few;
  outstanding_tasks = a.outstanding_tasks;
  outstanding_bytes = a.outstanding_bytes;
  global_tasks = a.global_tasks;
  global_bytes = a.global_bytes;
}

-- A state with equal counts.
pub recount :
    {gt gb n m : ℕ} {d : Dispatching} → n ≡ m → IsAccounted gt gb n d → IsAccounted gt gb m d
recount {gt} {gb} {d = d} e a = subst (λ k. IsAccounted gt gb k d) e a

pub drop_all-IsAccounted :
    (why : BroadcastReason) (es : List RoutedEndpoint) (gt gb n : ℕ) (d : Dispatching)
    → IsAccounted gt gb n d
    → IsAccounted gt gb (n + length es) (drop_all why es d)
unfolding drop_all
drop_all-IsAccounted why [] gt gb n d a = recount (omega arith) a
drop_all-IsAccounted why (e ∷ es) gt gb n d a = recount (omega arith) (
    drop_all-IsAccounted why es gt gb (n + 1) (record_drop why d)
      (record_drop-IsAccounted why gt gb n d a))

pub valid_endpoints-IsAccounted :
    (is_open : ℕ → Bool) (owner : ℕ) (es : List RoutedEndpoint) (gt gb n : ℕ) (d : Dispatching)
    → IsAccounted gt gb n d
    → let (valid, d') = valid_endpoints is_open owner es d in
      (m : ℕ) × IsAccounted gt gb m d' × (m + length valid ≡ n + length es)
unfolding valid_endpoints
valid_endpoints-IsAccounted is_open owner [] gt gb n d a = (n, a, refl)
valid_endpoints-IsAccounted is_open owner (e ∷ es) gt gb n d a =
    elim (Bool-cases (e.owner == owner && is_open e.id)) [
      | inl fine ↦
          let (m, a', count) = valid_endpoints-IsAccounted is_open owner es gt gb n d a in
          (m, simp (valid_endpoints, fine) a', simp (valid_endpoints, fine) (omega (arith, count)))
      | inr bad ↦
          let reason =
            if not (e.owner == owner)
            then BroadcastReason.invalid_plan
            else BroadcastReason.endpoint_closed in
          let (m, a', count) =
            valid_endpoints-IsAccounted is_open owner es gt gb (n + 1) (record_drop reason d)
              (record_drop-IsAccounted reason gt gb n d a) in
          (m, simp (valid_endpoints, bad) a', simp (valid_endpoints, bad) (omega (arith, count)))
    ]

-- Other states and progress with the same counts.
pub replaced :
    (s : DispatcherState) (p : DispatchProgress) (k : ℕ) (gt gb n : ℕ) (d : Dispatching)
    → s.global_tasks.current ≡ d.state.global_tasks.current
    → s.global_bytes.current ≡ d.state.global_bytes.current
    → p.outstanding_tasks ≡ d.progress.outstanding_tasks
    → p.outstanding_bytes ≡ d.progress.outstanding_bytes
    → p.dropped_endpoints ≡ d.progress.dropped_endpoints
    → p.scheduled_endpoints ≡ d.progress.scheduled_endpoints
    → p.accepted_endpoints ≡ d.progress.accepted_endpoints
    → IsAccounted gt gb n d
    → IsAccounted gt gb n (record d { state = s; progress = p; attempts = k })
replaced s p k gt gb n d et eb ot ob ed es ea a = record {
  all_seen = a.all_seen;
  same_dropped = ed ∙ a.same_dropped;
  same_scheduled = es ∙ a.same_scheduled;
  admitted = a.admitted;
  none_sent = ea ∙ a.none_sent;
  endpoints_held = a.endpoints_held;
  scheduled_tasks = a.scheduled_tasks;
  few = a.few;
  outstanding_tasks = ot ∙ a.outstanding_tasks;
  outstanding_bytes = ob ∙ a.outstanding_bytes;
  global_tasks = et ∙ a.global_tasks;
  global_bytes = eb ∙ a.global_bytes;
}
