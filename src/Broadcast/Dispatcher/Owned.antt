-- ===== src/Broadcast/Dispatcher/Owned.antt =====
-- An owner's counts, and the tasks that a dispatch posts to it.
use game_net_core.Prelude.{
  Bool, ℕ, ◌+◌, ◌≤◌, Bool, ◌≡◌, refl, ap, subst, ◌∙◌, true, false, List, [], ◌∷◌, ◌++◌, ◌==◌,
  if◌then◌else◌, arith,
}
use game_net_core.Broadcast.Router.{BroadcastPriority, BroadcastReason, RoutedEndpoint}
use game_net_core.Broadcast.Reservations.{DispatcherState, OwnerOutstanding}
use game_net_core.Broadcast.Reservations.Rollback.{IsTaken}
use game_net_core.Broadcast.Progress.{Task, Dispatching, record_drop, drop_all}
use game_net_core.Broadcast.Dispatcher.{with_reservation, with_task}

abbrev pub tasks_of : ℕ → List Task → ℕ
tasks_of id [] = 0
tasks_of id (t ∷ ts) = (if t.owner_id == id then 1 else 0) + tasks_of id ts

abbrev pub bytes_of : ℕ → List Task → ℕ
bytes_of id [] = 0
bytes_of id (t ∷ ts) = (if t.owner_id == id then t.bytes else 0) + bytes_of id ts

pub tasks_of-append :
    (id : ℕ) (ts us : List Task) → tasks_of id (ts ++ us) ≡ tasks_of id ts + tasks_of id us
tasks_of-append id [] us = omega arith
tasks_of-append id (t ∷ ts) us = omega (arith, tasks_of-append id ts us)

pub bytes_of-append :
    (id : ℕ) (ts us : List Task) → bytes_of id (ts ++ us) ≡ bytes_of id ts + bytes_of id us
bytes_of-append id [] us = omega arith
bytes_of-append id (t ∷ ts) us = omega (arith, bytes_of-append id ts us)

-- How many of the endpoints a test holds of.
abbrev pub marked : (RoutedEndpoint → Bool) → List RoutedEndpoint → ℕ
marked f [] = 0
marked f (e ∷ es) = (if f e then 1 else 0) + marked f es

abbrev pub marked_in : (RoutedEndpoint → Bool) → List Task → ℕ
marked_in f [] = 0
marked_in f (t ∷ ts) = marked f t.endpoints + marked_in f ts

pub marked-append :
    (f : RoutedEndpoint → Bool) (es fs : List RoutedEndpoint)
    → marked f (es ++ fs) ≡ marked f es + marked f fs
marked-append f [] fs = omega arith
marked-append f (e ∷ es) fs = omega (arith, marked-append f es fs)

marked_in-append :
    (f : RoutedEndpoint → Bool) (ts us : List Task)
    → marked_in f (ts ++ us) ≡ marked_in f ts + marked_in f us
marked_in-append f [] us = omega arith
marked_in-append f (t ∷ ts) us = omega (arith, marked_in-append f ts us)

-- The new tasks hold no endpoint more often than the list that they are made from.
abbrev pub IsFrom : List RoutedEndpoint → List Task → List Task → Type 0
IsFrom es ts ts' = (f : RoutedEndpoint → Bool) → marked_in f ts' ≤ marked_in f ts + marked f es

-- The owner's counts grow by the tasks that were posted to it, and none was posted to another.
pub record IsOwned (es : List RoutedEndpoint) (o o' : OwnerOutstanding) (d d' : Dispatching)
    : Type 0 where
  pub from_list : IsFrom es d.tasks d'.tasks
  pub same_owner : o'.owner_id ≡ o.owner_id
  pub same_registry : d'.state.owners ≡ d.state.owners
  pub tasks :
      o'.tasks.current + tasks_of o.owner_id d.tasks
      ≡ o.tasks.current + tasks_of o.owner_id d'.tasks
  pub bytes :
      o'.bytes.current + bytes_of o.owner_id d.tasks
      ≡ o.bytes.current + bytes_of o.owner_id d'.tasks
  pub other_tasks : (k : ℕ) → (o.owner_id == k) ≡ false → tasks_of k d'.tasks ≡ tasks_of k d.tasks
  pub other_bytes : (k : ℕ) → (o.owner_id == k) ≡ false → bytes_of k d'.tasks ≡ bytes_of k d.tasks

pub drop_all-tasks :
    (why : BroadcastReason) (es : List RoutedEndpoint) (d : Dispatching)
    → (drop_all why es d).tasks ≡ d.tasks
unfolding drop_all record_drop
drop_all-tasks why [] d = refl
drop_all-tasks why (e ∷ es) d = drop_all-tasks why es (record_drop why d)

pub drop_all-state :
    (why : BroadcastReason) (es : List RoutedEndpoint) (d : Dispatching)
    → (drop_all why es d).state ≡ d.state
unfolding drop_all record_drop
drop_all-state why [] d = refl
drop_all-state why (e ∷ es) d = drop_all-state why es (record_drop why d)

-- An owner with the same counts, and drops only.
pub dropped-IsOwned :
    (why : BroadcastReason) (es : List RoutedEndpoint) (o o' : OwnerOutstanding)
    (d d₁ : Dispatching)
    → o'.owner_id ≡ o.owner_id
    → o'.tasks.current ≡ o.tasks.current
    → o'.bytes.current ≡ o.bytes.current
    → d₁.tasks ≡ d.tasks
    → d₁.state.owners ≡ d.state.owners
    → IsOwned es o o' d (drop_all why es d₁)
dropped-IsOwned why es o o' d d₁ same et eb tasks owners =
    let all : (drop_all why es d₁).tasks ≡ d.tasks = drop_all-tasks why es d₁ ∙ tasks in
    record {
      from_list = λ f. omega (arith, ap (marked_in f) all);
      same_owner = same;
      same_registry = ap (λ s. s.owners) (drop_all-state why es d₁) ∙ owners;
      tasks = omega (arith, et, ap (tasks_of o.owner_id) all);
      bytes = omega (arith, eb, ap (bytes_of o.owner_id) all);
      other_tasks = λ k n. ap (tasks_of k) all;
      other_bytes = λ k n. ap (bytes_of k) all;
    }

-- The dispatch after a reservation.
abbrev pub reserved_for : ℕ → DispatcherState → Dispatching → Dispatching
reserved_for bytes s d = record d {
  state = s;
  progress = with_reservation bytes d.progress;
  attempts = d.attempts + 1;
}

pub with_task-IsOwned :
    {closes : Bool} (t : Task) (priority : BroadcastPriority) (o o₁ : OwnerOutstanding)
    (why : BroadcastReason) (s₁ : DispatcherState) (d : Dispatching)
    → t.owner_id ≡ o.owner_id
    → IsTaken t.bytes priority closes o d.state why o₁ s₁
    → IsOwned t.endpoints o o₁ d (with_task t (reserved_for t.bytes s₁ d))
with_task-IsOwned t priority o o₁ why s₁ d own made =
    let mine : (t.owner_id == o.owner_id) ≡ true = ground (arith, own) in
    let tasks = tasks_of-append o.owner_id d.tasks (t ∷ []) in
    let bytes = bytes_of-append o.owner_id d.tasks (t ∷ []) in
    record {
      from_list = λ f. omega (arith, marked_in-append f d.tasks (t ∷ []));
      same_owner = made.same_owner;
      same_registry = made.same_owners;
      tasks = ground (arith, tasks, mine, made.tasks);
      bytes = ground (arith, bytes, mine, made.bytes);
      other_tasks = λ k n. ground (arith, own, n, tasks_of-append k d.tasks (t ∷ []));
      other_bytes = λ k n. ground (arith, own, n, bytes_of-append k d.tasks (t ∷ []));
    }

pub joined-IsOwned :
    (es fs : List RoutedEndpoint) (o o₁ o₂ : OwnerOutstanding) (d d₁ d₂ : Dispatching)
    → IsOwned es o o₁ d d₁
    → IsOwned fs o₁ o₂ d₁ d₂
    → IsOwned (es ++ fs) o o₂ d d₂
joined-IsOwned es fs o o₁ o₂ d d₁ d₂ v w =
    let same = v.same_owner in
    record {
      from_list = λ f. omega (arith, v.from_list f, w.from_list f, marked-append f es fs);
      same_owner = w.same_owner ∙ same;
      same_registry = w.same_registry ∙ v.same_registry;
      tasks = omega (
        arith,
        v.tasks,
        subst (λ k. o₂.tasks.current + tasks_of k d₁.tasks ≡ o₁.tasks.current + tasks_of k d₂.tasks)
            same w.tasks,
      );
      bytes = omega (
        arith,
        v.bytes,
        subst (λ k. o₂.bytes.current + bytes_of k d₁.tasks ≡ o₁.bytes.current + bytes_of k d₂.tasks)
            same w.bytes,
      );
      other_tasks = λ k n. w.other_tasks k (rw same n) ∙ v.other_tasks k n;
      other_bytes = λ k n. w.other_bytes k (rw same n) ∙ v.other_bytes k n;
    }
