-- ===== src/Core/OutputBudget/Concurrent.antt =====
-- Any number of threads that reserve and release against one budget, in any interleaving of their
-- atomic accesses. `held` is what the callers of successful reservations have not yet given back.
use game_net_core.Prelude.{
  ℕ, ◌+◌, ◌-◌, ◌^◌, ◌≤◌, ◌<◌, ◌≡◌, Bool-cases, inl, inr, Bool, not, ◌&&◌, ◌==◌, if◌then◌else◌,
  arith,
}
use game_net_core.Core.OutputBudget.{
  OutputBudgetOptions, OutputBudget, Reserving, Releasing, load_pending, check_overloaded,
  clear_overloaded, reload_pending, exchange, mark_overloaded, count_rejection, update_peak, done,
  subtract, recover, released, underflow, admission, enter, enter_release, reserve_step,
  release_step,
}

pub record System : Type 0 where
  pub budget : OutputBudget
  pub held : ℕ
  pub reserving : ℕ → Reserving
  pub releasing : ℕ → Releasing

abbrev pub update {ℓ} : {A : Type ℓ} → (ℕ → A) → ℕ → A → ℕ → A
update f i a j = if i == j then a else f j

-- The bytes that a step of `tryReserve` adds to those held.
abbrev pub gained : Bool → OutputBudget → Reserving → ℕ
gained spurious b (exchange bytes current) =
    if b.pending_bytes == current && not spurious then bytes else 0
gained spurious b _ = 0

abbrev pub lost : Releasing → ℕ
lost (subtract bytes) = bytes
lost _ = 0

pub data Step : System → System → Type 0 where
  enter_reserve :
      (w : System) (i bytes : ℕ) (r : Bool)
      → bytes < 2 ^ 64
      → w.reserving i ≡ done r
      → Step w (record w { reserving = update w.reserving i (enter bytes) })
  go_reserve :
      (w : System) (i : ℕ) (spurious : Bool)
      → Step w (record w {
        budget = (reserve_step spurious w.budget (w.reserving i)).0;
        held = w.held + gained spurious w.budget (w.reserving i);
        reserving = update w.reserving i (reserve_step spurious w.budget (w.reserving i)).1;
      })
  start_release :
      (w : System) (i bytes : ℕ)
      → w.releasing i ≡ released
      → Step w (record w { releasing = update w.releasing i (enter_release bytes) })
  go_release :
      (w : System) (i : ℕ)
      → lost (w.releasing i) ≤ w.held
      → Step w (record w {
        budget = (release_step w.budget (w.releasing i)).0;
        held = w.held - lost (w.releasing i);
        releasing = update w.releasing i (release_step w.budget (w.releasing i)).1;
      })

pub data Reach (w : System) : System → Type 0 where
  here : Reach w w
  next : {u v : System} → Reach w u → Step u v → Reach w v

-- A thread about to exchange has found room for its bytes.
abbrev Fits : OutputBudgetOptions → Reserving → Type 0
Fits o (load_pending bytes) = bytes < 2 ^ 64
Fits o (check_overloaded bytes current) = (bytes < 2 ^ 64) × (current < 2 ^ 64)
Fits o (clear_overloaded bytes current) = bytes < 2 ^ 64
Fits o (reload_pending bytes) = bytes < 2 ^ 64
Fits o (exchange bytes current) = current + bytes ≤ o.hard_limit_bytes
Fits o _ = Unit {0}

abbrev Sound : Releasing → Type 0
Sound underflow = ⊥
Sound _ = Unit {0}

pub record IsAccounted (o : OutputBudgetOptions) (w : System) : Type 0 where
  pub fixed : w.budget.options ≡ o
  pub exact : w.budget.pending_bytes ≡ w.held
  pub limited : w.held ≤ o.hard_limit_bytes
  pub fits : (i : ℕ) → Fits o (w.reserving i)
  pub sound : (i : ℕ) → Sound (w.releasing i)

enter-Fits : (o : OutputBudgetOptions) (bytes : ℕ) → bytes < 2 ^ 64 → Fits o (enter bytes)
unfolding enter
enter-Fits o bytes h = ground arith

enter_release-Sound : (bytes : ℕ) → Sound (enter_release bytes)
unfolding enter_release
enter_release-Sound bytes = ground arith

-- One access of `tryReserve` keeps the account and the thread's own invariant.
reserve_step_lem :
    (o : OutputBudgetOptions) (spurious : Bool) (b : OutputBudget) (held : ℕ) (r : Reserving)
    → o.hard_limit_bytes < 2 ^ 64
    → b.options ≡ o
    → b.pending_bytes ≡ held
    → held ≤ o.hard_limit_bytes
    → Fits o r
    → let (b', r') = reserve_step spurious b r in
      (b'.options ≡ o)
      × (b'.pending_bytes ≡ held + gained spurious b r)
      × (held + gained spurious b r ≤ o.hard_limit_bytes)
      × Fits o r'
unfolding reserve_step admission
reserve_step_lem o spurious b held (load_pending bytes) w e p l f = ground arith
reserve_step_lem o spurious b held (check_overloaded bytes current) w e p l f = ground arith
reserve_step_lem o spurious b held (clear_overloaded bytes current) w e p l f = ground arith
reserve_step_lem o spurious b held (reload_pending bytes) w e p l f = ground arith
reserve_step_lem o spurious b held (exchange bytes current) w e p l f = ground arith
reserve_step_lem o spurious b held (mark_overloaded bytes) w e p l f = ground arith
reserve_step_lem o spurious b held count_rejection w e p l f = ground arith
reserve_step_lem o spurious b held (update_peak candidate) w e p l f = ground arith
reserve_step_lem o spurious b held (done result) w e p l f = ground arith

release_step_lem :
    (o : OutputBudgetOptions) (b : OutputBudget) (held : ℕ) (r : Releasing)
    → o.hard_limit_bytes < 2 ^ 64
    → b.options ≡ o
    → b.pending_bytes ≡ held
    → held ≤ o.hard_limit_bytes
    → lost r ≤ held
    → Sound r
    → let (b', r') = release_step b r in
      (b'.options ≡ o) × (b'.pending_bytes ≡ held - lost r) × Sound r'
unfolding release_step
release_step_lem o b held (subtract bytes) w e p l f s = ground arith
release_step_lem o b held (recover remaining) w e p l f s = ground arith
release_step_lem o b held released w e p l f s = ground arith
release_step_lem o b held underflow w e p l f s = absurd s

update-all {ℓ κ} :
    {A : Type ℓ} (P : A → Type κ) (f : ℕ → A) (i : ℕ) (a : A)
    → ((j : ℕ) → P (f j))
    → P a
    → (j : ℕ) → P (update f i a j)
update-all P f i a all pa j = elim (Bool-cases (i == j)) [ inl e ↦ rw e pa | inr e ↦ rw e (all j) ]

Step-IsAccounted :
    (o : OutputBudgetOptions) {w v : System}
    → o.hard_limit_bytes < 2 ^ 64
    → Step w v
    → IsAccounted o w
    → IsAccounted o v
Step-IsAccounted o h (enter_reserve w i bytes r word e) a = record {
  fixed = a.fixed;
  exact = a.exact;
  limited = a.limited;
  fits = update-all (Fits o) w.reserving i (enter bytes) a.fits (enter-Fits o bytes word);
  sound = a.sound;
}
Step-IsAccounted o h (go_reserve w i spurious) a =
    let (e, p, l, f) =
      reserve_step_lem o spurious w.budget w.held (w.reserving i) h a.fixed a.exact a.limited
        (a.fits i) in
    record {
      fixed = e;
      exact = p;
      limited = l;
      fits =
          update-all (Fits o) w.reserving i (reserve_step spurious w.budget (w.reserving i)).1
            a.fits f;
      sound = a.sound;
    }
Step-IsAccounted o h (start_release w i bytes e) a = record {
  fixed = a.fixed;
  exact = a.exact;
  limited = a.limited;
  fits = a.fits;
  sound = update-all Sound w.releasing i (enter_release bytes) a.sound (enter_release-Sound bytes);
}
Step-IsAccounted o h (go_release w i owned) a =
    let (e, p, s) =
      release_step_lem o w.budget w.held (w.releasing i) h a.fixed a.exact a.limited owned
        (a.sound i) in
    record {
      fixed = e;
      exact = p;
      limited = omega (arith, a.limited);
      fits = a.fits;
      sound = update-all Sound w.releasing i (release_step w.budget (w.releasing i)).1 a.sound s;
    }

-- However the accesses of any number of threads interleave, and however often a weak exchange fails
-- spuriously: as long as no caller gives back more than is held, the pending bytes are exactly those
-- held, they never exceed the hard limit, and no release finds too few bytes pending.
pub Reach-IsAccounted :
    (o : OutputBudgetOptions) {w v : System}
    → o.hard_limit_bytes < 2 ^ 64
    → IsAccounted o w
    → Reach w v
    → IsAccounted o v
Reach-IsAccounted o h a here = a
Reach-IsAccounted o h a (next r s) = Step-IsAccounted o h s (Reach-IsAccounted o h a r)
