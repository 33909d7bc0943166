-- ===== src/GameLogic/LogicLoop/Batch.antt =====
-- The batch of commands of one tick.
use game_net_core.Prelude.{
  ℕ, ◌+◌, ◌≤◌, ◌≡◌, refl, sym, subst, ap, ◌∙◌, true, false, List, [], ◌∷◌, arith, Option, none,
  some, length, length-take, take, min, Option-cases, Bool-cases, inl, inr, if◌then◌else◌,
}
use game_net_core.Session.Binding.{Cells}
use game_net_core.GameLogic.CommandQueue.{GameCommand, drain}
use game_net_core.GameLogic.CommandQueue.Invariant.{IsValid, drain_lem}
use game_net_core.GameLogic.LogicLoop.{
  World, Action, LogicTickMetric, submits, starts, stops, binds, destroys, running, is_stale, start,
  stop, submit, perform, perform_all, tick, tick_running, handle, handle_all, deliver, end_tick,
}

module _ {S : Type 0} (handler : S → GameCommand → Option GameCommand × List Action × S)
    (output : Option (S → GameCommand → List Action × S)) where
  deliver-le :
      (w : World) (s : S) (out : Option GameCommand) → (deliver handler output w s out).2 ≤ 1
  unfolding deliver
  deliver-le w s out = ground arith

  handle-le : (w : World) (s : S) (c : GameCommand) → (handle handler output w s c).2 ≤ 1
  unfolding handle
  handle-le w s c =
      ground (arith, deliver-le (perform_all w (handler s c).1) (handler s c).2 (handler s c).0)

  handle_all-le :
      (w : World) (s : S) (n : ℕ) (cs : List GameCommand)
      → (handle_all handler output w s n cs).2 ≤ n + length cs
  unfolding handle_all
  handle_all-le w s n [] = omega arith
  handle_all-le w s n (c ∷ cs) =
      let (w', s', m) = handle handler output w s c in
      ground (arith, handle-le w s c, handle_all-le w' s' (n + m) cs)

  -- What one tick reports: it took no more commands than its limit allows, and passed no more
  -- outputs on than it took commands; whatever the callbacks do.
  pub tick_bounds :
      (w : World) (s : S) (sample : LogicTickMetric)
      → IsValid w.loop.queue
      → (tick handler output w s).2 ≡ some sample
      → (sample.drained ≤ w.loop.options.max_commands_per_tick) × (sample.produced ≤ sample.drained)
  unfolding tick tick_running end_tick
  tick_bounds w s sample v e =
      let limit = w.loop.options.max_commands_per_tick in
      let (commands, q) = drain limit w.loop.queue in
      let start = record w { loop = record w.loop { queue = q } } in
      ground (
        arith,
        handle_all-le start s 0 commands,
        ap length (drain_lem limit w.loop.queue v).0,
        length-take (min limit (length w.loop.queue.queue)) w.loop.queue.queue,
      )

-- Calls that a callback may make while the batch goes on as drained.
abbrev pub IsQuiet : Action → Type 0
IsQuiet (submits now c) = Unit {0}
IsQuiet (starts has_handler armed) = Unit {0}
IsQuiet stops = Unit {0}
IsQuiet _ = ⊥

abbrev pub AllQuiet : List Action → Type 0
AllQuiet [] = Unit {0}
AllQuiet (a ∷ actions) = IsQuiet a × AllQuiet actions

perform-quiet :
    (w : World) (a : Action)
    → IsQuiet a
    → ((perform w a).cells ≡ w.cells) × ((perform w a).loop.alive ≡ w.loop.alive)
unfolding perform submit start stop
perform-quiet w (submits now c) h = (refl, ground arith)
perform-quiet w (starts has_handler armed) h = (refl, ground arith)
perform-quiet w stops h = (refl, ground arith)
perform-quiet w (binds cell g) h = absurd h
perform-quiet w destroys h = absurd h

perform_all-quiet :
    (w : World) (actions : List Action)
    → AllQuiet actions
    → ((perform_all w actions).cells ≡ w.cells)
      × ((perform_all w actions).loop.alive ≡ w.loop.alive)
unfolding perform_all
perform_all-quiet w [] h = (refl, refl)
perform_all-quiet w (a ∷ actions) h =
    let (c, l) = perform-quiet w a h.0 in
    let (cs, ls) = perform_all-quiet (perform w a) actions h.1 in (cs ∙ c, ls ∙ l)

abbrev pub AllFresh : Cells → List GameCommand → Type 0
AllFresh cells [] = Unit {0}
AllFresh cells (c ∷ cs) = (is_stale cells c ≡ false) × AllFresh cells cs

module _ {S : Type 0} (handler : S → GameCommand → Option GameCommand × List Action × S)
    (output : Option (S → GameCommand → List Action × S)) where
  -- What the client makes of the handler's output: the output callback, if there is one, gets it,
  -- unless it is stale.
  abbrev pub passed_on : Cells → S → Option GameCommand → S
  passed_on cells s none = s
  passed_on cells s (some o) = elim output [
    | none ↦ s
    | some callback ↦ if is_stale cells o then s else (callback s o).1
  ]

  -- The handler, and the output callback after it, applied to one command after the other.
  abbrev pub handled : Cells → S → List GameCommand → S
  handled cells s [] = s
  handled cells s (c ∷ cs) = handled cells (passed_on cells (handler s c).2 (handler s c).0) cs

module _ {S : Type 0} (handler : S → GameCommand → Option GameCommand × List Action × S)
    (output : Option (S → GameCommand → List Action × S))
    (quiet : (s : S) (c : GameCommand) → AllQuiet (handler s c).1)
    (quiet_output : (callback : S → GameCommand → List Action × S)
      → output ≡ some callback
      → (s : S) (o : GameCommand) → AllQuiet (callback s o).0) where
  deliver-quiet :
      (w : World) (s : S) (out : Option GameCommand)
      → let (w', s', n) = deliver handler output w s out in
        (w'.cells ≡ w.cells)
        × (w'.loop.alive ≡ w.loop.alive)
        × (s' ≡ passed_on handler output w.cells s out)
  unfolding deliver
  deliver-quiet w s none = (refl, refl, refl)
  deliver-quiet w s (some o) = elim (Option-cases output) [
    | inl absent ↦ rw absent (refl, refl, refl)
    | inr (callback, there) ↦ elim (Bool-cases (is_stale w.cells o)) [
      | inl old ↦ rw (there, old) (refl, refl, refl)
      | inr current ↦
          let (cells, lives) =
            perform_all-quiet w (callback s o).0 (quiet_output callback there s o) in
          rw (there, current) (cells, lives, refl)
    ]
  ]

  handle-quiet :
      (w : World) (s : S) (c : GameCommand)
      → w.loop.alive ≡ true
      → is_stale w.cells c ≡ false
      → let (w', s', n) = handle handler output w s c in
        (w'.cells ≡ w.cells)
        × (w'.loop.alive ≡ true)
        × (s' ≡ passed_on handler output w.cells (handler s c).2 (handler s c).0)
  unfolding handle
  handle-quiet w s c alive fresh =
      let w' = perform_all w (handler s c).1 in
      let (cells, lives) = perform_all-quiet w (handler s c).1 (quiet s c) in
      let (cells', lives', state) = deliver-quiet w' (handler s c).2 (handler s c).0 in
      simp (fresh, lives ∙ alive)
        (
          cells' ∙ cells,
          lives' ∙ lives ∙ alive,
          state ∙ ap (λ k. passed_on handler output k (handler s c).2 (handler s c).0) cells,
        )

  handle_all-quiet :
      (w : World) (s : S) (n : ℕ) (cs : List GameCommand)
      → w.loop.alive ≡ true
      → AllFresh w.cells cs
      → (handle_all handler output w s n cs).1 ≡ handled handler output w.cells s cs
  unfolding handle_all
  handle_all-quiet w s n [] alive fresh = refl
  handle_all-quiet w s n (c ∷ cs) alive fresh =
      let (cells, lives, state) = handle-quiet w s c alive fresh.0 in
      let (w', s', m) = handle handler output w s c in
      let rest =
        handle_all-quiet w' s' (n + m) cs lives (subst (λ k. AllFresh k cs) (sym cells) fresh.1) in
      rw lives (
        rest
        ∙ ap (λ k. handled handler output k s' cs) cells
        ∙ ap (λ t. handled handler output w.cells t cs) state)

  -- A tick commits to its batch: although the handler or the output callback stops the loop, starts
  -- it or submits more while it runs, every drained command is handled, in order, and its output is
  -- passed on before the next command, unless it is stale or there is no output callback; if no
  -- drained command is stale, no binding changes and the loop lives on.
  pub tick_batch :
      (w : World) (s : S)
      → IsValid w.loop.queue
      → w.loop.state ≡ running
      → w.loop.alive ≡ true
      → let batch =
          take
            (min w.loop.options.max_commands_per_tick (length w.loop.queue.queue))
            w.loop.queue.queue in
        AllFresh w.cells batch
        → (tick handler output w s).1 ≡ handled handler output w.cells s batch
  unfolding tick tick_running end_tick
  tick_batch w s v runs alive fresh =
      let limit = w.loop.options.max_commands_per_tick in
      let (commands, q) = drain limit w.loop.queue in
      let start = record w { loop = record w.loop { queue = q } } in
      let taken = (drain_lem limit w.loop.queue v).0 in
      let all =
        handle_all-quiet start s 0 commands alive (subst (AllFresh w.cells) (sym taken) fresh) in
      ground (arith, all, ap (handled handler output w.cells s) taken)
