-- ===== src/Core/Buffer/Tests.antt =====
-- Runs of the buffer, and its theorems at concrete inputs.
use game_net_core.Prelude.{
  ℕ, ◌≡◌, some, none, List, [], ◌∷◌, ◌++◌, Option, arith, leb, if◌then◌else◌,
}
use game_net_core.Core.Buffer.{
  Buffer, Call, appends, retrieves, retrieves_until, takes, takes_all, ensures, writes, reads,
  trims, new_buffer, run, bytes,
}
use game_net_core.Core.Buffer.Valid.{IsValid, AreCapacities}
use game_net_core.Core.Buffer.Bytes.{inputs, outputs, asked, bytes-run}

-- Allocations that give what was asked for, up to 4096 bytes.
abbrev allocate : ℕ → Option ℕ
allocate n = if leb n 4096 then some n else none

abbrev reallocate : ℕ → ℕ → Option ℕ
reallocate old n = if leb n 4096 then some n else none

capacities : AreCapacities allocate reallocate
capacities = record { new = λ n c e. ground arith; grown = λ old n c e. ground arith }

abbrev start : Buffer
start = new_buffer (record { max_retained_capacity_bytes = 1032; trim_threshold_bytes = 100 }) 1032

start-IsValid : IsValid start
start-IsValid = record {
  prepend = omega arith;
  ordered = omega arith;
  stored = omega arith;
  held = omega arith;
  bounded = omega arith;
  retained = omega arith;
  threshold = omega arith;
}

abbrev calls : List Call
calls =
    appends (1 ∷ 2 ∷ 3 ∷ [])
    ∷ takes 2
    ∷ ensures 20
    ∷ writes (8 ∷ 9 ∷ [])
    ∷ retrieves_until 100 111
    ∷ takes_all
    ∷ reads 10 (some (4 ∷ 5 ∷ []))
    ∷ retrieves 9
    ∷ trims
    ∷ []

bytes-run_example :
    IsValid (run allocate reallocate start calls)
    × (bytes start ++ inputs allocate reallocate capacities start calls
        ≡ outputs allocate reallocate capacities start calls
          ++ bytes (run allocate reallocate start calls))
    × (outputs allocate reallocate capacities start calls
        ≡ asked allocate reallocate capacities start calls)
bytes-run_example = bytes-run allocate reallocate capacities start calls start-IsValid (omega arith)
