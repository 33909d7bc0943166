-- ===== src/Core/Buffer/Bytes.antt =====
-- The buffer as a queue of bytes.
use game_net_core.Prelude.{
  ℕ, ap₂, ◌+◌, ◌-◌, ◌^◌, ◌≤◌, ◌<◌, ◌≡◌, inl, inr, refl, sym, ap, ◌∙◌, Bool, true, false, Option,
  none, some, List, [], ◌∷◌, ◌++◌, leb, ltb, ◌&&◌, ◌||◌, ◌==◌, if◌then◌else◌, arith, length, take,
  drop, min, append-nil, length-take, length-drop, subst, drop-all, take-all, take-append-drop,
  append_assoc, Bool-cases,
}
use game_net_core.Protocol.Ring.{copy_to}
use game_net_core.Protocol.Ring.Laws.{length-copy_to}
use game_net_core.Core.Buffer.{
  Buffer, bytes, slice, readable_bytes, writable_bytes, Call, appends, retrieves, retrieves_until,
  retrieves_all, takes, takes_all, ensures, writes, retrieve_until, retrieve_all_as_string,
  has_written, reads, trims, step, run, read_bytes, read_fd, retrieve_as_string, append,
}
use game_net_core.Core.Buffer.Slices.{take-slice}
use game_net_core.Core.Buffer.Valid.{
  IsValid, trim_capacity-IsValid, retrieve-IsValid, AreCapacities, length-bytes,
  retrieve_all-IsValid,
}
use game_net_core.Core.Buffer.Room.{append_lem, ensure_writable_bytes-HasRoom, written-IsValid}

abbrev pub unless_thrown : List ℕ → Option Buffer → List ℕ
unless_thrown bs none = []
unless_thrown bs (some b) = bs

module _ (allocate : ℕ → Option ℕ) (reallocate : ℕ → ℕ → Option ℕ)
    (caps : AreCapacities allocate reallocate) where
  -- `retrieveAsString` answers the first bytes, as many as asked for if there are so many, and
  -- leaves the rest.
  pub retrieve_as_string_lem :
      (b : Buffer) (n : ℕ)
      → IsValid b
      → let (s, b') = retrieve_as_string allocate reallocate n b in
        (s ≡ take n (bytes b)) × IsValid b' × (bytes b' ≡ drop n (bytes b))
  unfolding retrieve_as_string readable_bytes
  retrieve_as_string_lem b n v =
      let held = b.writer_index - b.reader_index in
      let long = length-bytes b v in
      let (w, e) = retrieve-IsValid allocate reallocate caps b (min n held) v in
      elim (Bool-cases (leb n held)) [
        | inl some_left ↦
            let all : min n held ≡ n = ground arith in
            (
              ap (slice b.storage b.reader_index) all
                  ∙ take-slice b.storage b.reader_index held n (ground arith),
              w,
              e ∙ ap (λ k. drop k (bytes b)) all,
            )
        | inr more ↦
            let all : min n held ≡ held = ground arith in
            (
              ap (slice b.storage b.reader_index) all
                  ∙ sym (take-all n (bytes b) (ground (arith, long))),
              w,
              e
                  ∙ ap (λ k. drop k (bytes b)) all
                  ∙ drop-all held (bytes b) (omega (arith, long))
                  ∙ sym (drop-all n (bytes b) (ground (arith, long))),
            )
      ]

  -- What a read leaves: all its bytes behind those held, or, where the allocation for the rest has
  -- failed, those for which there was room.
  pub record HasRead (max_read : ℕ) (bs : List ℕ) (r : Bool × Buffer) (b : Buffer) : Type 0 where
    pub valid : IsValid r.1
    pub got : List ℕ
    pub appended : bytes r.1 ≡ bytes b ++ got
    pub all : r.0 ≡ true → got ≡ bs
    pub part : r.0 ≡ false → got ≡ take (min (length b.storage - b.writer_index) max_read) bs

  read_bytes_lem :
      (b : Buffer) (max_read : ℕ) (bs : List ℕ)
      → IsValid b
      → length bs < 2 ^ 63
      → length bs ≤ max_read
      → HasRead max_read bs (read_bytes allocate reallocate max_read bs b) b
  unfolding read_bytes writable_bytes
  read_bytes_lem b max_read bs v small limited =
      let writable : ℕ = min (length b.storage - b.writer_index) max_read in
      elim (Bool-cases (leb (length bs) writable)) [
        | inl fits ↦
            let (w, e) =
              written-IsValid allocate reallocate caps b bs v (ground (arith, v.stored)) in
            rw (read_bytes, fits, take-all writable bs (ground arith))
              (record {
                valid = w;
                got = bs;
                appended = e;
                all = λ done. refl;
                part = λ failed. absurd (cc);
              })
        | inr more ↦
            let part : List ℕ = take writable bs in
            let rest : List ℕ = drop writable bs in
            let size = length-take writable bs in
            let size' = length-drop writable bs in
            let ends : b.writer_index + length part ≡ length b.storage =
              ground (arith, size, more, limited, v.stored) in
            let (w, e) = written-IsValid allocate reallocate caps b part v (omega (arith, ends)) in
            let full : Buffer = record b {
              storage = copy_to b.storage b.writer_index part;
              writer_index = length b.storage;
            } in
            let full_valid : IsValid full =
              subst
                (λ k.
                  IsValid (record b {
                    storage = copy_to b.storage b.writer_index part;
                    writer_index = k;
                  }))
                ends w in
            let full_bytes : bytes full ≡ bytes b ++ part =
              subst
                (λ k.
                  bytes
                    (record b { storage = copy_to b.storage b.writer_index part; writer_index = k })
                  ≡ bytes b ++ part)
                ends e in
            elim (append_lem allocate reallocate caps full rest full_valid
              (omega (arith, size', small))) [
                | inl (none_left, failed) ↦
                    rw (read_bytes, more, none_left)
                      (record {
                        valid = full_valid;
                        got = part;
                        appended = full_bytes;
                        all = λ done. absurd (cc);
                        part = λ failed. refl;
                      })
                | inr (b', made, (w', e')) ↦
                    rw (read_bytes, more, made)
                      (record {
                        valid = w';
                        got = bs;
                        appended =
                            e'
                            ∙ ap (λ ys. ys ++ rest) full_bytes
                            ∙ append_assoc (bytes b) part rest
                            ∙ ap (◌++◌ (bytes b)) (take-append-drop writable bs);
                        all = λ done. refl;
                        part = λ failed. absurd (cc);
                      })
              ]
      ]

  -- A read of a kernel that keeps to the limit puts what it read behind the bytes held; all of it,
  -- unless an exception was thrown.
  pub read_fd_lem :
      (b : Buffer) (max_read : ℕ) (bs : List ℕ)
      → IsValid b
      → length bs < 2 ^ 63
      → length bs ≤ max_read
      → HasRead max_read bs (read_fd allocate reallocate max_read (some bs) b) b
  unfolding read_fd
  read_fd_lem b max_read bs v small limited = elim (Bool-cases (max_read == 0)) [
    | inr reading ↦ rw (read_fd, reading) (read_bytes_lem b max_read bs v small limited)
    | inl nothing ↦
        rw (read_fd, nothing)
          (record {
            valid = v;
            got = [];
            appended = sym (append-nil (bytes b));
            all = λ done. ground (arith, nothing, limited);
            part = λ failed. absurd (cc);
          })
  ]

  -- What the calls put in and take out: a call that throws puts nothing in, except that a read keeps
  -- what it had room for.
  abbrev pub put_in : Buffer → Call → List ℕ
  put_in b (appends bs) = unless_thrown bs (append allocate reallocate bs b)
  put_in b (reads max_read none) = []
  put_in b (reads max_read (some bs)) =
      if (read_fd allocate reallocate max_read (some bs) b).0
      then bs
      else take (min (length b.storage - b.writer_index) max_read) bs
  put_in b (writes bs) = if leb (length bs) (length b.storage - b.writer_index) then bs else []
  put_in b _ = []

  -- What a call should take out: an address beyond the readable bytes throws.
  abbrev pub asked_for : Buffer → Call → List ℕ
  asked_for b (retrieves n) = take n (bytes b)
  asked_for b (retrieves_until base end_address) =
      let first = base + b.reader_index in
      if leb first end_address && leb end_address (first + length (bytes b))
      then take (end_address - first) (bytes b)
      else []
  asked_for b retrieves_all = bytes b
  asked_for b (takes n) = take n (bytes b)
  asked_for b takes_all = bytes b
  asked_for b _ = []

  -- What it takes out: the string, where it answers one.
  abbrev pub taken_out : Buffer → Call → List ℕ
  taken_out b (takes n) = (retrieve_as_string allocate reallocate n b).0
  taken_out b takes_all = (retrieve_all_as_string allocate reallocate b).0
  taken_out b (retrieves n) = asked_for b (retrieves n)
  taken_out b (retrieves_until base end_address) = asked_for b (retrieves_until base end_address)
  taken_out b retrieves_all = asked_for b retrieves_all
  taken_out b _ = []

  -- Reads keep to their limits, and no vector or read is longer than half of the address space.
  abbrev pub IsSane : Call → Type 0
  IsSane (appends bs) = length bs < 2 ^ 63
  IsSane (ensures n) = n < 2 ^ 63
  IsSane (reads max_read (some bs)) = (length bs < 2 ^ 63) × (length bs ≤ max_read)
  IsSane _ = Unit {0}

  abbrev pub AllSane : List Call → Type 0
  AllSane [] = Unit {0}
  AllSane (c ∷ cs) = IsSane c × AllSane cs

  Balances : Buffer → Call → Type 0
  Balances b c =
      IsValid (step allocate reallocate b c)
      × (bytes b ++ put_in b c ≡ taken_out b c ++ bytes (step allocate reallocate b c))
      × (taken_out b c ≡ asked_for b c)

  step-appends :
      (b : Buffer) (bs : List ℕ) → IsValid b → length bs < 2 ^ 63 → Balances b (appends bs)
  unfolding Balances step
  step-appends b bs v small = elim (append_lem allocate reallocate caps b bs v small) [
    | inl (none_left, failed) ↦ rw none_left (v, append-nil (bytes b), refl)
    | inr (b', made, (w, e)) ↦ rw made (w, sym e, refl)
  ]

  step-reads :
      (b : Buffer) (max_read : ℕ) (bs : List ℕ)
      → IsValid b
      → IsSane (reads max_read (some bs))
      → Balances b (reads max_read (some bs))
  unfolding Balances step
  step-reads b max_read bs v h =
      let r = read_fd_lem b max_read bs v h.0 h.1 in
      elim (Bool-cases (read_fd allocate reallocate max_read (some bs) b).0) [
        | inl done ↦ (r.valid, rw done (sym (r.appended ∙ ap (◌++◌ (bytes b)) (r.all done))), refl)
        | inr failed ↦
            (r.valid, rw failed (sym (r.appended ∙ ap (◌++◌ (bytes b)) (r.part failed))), refl)
      ]

  step-until :
      (b : Buffer) (base end_address : ℕ)
      → IsValid b
      → Balances b (retrieves_until base end_address)
  unfolding Balances step retrieve_until readable_bytes
  step-until b base end_address v =
      let first = base + b.reader_index in
      let held = b.writer_index - b.reader_index in
      let n = end_address - first in
      let long = length-bytes b v in
      let (w, e) = retrieve-IsValid allocate reallocate caps b n v in
      elim (Bool-cases (ltb end_address first || ltb (first + held) end_address)) [
        | inl outside ↦
            let spec : (leb first end_address && leb end_address (first + length (bytes b)))
                ≡ false =
              ground (arith, outside, long) in
            simp (retrieve_until, outside, spec) (v, append-nil (bytes b), refl)
        | inr inside ↦
            let spec : (leb first end_address && leb end_address (first + length (bytes b)))
                ≡ true =
              ground (arith, inside, long) in
            simp (retrieve_until, inside, spec)
              (
                w,
                append-nil (bytes b)
                    ∙ sym (ap (◌++◌ (take n (bytes b))) e ∙ take-append-drop n (bytes b)),
                refl,
              )
      ]

  step-all : (b : Buffer) → IsValid b → Balances b takes_all
  unfolding Balances step retrieve_all_as_string readable_bytes
  step-all b v =
      let held = b.writer_index - b.reader_index in
      let (s, w, e) = retrieve_as_string_lem b held v in
      let all = take-all held (bytes b) (omega (arith, length-bytes b v)) in
      (w, append-nil (bytes b) ∙ sym (ap₂ ◌++◌ s e ∙ take-append-drop held (bytes b)), s ∙ all)

  step-writes : (b : Buffer) (bs : List ℕ) → IsValid b → Balances b (writes bs)
  unfolding Balances step has_written writable_bytes
  step-writes b bs v =
      let size = length-copy_to b.storage b.writer_index bs in
      elim (Bool-cases (leb (length bs) (length b.storage - b.writer_index))) [
        | inl fits ↦
            let (w, e) =
              written-IsValid allocate reallocate caps b bs v (ground (arith, fits, v.stored)) in
            let fits' : ltb (length (copy_to b.storage b.writer_index bs) - b.writer_index)
                  (length bs)
                ≡ false =
              ground (arith, size, fits) in
            simp (has_written, fits, fits') (w, sym e, refl)
        | inr long ↦
            let long' : ltb (length (copy_to b.storage b.writer_index bs) - b.writer_index)
                  (length bs)
                ≡ true =
              ground (arith, size, long) in
            simp (has_written, long, long') (v, append-nil (bytes b), refl)
      ]

  step-Balances : (b : Buffer) (c : Call) → IsValid b → IsSane c → Balances b c
  unfolding Balances step read_fd
  step-Balances b (appends bs) v h = step-appends b bs v h
  step-Balances b (retrieves n) v h =
      let (w, e) = retrieve-IsValid allocate reallocate caps b n v in
      (
        w,
        append-nil (bytes b) ∙ sym (ap (◌++◌ (take n (bytes b))) e ∙ take-append-drop n (bytes b)),
        refl,
      )
  step-Balances b (retrieves_until base end_address) v h = step-until b base end_address v
  step-Balances b retrieves_all v h =
      let (w, e) = retrieve_all-IsValid allocate reallocate caps b v in
      (w, append-nil (bytes b) ∙ sym (ap (◌++◌ (bytes b)) e ∙ append-nil (bytes b)), refl)
  step-Balances b takes_all v h = step-all b v
  step-Balances b (ensures n) v h =
      elim (ensure_writable_bytes-HasRoom allocate reallocate caps b n v h) [
        | inl (none_left, failed) ↦ rw none_left (v, append-nil (bytes b), refl)
        | inr (b', made, r) ↦ rw made (r.valid, append-nil (bytes b) ∙ sym r.same, refl)
      ]
  step-Balances b (writes bs) v h = step-writes b bs v
  step-Balances b (takes n) v h =
      let (s, w, e) = retrieve_as_string_lem b n v in
      (w, append-nil (bytes b) ∙ sym (ap₂ ◌++◌ s e ∙ take-append-drop n (bytes b)), s)
  step-Balances b (reads max_read none) v h = (v, append-nil (bytes b), refl)
  step-Balances b (reads max_read (some bs)) v h = step-reads b max_read bs v h
  step-Balances b trims v h =
      let (w, e) = trim_capacity-IsValid allocate reallocate caps b v in
      (w, append-nil (bytes b) ∙ sym e, refl)

  abbrev pub inputs : Buffer → List Call → List ℕ
  inputs b [] = []
  inputs b (c ∷ cs) = put_in b c ++ inputs (step allocate reallocate b c) cs

  abbrev pub outputs : Buffer → List Call → List ℕ
  outputs b [] = []
  outputs b (c ∷ cs) = taken_out b c ++ outputs (step allocate reallocate b c) cs

  abbrev pub asked : Buffer → List Call → List ℕ
  asked b [] = []
  asked b (c ∷ cs) = asked_for b c ++ asked (step allocate reallocate b c) cs

  -- A valid buffer is a queue of bytes, whatever is called, whichever allocations fail and whenever
  -- its storage grows, is compacted or trimmed: it stays valid, and the bytes that it held, followed
  -- by those put in, are those taken out, followed by those that it holds. What is taken out, the
  -- strings that are answered included, is what each call asks for.
  pub bytes-run :
      (b : Buffer) (cs : List Call)
      → IsValid b
      → AllSane cs
      → IsValid (run allocate reallocate b cs)
        × (bytes b ++ inputs b cs ≡ outputs b cs ++ bytes (run allocate reallocate b cs))
        × (outputs b cs ≡ asked b cs)
  unfolding run Balances
  bytes-run b [] v h = (v, append-nil (bytes b), refl)
  bytes-run b (c ∷ cs) v h =
      let (w, e, a) = step-Balances b c v h.0 in
      let b' = step allocate reallocate b c in
      let (w', e', a') = bytes-run b' cs w h.1 in
      (
        w',
        sym (append_assoc (bytes b) (put_in b c) (inputs b' cs))
            ∙ ap (λ ys. ys ++ inputs b' cs) e
            ∙ append_assoc (taken_out b c) (bytes b') (inputs b' cs)
            ∙ ap (◌++◌ (taken_out b c)) e'
            ∙ sym (
                append_assoc (taken_out b c) (outputs b' cs)
                  (bytes (run allocate reallocate b' cs))),
        ap₂ ◌++◌ a a',
      )
