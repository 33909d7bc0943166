-- ===== src/Core/Buffer/Room.antt =====
-- What making room for `n` bytes behind the writer leaves, and writing into it.
use game_net_core.Prelude.{
  ℕ, ◌+◌, ◌-◌, ◌^◌, ◌≤◌, ◌<◌, ◌≡◌, ◌⊎◌, inl, inr, refl, sym, ap, ◌∙◌, false, Option, none, some,
  List, [], ◌∷◌, ◌++◌, ltb, leb, ◌==◌, arith, length, take, replicate, add64, length-replicate,
  length-append, append-nil, length-take, Bool-cases, Option-cases,
}
use game_net_core.Protocol.Ring.{copy_to}
use game_net_core.Protocol.Ring.Laws.{length-copy_to}
use game_net_core.Core.Buffer.{
  Buffer, bytes, resize, capacity_for, readable_bytes, writable_bytes, prependable_bytes,
  update_retained_capacity, append, has_written, make_space, ensure_writable_bytes,
}
use game_net_core.Core.Buffer.Slices.{slice-copy_to, slice-resize}
use game_net_core.Core.Buffer.Valid.{IsValid, AreCapacities, length-bytes, moved-bytes}

-- Room has been made for `n` bytes behind the writer.
pub record HasRoom (n : ℕ) (b b' : Buffer) : Type 0 where
  pub valid : IsValid b'
  pub same : bytes b' ≡ bytes b
  pub room : b'.writer_index + n ≤ length b'.storage

-- A buffer of a capacity for what the resized storage holds.
resized-HasRoom :
    (b : Buffer) (n c : ℕ)
    → IsValid b
    → length b.storage ≤ b.writer_index + n
    → b.writer_index + n ≤ c
    → c < 2 ^ 63
    → HasRoom n b (
        update_retained_capacity
          (record b { storage = resize (b.writer_index + n) b.storage; capacity = c }))
unfolding update_retained_capacity
resized-HasRoom b n c v more fits small =
    let total = b.writer_index + n in
    let size = length-append (take total b.storage) (replicate (total - length b.storage) 0) in
    let size' = length-take total b.storage in
    let size'' = length-replicate {A = ℕ} (total - length b.storage) 0 in
    record {
      valid = record {
        prepend = v.prepend;
        ordered = v.ordered;
        stored = omega (arith, size, size', size'', more);
        held = omega (arith, size, size', size'', more, fits);
        bounded = small;
        retained = v.retained;
        threshold = v.threshold;
      };
      same =
          slice-resize b.storage total b.reader_index (b.writer_index - b.reader_index) more
            (omega (arith, v.ordered, v.stored));
      room = omega (arith, size, size', size'', more);
    }

compacted-HasRoom :
    (b : Buffer) (n : ℕ)
    → IsValid b
    → n ≤ length b.storage - b.writer_index + b.reader_index - 8
    → HasRoom n b (record b {
      storage = copy_to b.storage 8 (bytes b);
      reader_index = 8;
      writer_index = 8 + (b.writer_index - b.reader_index);
    })
compacted-HasRoom b n v h =
    let size = length-copy_to b.storage 8 (bytes b) in
    let long = length-bytes b v in
    record {
      valid = record {
        prepend = omega arith;
        ordered = omega arith;
        stored = omega (arith, size, v.prepend, v.ordered, v.stored);
        held = omega (arith, size, v.held);
        bounded = v.bounded;
        retained = v.retained;
        threshold = v.threshold;
      };
      same =
          moved-bytes b.storage (bytes b) (8 + (b.writer_index - b.reader_index) - 8)
            (omega (arith, long)) (omega (arith, long, v.prepend, v.ordered, v.stored));
      room = omega (arith, size, h, v.prepend, v.ordered, v.stored);
    }

-- What an operation answers that needs room: an exception where the allocation has failed, or a
-- buffer of which something holds.
abbrev pub Allocates : (ℕ → ℕ → Option ℕ) → Buffer → ℕ → Option Buffer → (Buffer → Type 0) → Type 0
Allocates reallocate b n r P =
    ((r ≡ none) × (reallocate b.capacity (b.writer_index + n) ≡ none))
    ⊎ ((b' : Buffer) × (r ≡ some b') × P b')

module _ (allocate : ℕ → Option ℕ) (reallocate : ℕ → ℕ → Option ℕ)
    (caps : AreCapacities allocate reallocate) where
  capacity_for-cases :
      (b : Buffer) (total : ℕ)
      → IsValid b
      → ((capacity_for allocate reallocate b total ≡ none) × (reallocate b.capacity total ≡ none))
        ⊎ ((c : ℕ) × (capacity_for allocate reallocate b total ≡ some c)
            × (total ≤ c)
            × (c < 2 ^ 63))
  capacity_for-cases b total v = elim (Bool-cases (leb total b.capacity)) [
    | inl fits ↦ inr (b.capacity, rw fits refl, ground arith, v.bounded)
    | inr more ↦ elim (Option-cases (reallocate b.capacity total)) [
      | inl failed ↦ inl (rw (more, failed) refl, failed)
      | inr (c, made) ↦
          let cap = caps.grown b.capacity total c made in
          inr (c, rw (more, made) refl, cap.0, cap.1)
    ]
  ]

  make_space-HasRoom :
      (b : Buffer) (n : ℕ)
      → IsValid b
      → n < 2 ^ 63
      → Allocates reallocate b n (make_space allocate reallocate n b) (HasRoom n b)
  unfolding make_space writable_bytes prependable_bytes readable_bytes
  make_space-HasRoom b n v h =
      let word : add64 b.writer_index n ≡ b.writer_index + n =
        omega (arith, h, v.stored, v.held, v.bounded) in
      elim (Bool-cases (ltb (length b.storage - b.writer_index + b.reader_index - 8) n)) [
        | inr enough ↦ inr (_, rw (make_space, enough) refl, compacted-HasRoom b n v (ground arith))
        | inl short ↦ elim (capacity_for-cases b (b.writer_index + n) v) [
          | inl (none_left, failed) ↦ inl (rw (make_space, short, word, none_left) refl, failed)
          | inr (c, made, fits, small) ↦ inr (
            _,
            rw (make_space, short, word, made)
                (ap
                  (λ k. some (
                    update_retained_capacity
                      (record b { storage = resize k b.storage; capacity = c })))
                  word),
            resized-HasRoom b n c v (ground (arith, v.prepend, v.stored, short)) fits small,
          )
        ]
      ]

  pub ensure_writable_bytes-HasRoom :
      (b : Buffer) (n : ℕ)
      → IsValid b
      → n < 2 ^ 63
      → Allocates reallocate b n (ensure_writable_bytes allocate reallocate n b) (HasRoom n b)
  unfolding ensure_writable_bytes writable_bytes
  ensure_writable_bytes-HasRoom b n v h =
      elim (Bool-cases (ltb (length b.storage - b.writer_index) n)) [
        | inl short ↦ rw (ensure_writable_bytes, short) (make_space-HasRoom b n v h)
        | inr enough ↦ inr (
          b,
          rw (ensure_writable_bytes, enough) refl,
          record { valid = v; same = refl; room = ground (arith, v.stored, enough) },
        )
      ]

  -- Bytes written into the room behind the writer.
  pub written-IsValid :
      (b : Buffer) (bs : List ℕ)
      → IsValid b
      → b.writer_index + length bs ≤ length b.storage
      → let b' = record b {
        storage = copy_to b.storage b.writer_index bs;
        writer_index = b.writer_index + length bs;
      } in
        IsValid b' × (bytes b' ≡ bytes b ++ bs)
  written-IsValid b bs v h =
      let size = length-copy_to b.storage b.writer_index bs in
      (
        record {
          prepend = v.prepend;
          ordered = omega (arith, v.ordered);
          stored = omega (arith, size, h);
          held = omega (arith, size, v.held);
          bounded = v.bounded;
          retained = v.retained;
          threshold = v.threshold;
        },
        slice-copy_to b.storage bs b.reader_index (b.writer_index - b.reader_index) b.writer_index
            (b.writer_index + length bs - b.reader_index) (omega (arith, v.ordered))
            (omega (arith, v.ordered)) h,
      )

  -- An append puts all the bytes behind those held, or its allocation has failed and it throws.
  pub append_lem :
      (b : Buffer) (bs : List ℕ)
      → IsValid b
      → length bs < 2 ^ 63
      → Allocates reallocate b
          (length bs)
          (append allocate reallocate bs b)
          (λ b'. IsValid b' × (bytes b' ≡ bytes b ++ bs))
  unfolding append has_written writable_bytes
  append_lem b [] v h = inr (b, refl, (v, sym (append-nil (bytes b))))
  append_lem b (x ∷ bs) v h =
      let some_bytes : (length (x ∷ bs) == 0) ≡ false = ground arith in
      elim (ensure_writable_bytes-HasRoom b (length (x ∷ bs)) v h) [
        | inl (none_left, failed) ↦ inl (rw (append, some_bytes, none_left) refl, failed)
        | inr (b', made, r) ↦
            let (w, e) = written-IsValid b' (x ∷ bs) r.valid r.room in
            let size = length-copy_to b'.storage b'.writer_index (x ∷ bs) in
            let fits : ltb (length (copy_to b'.storage b'.writer_index (x ∷ bs)) - b'.writer_index)
                  (length (x ∷ bs))
                ≡ false =
              ground (arith, size, r.room) in
            inr (
              _,
              rw (append, some_bytes, made, fits) refl,
              (w, e ∙ ap (λ ys. ys ++ (x ∷ bs)) r.same),
            )
      ]
