-- ===== src/Core/Buffer/Valid.antt =====
-- The buffer's indexes and sizes, and what trimming and making room leave of its bytes.
use game_net_core.Prelude.{
  ℕ, ◌+◌, ◌-◌, ◌^◌, ◌≤◌, ◌<◌, ◌≡◌, inl, inr, refl, sym, ◌∙◌, true, not, ◌||◌, Option, some, List,
  [], ltb, arith, length, drop, replicate, length-replicate, drop-all, Bool-cases, Option-cases,
}
use game_net_core.Protocol.Ring.{copy_to}
use game_net_core.Protocol.Ring.Laws.{length-copy_to}
use game_net_core.Core.Buffer.{
  Buffer, BufferRetentionOptions, bytes, slice, readable_bytes, create, new_buffer, valid_retention,
  trim_storage, trim_capacity, retrieve_all, retrieve,
}
use game_net_core.Core.Buffer.Slices.{slice-copy_to, length-slice, slice-advance}

-- A vector has room for what it was made for, and no more than half of the address space.
pub record AreCapacities (allocate : ℕ → Option ℕ) (reallocate : ℕ → ℕ → Option ℕ) : Type 0 where
  pub new : (n c : ℕ) → allocate n ≡ some c → (n ≤ c) × (c < 2 ^ 63)
  pub grown : (old n c : ℕ) → reallocate old n ≡ some c → (n ≤ c) × (c < 2 ^ 63)

pub record IsValid (b : Buffer) : Type 0 where
  pub prepend : 8 ≤ b.reader_index
  pub ordered : b.reader_index ≤ b.writer_index
  pub stored : b.writer_index ≤ length b.storage
  pub held : length b.storage ≤ b.capacity
  pub bounded : b.capacity < 2 ^ 63
  pub retained : 1032 ≤ b.retention_options.max_retained_capacity_bytes
  pub threshold :
      b.retention_options.trim_threshold_bytes + 8 ≤ b.retention_options.max_retained_capacity_bytes

pub length-bytes : (b : Buffer) → IsValid b → length (bytes b) ≡ b.writer_index - b.reader_index
length-bytes b v =
    length-slice b.storage b.reader_index (b.writer_index - b.reader_index)
      (omega (arith, v.ordered, v.stored))

-- The bytes copied to the front of a storage with room for them.
pub moved-bytes :
    (s bs : List ℕ) (n : ℕ)
    → n ≡ length bs
    → 8 + length bs ≤ length s
    → slice (copy_to s 8 bs) 8 n ≡ bs
moved-bytes s bs n e h = slice-copy_to s bs 8 0 8 n (omega arith) (omega (arith, e)) h

module _ (allocate : ℕ → Option ℕ) (reallocate : ℕ → ℕ → Option ℕ)
    (caps : AreCapacities allocate reallocate) where
  -- With options in order and an allocation that succeeds the constructor makes a valid, empty
  -- buffer.
  pub create-IsValid :
      (o : BufferRetentionOptions) (c : ℕ)
      → valid_retention o ≡ true
      → allocate 1032 ≡ some c
      → (b : Buffer) × (create allocate reallocate o ≡ some b) × IsValid b × (bytes b ≡ [])
  unfolding create valid_retention
  create-IsValid o c fine made =
      let cap = caps.new 1032 c made in
      (
        new_buffer o c,
        rw (create, made, fine) refl,
        record {
          prepend = omega arith;
          ordered = omega arith;
          stored = omega arith;
          held = omega (arith, cap);
          bounded = omega (arith, cap);
          retained = ground arith;
          threshold = ground arith;
        },
        refl,
      )

  trim_storage-IsValid :
      (b : Buffer)
      → IsValid b
      → b.writer_index - b.reader_index ≤ b.retention_options.trim_threshold_bytes
      → IsValid (trim_storage allocate reallocate b).1
        × (bytes (trim_storage allocate reallocate b).1 ≡ bytes b)
  unfolding trim_storage
  trim_storage-IsValid b v few =
      let size = b.retention_options.max_retained_capacity_bytes in
      let long = length-bytes b v in
      let zeros = length-replicate {A = ℕ} size 0 in
      let copied = length-copy_to (replicate size 0) 8 (bytes b) in
      elim (Option-cases (allocate size)) [
        | inl failed ↦ rw (trim_storage, failed) (v, refl)
        | inr (c, made) ↦
            let cap = caps.new size c made in
            rw (trim_storage, made)
              (
                record {
                  prepend = omega arith;
                  ordered = omega arith;
                  stored = omega (arith, copied, zeros, v.threshold);
                  held = omega (arith, copied, zeros, cap);
                  bounded = omega (arith, cap);
                  retained = v.retained;
                  threshold = v.threshold;
                },
                moved-bytes (replicate size 0) (bytes b) (8 + (b.writer_index - b.reader_index) - 8)
                    (omega (arith, long)) (omega (arith, long, zeros, v.threshold)),
              )
      ]

  pub trim_capacity-IsValid :
      (b : Buffer)
      → IsValid b
      → IsValid (trim_capacity allocate reallocate b).1
        × (bytes (trim_capacity allocate reallocate b).1 ≡ bytes b)
  unfolding trim_capacity readable_bytes
  trim_capacity-IsValid b v =
      elim (Bool-cases (
        not b.trim_armed
        || ltb b.retention_options.trim_threshold_bytes (b.writer_index - b.reader_index))) [
          | inl kept ↦ rw (trim_capacity, kept) (v, refl)
          | inr trims ↦ rw (trim_capacity, trims) (trim_storage-IsValid b v (ground arith))
        ]

  -- Moving the reader on keeps the bytes behind it.
  advanced-IsValid :
      (b : Buffer) (n : ℕ)
      → IsValid b
      → b.reader_index + n ≤ b.writer_index
      → IsValid (record b { reader_index = b.reader_index + n })
        × (bytes (record b { reader_index = b.reader_index + n }) ≡ drop n (bytes b))
  advanced-IsValid b n v h = (
    record {
      prepend = omega (arith, v.prepend);
      ordered = h;
      stored = v.stored;
      held = v.held;
      bounded = v.bounded;
      retained = v.retained;
      threshold = v.threshold;
    },
    slice-advance b.storage b.reader_index (b.writer_index - (b.reader_index + n)) n
        (b.reader_index + n) (b.writer_index - b.reader_index) refl (omega (arith, h)),
  )

  pub retrieve_all-IsValid :
      (b : Buffer)
      → IsValid b
      → IsValid (retrieve_all allocate reallocate b)
        × (bytes (retrieve_all allocate reallocate b) ≡ [])
  unfolding retrieve_all
  retrieve_all-IsValid b v =
      trim_capacity-IsValid (record b { reader_index = 8; writer_index = 8 })
        (record {
          prepend = omega arith;
          ordered = omega arith;
          stored = omega (arith, v.prepend, v.ordered, v.stored);
          held = v.held;
          bounded = v.bounded;
          retained = v.retained;
          threshold = v.threshold;
        })

  -- `retrieve` drops bytes from the front, all of them if asked for more.
  pub retrieve-IsValid :
      (b : Buffer) (n : ℕ)
      → IsValid b
      → IsValid (retrieve allocate reallocate n b)
        × (bytes (retrieve allocate reallocate n b) ≡ drop n (bytes b))
  unfolding retrieve readable_bytes
  retrieve-IsValid b n v = elim (Bool-cases (ltb n (b.writer_index - b.reader_index))) [
    | inl some_left ↦
        let (w, e) = advanced-IsValid b n v (ground arith) in
        let (w', e') = trim_capacity-IsValid (record b { reader_index = b.reader_index + n }) w in
        rw (retrieve, some_left) (w', e' ∙ e)
    | inr all_gone ↦
        let (w, e) = retrieve_all-IsValid b v in
        rw (retrieve, all_gone)
          (w, e ∙ sym (drop-all n (bytes b) (ground (arith, length-bytes b v))))
  ]
