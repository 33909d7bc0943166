-- ===== src/Protocol/Framer/Storage.antt =====
-- The ring storage of the framer: its invariant, and what each operation does to the contents.
use game_net_core.Prelude.{
  ℕ, zero, suc, ◌+◌, ◌-◌, ◌%◌, ◌^◌, ◌≤◌, ◌<◌, ◌≡◌, refl, sym, ap, ◌∙◌, ◌⊎◌, inl, inr, Bool, false,
  some, List, [], ◌++◌, ltb, ◌==◌, if◌then◌else◌, length, drop, min, add64, sub64, arith,
  length-drop, Bool-cases, take-all, drop-all,
}
use game_net_core.Protocol.Ring.{ring_read, ring_move}
use game_net_core.Protocol.Ring.Laws.{length-ring_write}
use game_net_core.Protocol.Ring.Contents.{
  length-ring_read, ring_read-write, ring_read-advance, length-ring_move, ring_read-move,
}
use game_net_core.Protocol.Framer.{
  PacketFramer, PacketFramerOptions, Limits, create, contents, grow_step, grow,
  update_retention_state, trim_retained_capacity, grow_storage, write_bytes, append_bytes, consume,
}

-- Limits as the constructor leaves them; a vector of bytes is shorter than 2^63.
pub record AreValid (l : Limits) : Type 0 where
  pub frame_buffered : 4 + l.max_payload_bytes ≤ l.max_buffered_bytes
  pub frames_positive : 0 < l.max_frames_per_push
  pub frame_budgeted : 4 + l.max_payload_bytes ≤ l.max_frame_bytes_per_push
  pub payload_word : l.max_payload_bytes < 2 ^ 32
  pub retained_buffered : l.max_retained_capacity_bytes ≤ l.max_buffered_bytes
  pub threshold_retained : l.trim_threshold_bytes ≤ l.max_retained_capacity_bytes
  pub buffered_word : l.max_buffered_bytes < 2 ^ 63
  pub budget_word : l.max_frame_bytes_per_push < 2 ^ 64

pub record IsValid (f : PacketFramer) : Type 0 where
  pub limits_valid : AreValid f.limits
  pub stored : f.buffered_bytes ≤ length f.storage
  pub storage_bounded : length f.storage ≤ f.limits.max_buffered_bytes
  pub head_in : (f.head ≡ 0) ⊎ (f.head < length f.storage)

-- A framer that the constructor accepts is valid, holds nothing and has not faulted; its limits are
-- machine words, and a vector is shorter than 2 ^ 63.
pub create-IsValid :
    (o : PacketFramerOptions) (f : PacketFramer)
    → o.max_buffered_bytes < 2 ^ 63
    → o.max_frame_bytes_per_push < 2 ^ 64
    → create o ≡ some f
    → IsValid f × (contents f ≡ []) × (f.faulted ≡ false) × (f.buffered_bytes ≡ 0)
unfolding create ring_read
create-IsValid o f wb wf e = ground arith

grow_step_bounds :
    (limit required grown : ℕ)
    → limit < 2 ^ 63
    → grown < required
    → required ≤ limit
    → (grown < grow_step limit required grown) × (grow_step limit required grown ≤ limit)
unfolding grow_step
grow_step_bounds limit required grown w h k = ground arith

-- With fuel for what is missing, growth reaches the required size, and it never passes the limit, if
-- the size and the start are within it; the limit is below 2 ^ 63.
pub grow_bounds :
    (fuel limit required grown : ℕ)
    → limit < 2 ^ 63
    → grown ≤ limit
    → required ≤ limit
    → required ≤ grown + fuel
    → (required ≤ grow fuel limit required grown) × (grow fuel limit required grown ≤ limit)
unfolding grow
grow_bounds zero limit required grown w h k m = omega arith
grow_bounds (suc fuel) limit required grown w h k m = ground (
  arith,
  grow_step_bounds limit required grown w,
  grow_bounds fuel limit required (grow_step limit required grown) w,
)

-- An empty read is empty, wherever it starts.
pub ring_read-none : (s : List ℕ) (h : ℕ) → ring_read s h 0 ≡ []
unfolding ring_read
ring_read-none s h = ground arith

pub length-contents : (f : PacketFramer) → IsValid f → length (contents f) ≡ f.buffered_bytes
length-contents f v = elim (Bool-cases (f.buffered_bytes == 0)) [
  | inl e ↦ ground (arith, ring_read-none f.storage f.head)
  | inr e ↦ length-ring_read f.storage f.head f.buffered_bytes (omega arith) (ground arith) v.stored
]

module _ (alloc : ℕ → ℕ) (can_trim : ℕ → Bool) where
  pub trim-IsValid :
      (f : PacketFramer) → IsValid f → IsValid (trim_retained_capacity alloc can_trim f).1
  unfolding trim_retained_capacity
  trim-IsValid f v = ground (
    arith,
    length-ring_move f.storage f.head f.buffered_bytes f.limits.max_retained_capacity_bytes,
  )

  pub contents-trim :
      (f : PacketFramer)
      → IsValid f
      → contents (trim_retained_capacity alloc can_trim f).1 ≡ contents f
  unfolding trim_retained_capacity
  contents-trim f v = ground (
    arith,
    ring_read-none
        (ring_move f.storage f.head f.buffered_bytes f.limits.max_retained_capacity_bytes) 0,
    ring_read-none f.storage f.head,
    ring_read-move f.storage f.head f.buffered_bytes f.limits.max_retained_capacity_bytes,
  )

  -- A larger vector takes over the contents, and has room for the bytes to come.
  grow_storage_lem :
      (f : PacketFramer) (required : ℕ)
      → IsValid f
      → length f.storage < required
      → required ≤ f.limits.max_buffered_bytes
      → let g = grow_storage alloc can_trim f required in
        IsValid g
        × (contents g ≡ contents f)
        × (required ≤ length g.storage)
        × (g.buffered_bytes ≡ f.buffered_bytes)
        × (g.limits ≡ f.limits)
        × (g.faulted ≡ f.faulted)
  unfolding grow_storage update_retention_state
  grow_storage_lem f required v h k =
      let limit = f.limits.max_buffered_bytes in
      let start = if length f.storage == 0 then min 64 limit else length f.storage in
      let grown = grow required limit required start in
      let bounds =
        grow_bounds required limit required start (omega arith) (ground arith) k (omega arith) in
      let size = length-ring_move f.storage f.head f.buffered_bytes grown in
      (
        record {
          limits_valid = v.limits_valid;
          stored = omega arith;
          storage_bounded = omega arith;
          head_in = inl refl;
        },
        ground (
          arith,
          ring_read-none (ring_move f.storage f.head f.buffered_bytes grown) 0,
          ring_read-none f.storage f.head,
          ring_read-move f.storage f.head f.buffered_bytes grown,
        ),
        omega arith,
        refl,
        refl,
        refl,
      )

  -- With room for them, the bytes go to the end of the contents.
  write_bytes_lem :
      (f : PacketFramer) (bs : List ℕ)
      → IsValid f
      → 0 < length bs
      → f.buffered_bytes + length bs ≤ length f.storage
      → let g = write_bytes alloc can_trim f bs in
        IsValid g
        × (contents g ≡ contents f ++ bs)
        × (g.buffered_bytes ≡ f.buffered_bytes + length bs)
        × (g.limits ≡ f.limits)
        × (g.faulted ≡ f.faulted)
  unfolding write_bytes
  write_bytes_lem f bs v p h =
      let t = (f.head + f.buffered_bytes) % length f.storage in
      let size = length-ring_write f.storage t bs in
      let tail : add64 f.head f.buffered_bytes % length f.storage ≡ t =
        ap (λ k. k % length f.storage) (omega arith) in
      let count : add64 f.buffered_bytes (length bs) ≡ f.buffered_bytes + length bs = omega arith in
      rw (tail, count)
        (
          record {
            limits_valid = v.limits_valid;
            stored = omega arith;
            storage_bounded = omega arith;
            head_in = omega arith;
          },
          ring_read-write f.storage f.head f.buffered_bytes bs (omega arith) (omega arith) h,
          refl,
          refl,
          refl,
        )

  pub append_bytes_lem :
      (f : PacketFramer) (bs : List ℕ)
      → IsValid f
      → 0 < length bs
      → f.buffered_bytes + length bs ≤ f.limits.max_buffered_bytes
      → let g = append_bytes alloc can_trim f bs in
        IsValid g
        × (contents g ≡ contents f ++ bs)
        × (g.buffered_bytes ≡ f.buffered_bytes + length bs)
        × (g.limits ≡ f.limits)
        × (g.faulted ≡ f.faulted)
  unfolding append_bytes
  append_bytes_lem f bs v p h =
      elim (Bool-cases (ltb (length f.storage) (add64 f.buffered_bytes (length bs)))) [
        | inr e ↦
            let (v', c', b', l', f') = write_bytes_lem f bs v p (ground arith) in
            rw e (v', c', b', l', f')
        | inl e ↦
            let g = grow_storage alloc can_trim f (add64 f.buffered_bytes (length bs)) in
            let (gv, gc, gl, gb, glim, gf) =
              grow_storage_lem f (add64 f.buffered_bytes (length bs)) v (ground arith)
                (omega arith) in
            let (v', c', b', l', f') = write_bytes_lem g bs gv p (omega arith) in
            rw e (v', c' ∙ ap (λ xs. xs ++ bs) gc, omega arith, l' ∙ glim, f' ∙ gf)
      ]

  pub limits-trim :
      (f : PacketFramer) → (trim_retained_capacity alloc can_trim f).1.limits ≡ f.limits
  unfolding trim_retained_capacity
  limits-trim f = ground arith

  pub faulted-trim :
      (f : PacketFramer) → (trim_retained_capacity alloc can_trim f).1.faulted ≡ f.faulted
  unfolding trim_retained_capacity
  faulted-trim f = ground arith

  abbrev advanced : PacketFramer → ℕ → PacketFramer
  advanced f n =
      let left = sub64 f.buffered_bytes n in
      record f {
        head = if left == 0 then 0 else add64 f.head n % length f.storage;
        buffered_bytes = left;
      }

  advanced_lem :
      (f : PacketFramer) (n : ℕ)
      → IsValid f
      → n ≤ f.buffered_bytes
      → IsValid (advanced f n) × (contents (advanced f n) ≡ drop n (contents f))
  advanced_lem f n v h = elim (Bool-cases (sub64 f.buffered_bytes n == 0)) [
    | inl e ↦ rw e (
      record {
        limits_valid = v.limits_valid;
        stored = omega arith;
        storage_bounded = v.storage_bounded;
        head_in = inl refl;
      },
      ap (ring_read f.storage 0) {x = sub64 f.buffered_bytes n} {y = 0} (ground arith)
          ∙ ring_read-none f.storage 0
          ∙ sym (drop-all n (contents f) (ground (arith, length-contents f v))),
    )
    | inr e ↦
        let left : sub64 f.buffered_bytes n ≡ f.buffered_bytes - n = omega arith in
        let some_left : n < f.buffered_bytes = ground arith in
        let moved : add64 f.head n % length f.storage ≡ (f.head + n) % length f.storage =
          ap (λ k. k % length f.storage) (omega arith) in
        rw (e, moved, left)
          (
            record {
              limits_valid = v.limits_valid;
              stored = omega arith;
              storage_bounded = v.storage_bounded;
              head_in = omega arith;
            },
            ring_read-advance f.storage f.head f.buffered_bytes n (f.buffered_bytes - n)
                  (omega arith) (omega arith) v.stored (omega arith)
                ∙ take-all (f.buffered_bytes - n) (drop n (contents f))
                    (omega (arith, length-contents f v, length-drop n (contents f))),
          )
  ]

  -- Consuming drops from the front of the contents.
  pub consume_lem :
      (f : PacketFramer) (n : ℕ)
      → IsValid f
      → n ≤ f.buffered_bytes
      → let g = consume alloc can_trim f n in
        IsValid g
        × (contents g ≡ drop n (contents f))
        × (g.limits ≡ f.limits)
        × (g.faulted ≡ f.faulted)
  unfolding consume
  consume_lem f n v h = (
    trim-IsValid (advanced f n) (advanced_lem f n v h).0,
    contents-trim (advanced f n) (advanced_lem f n v h).0 ∙ (advanced_lem f n v h).1,
    limits-trim (advanced f n),
    faulted-trim (advanced f n),
  )
