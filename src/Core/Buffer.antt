-- ===== src/Core/Buffer.antt =====
-- `Buffer` of include/gamenet/core/net/Buffer.h and src/core/net/Buffer.cc. `storage` is `buffer_`,
-- bytes are numbers below 256 and pointers into the storage are indexes, or addresses above that of
-- its first byte. `allocate n` is the capacity of a new vector of n bytes, `reallocate c n` that of
-- a vector of capacity c after growing to n bytes; `none` is an exception of the allocation.
pub mod Slices
pub mod Valid
pub mod Room
pub mod Bytes
mod Tests
use game_net_core.Prelude.{
  ℕ, zero, suc, ◌+◌, ◌-◌, ◌^◌, Bool, true, false, not, ◌||◌, Option, none, some, List, [], ◌∷◌,
  ◌++◌, ltb, leb, ◌==◌, if◌then◌else◌, length, take, drop, replicate, min, max, add64,
}
use game_net_core.Protocol.Ring.{copy_to}

abbrev pub cheap_prepend : ℕ
cheap_prepend = 8

abbrev pub initial_size : ℕ
initial_size = 1024

pub record BufferRetentionOptions : Type 0 where
  pub max_retained_capacity_bytes : ℕ
  pub trim_threshold_bytes : ℕ

pub record BufferRetentionSnapshot : Type 0 where
  pub retained_capacity_bytes : ℕ
  pub peak_retained_capacity_bytes : ℕ
  pub trim_count : ℕ
  pub trim_armed : Bool

pub record Buffer : Type 0 where
  pub retention_options : BufferRetentionOptions
  pub storage : List ℕ
  pub capacity : ℕ
  pub reader_index : ℕ
  pub writer_index : ℕ
  pub peak_retained_capacity_bytes : ℕ
  pub trim_count : ℕ
  pub trim_armed : Bool

-- `BufferRetentionOptions::validate`, which throws where this is false.
unfoldable pub valid_retention : BufferRetentionOptions → Bool
valid_retention o = not (
    ltb o.max_retained_capacity_bytes (cheap_prepend + initial_size)
    || ltb (o.max_retained_capacity_bytes - cheap_prepend) o.trim_threshold_bytes)

unfoldable pub readable_bytes : Buffer → ℕ
readable_bytes b = b.writer_index - b.reader_index

unfoldable pub writable_bytes : Buffer → ℕ
writable_bytes b = length b.storage - b.writer_index

unfoldable pub prependable_bytes : Buffer → ℕ
prependable_bytes b = b.reader_index

unfoldable pub retention_state : Buffer → BufferRetentionSnapshot
retention_state b = record {
  retained_capacity_bytes = b.capacity;
  peak_retained_capacity_bytes = b.peak_retained_capacity_bytes;
  trim_count = b.trim_count;
  trim_armed = b.trim_armed;
}

-- `n` bytes from index `at`.
abbrev pub slice : List ℕ → ℕ → ℕ → List ℕ
slice s at n = take n (drop at s)

-- The readable bytes.
abbrev pub bytes : Buffer → List ℕ
bytes b = slice b.storage b.reader_index (b.writer_index - b.reader_index)

-- `std::vector::resize`.
abbrev pub resize : ℕ → List ℕ → List ℕ
resize n s = take n s ++ replicate (n - length s) 0

unfoldable pub update_retained_capacity : Buffer → Buffer
update_retained_capacity b = record b {
  peak_retained_capacity_bytes = max b.peak_retained_capacity_bytes b.capacity;
  trim_armed =
      if ltb b.retention_options.max_retained_capacity_bytes b.capacity then true else b.trim_armed;
}

abbrev pub new_buffer : BufferRetentionOptions → ℕ → Buffer
new_buffer o c = record {
  retention_options = o;
  storage = replicate (cheap_prepend + initial_size) 0;
  capacity = c;
  reader_index = cheap_prepend;
  writer_index = cheap_prepend;
  peak_retained_capacity_bytes = c;
  trim_count = 0;
  trim_armed = false;
}

-- Calls of a buffer: `append`, `retrieve`, `retrieveUntil` with an address, `retrieveAll`,
-- `retrieveAsString`, `retrieveAllAsString`, `ensureWritableBytes`, bytes that the client writes at
-- `beginWrite` with `hasWritten` of their number, `readFd` and `trimRetainedCapacity`. A call that
-- throws is caught by the client; each throws before it has changed the buffer, except for a read.
pub data Call : Type 0 where
  appends : List ℕ → Call
  retrieves : ℕ → Call
  retrieves_until : ℕ → ℕ → Call
  retrieves_all : Call
  takes : ℕ → Call
  takes_all : Call
  ensures : ℕ → Call
  writes : List ℕ → Call
  reads : ℕ → Option (List ℕ) → Call
  trims : Call

module _ (allocate : ℕ → Option ℕ) (reallocate : ℕ → ℕ → Option ℕ) where
  -- The constructor; `none` is an exception.
  unfoldable pub create : BufferRetentionOptions → Option Buffer
  unfolding valid_retention
  create o = elim (allocate (cheap_prepend + initial_size)) [
    | none ↦ none
    | some c ↦ if valid_retention o then some (new_buffer o c) else none
  ]

  -- `trimRetainedCapacity` once its test has passed.
  unfoldable pub trim_storage : Buffer → Bool × Buffer
  trim_storage b =
      let size = b.retention_options.max_retained_capacity_bytes in
      elim (allocate size) [
        | none ↦ (false, b)
        | some c ↦ (
          true,
          record b {
            storage = copy_to (replicate size 0) cheap_prepend (bytes b);
            capacity = c;
            reader_index = cheap_prepend;
            writer_index = cheap_prepend + (b.writer_index - b.reader_index);
            trim_count = add64 b.trim_count 1;
            trim_armed = ltb size c;
          },
        )
      ]

  unfoldable pub trim_capacity : Buffer → Bool × Buffer
  unfolding readable_bytes trim_storage
  trim_capacity b =
      if not b.trim_armed || ltb b.retention_options.trim_threshold_bytes (readable_bytes b)
      then (false, b)
      else trim_storage b

  unfoldable pub retrieve_all : Buffer → Buffer
  unfolding trim_capacity
  retrieve_all b =
      (trim_capacity (record b { reader_index = cheap_prepend; writer_index = cheap_prepend })).1

  unfoldable pub retrieve : ℕ → Buffer → Buffer
  unfolding readable_bytes trim_capacity retrieve_all
  retrieve n b =
      if ltb n (readable_bytes b)
      then (trim_capacity (record b { reader_index = b.reader_index + n })).1
      else retrieve_all b

  -- `base` is the address of the first byte of the storage; `none` is the exception.
  unfoldable pub retrieve_until : ℕ → ℕ → Buffer → Option Buffer
  unfolding readable_bytes retrieve
  retrieve_until base end_address b =
      let first = base + b.reader_index in
      if ltb end_address first || ltb (first + readable_bytes b) end_address
      then none
      else some (retrieve (end_address - first) b)

  unfoldable pub retrieve_as_string : ℕ → Buffer → List ℕ × Buffer
  unfolding readable_bytes retrieve
  retrieve_as_string n b =
      let m = min n (readable_bytes b) in (slice b.storage b.reader_index m, retrieve m b)

  unfoldable pub retrieve_all_as_string : Buffer → List ℕ × Buffer
  unfolding readable_bytes retrieve_as_string
  retrieve_all_as_string b = retrieve_as_string (readable_bytes b) b

  -- The capacity after `resize n`.
  abbrev pub capacity_for : Buffer → ℕ → Option ℕ
  capacity_for b n = if leb n b.capacity then some b.capacity else reallocate b.capacity n

  -- `makeSpace`; `none` is an exception of `resize`, which comes before any member is assigned.
  unfoldable pub make_space : ℕ → Buffer → Option Buffer
  unfolding writable_bytes prependable_bytes readable_bytes update_retained_capacity
  make_space n b =
      if ltb (writable_bytes b + prependable_bytes b - cheap_prepend) n
      then elim (capacity_for b (add64 b.writer_index n)) [
        | none ↦ none
        | some c ↦ some (
            update_retained_capacity
              (record b { storage = resize (add64 b.writer_index n) b.storage; capacity = c }))
      ]
      else some (record b {
        storage = copy_to b.storage cheap_prepend (bytes b);
        reader_index = cheap_prepend;
        writer_index = cheap_prepend + readable_bytes b;
      })

  unfoldable pub ensure_writable_bytes : ℕ → Buffer → Option Buffer
  unfolding writable_bytes make_space
  ensure_writable_bytes n b = if ltb (writable_bytes b) n then make_space n b else some b

  -- `none` is the exception.
  unfoldable pub has_written : ℕ → Buffer → Option Buffer
  unfolding writable_bytes
  has_written n b =
      if ltb (writable_bytes b) n
      then none
      else some (record b { writer_index = b.writer_index + n })

  abbrev pub write_through : List ℕ → Option Buffer → Option Buffer
  unfolding has_written
  write_through bs none = none
  write_through bs (some b) =
      has_written (length bs) (record b { storage = copy_to b.storage b.writer_index bs })

  -- `append`; the pointer is not null.
  unfoldable pub append : List ℕ → Buffer → Option Buffer
  unfolding ensure_writable_bytes has_written
  append bs b =
      if length bs == 0 then some b else write_through bs (ensure_writable_bytes (length bs) b)

  -- `readFd` where `readv` has read `bs`, at most what it was given room for. The test says that
  -- nothing was thrown; an exception comes after the storage has been filled.
  unfoldable pub read_bytes : ℕ → List ℕ → Buffer → Bool × Buffer
  unfolding append writable_bytes
  read_bytes max_read bs b =
      let writable = min (writable_bytes b) max_read in
      let filled = record b { storage = copy_to b.storage b.writer_index (take writable bs) } in
      let full = record filled { writer_index = length b.storage } in
      if leb (length bs) writable
      then (true, record filled { writer_index = b.writer_index + length bs })
      else elim (append (drop writable bs) full) [ none ↦ (false, full) | some b' ↦ (true, b') ]

  -- `readFd`; the option is the kernel's answer, in which `none` is an error.
  unfoldable pub read_fd : ℕ → Option (List ℕ) → Buffer → Bool × Buffer
  unfolding read_bytes
  read_fd max_read none b = (true, b)
  read_fd max_read (some bs) b = if max_read == 0 then (true, b) else read_bytes max_read bs b

  abbrev pub kept : Buffer → Option Buffer → Buffer
  kept b none = b
  kept b (some b') = b'

  unfoldable pub step : Buffer → Call → Buffer
  unfolding append retrieve retrieve_until retrieve_all retrieve_as_string retrieve_all_as_string
      ensure_writable_bytes has_written read_fd trim_capacity
  step b (appends bs) = kept b (append bs b)
  step b (retrieves n) = retrieve n b
  step b (retrieves_until base end_address) = kept b (retrieve_until base end_address b)
  step b retrieves_all = retrieve_all b
  step b takes_all = (retrieve_all_as_string b).1
  step b (ensures n) = kept b (ensure_writable_bytes n b)
  step b (writes bs) = kept b (write_through bs (some b))
  step b (takes n) = (retrieve_as_string n b).1
  step b (reads max_read answer) = (read_fd max_read answer b).1
  step b trims = (trim_capacity b).1

  unfoldable pub run : Buffer → List Call → Buffer
  unfolding step
  run b [] = b
  run b (c ∷ cs) = run (step b c) cs
