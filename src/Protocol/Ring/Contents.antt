-- ===== src/Protocol/Ring/Contents.antt =====
-- The ring as the list of bytes that it holds.
use game_net_core.Prelude.{
  ℕ, ◌+◌, ◌-◌, ◌%◌, ◌^◌, ◌≤◌, ◌<◌, ◌≡◌, List, [], ◌++◌, length, take, drop, get_elem?, min, sub64,
  arith, length-append, length-take, length-drop, replicate, length-replicate,
}
use game_net_core.Protocol.Ring.{copy_to, ring_read, ring_write, ring_move}
use game_net_core.Protocol.Ring.Laws.{
  wrap, mod_wrap, list_ext, length-copy_to, length-ring_write, get_elem?-take, get_elem?-drop,
  get_elem?-append, get_elem?-beyond, get_elem?-copy_to, get_elem?-ring_read, get_elem?-ring_write,
}

pub length-ring_read :
    (s : List ℕ) (h n : ℕ)
    → length s < 2 ^ 64
    → h < length s
    → n ≤ length s
    → length (ring_read s h n) ≡ n
unfolding ring_read
length-ring_read s h n w hh hn = ground (
  arith,
  length-append (take (min n (sub64 (length s) h)) (drop h s))
      (take (n - min n (sub64 (length s) h)) s),
  length-append (take (min n (sub64 (length s) h)) (drop h s)) [],
  length-take (min n (sub64 (length s) h)) (drop h s),
  length-take (n - min n (sub64 (length s) h)) s,
  length-drop h s,
)

-- Bytes written behind the contents are the end of the new contents.
pub ring_read-write :
    (s : List ℕ) (h n : ℕ) (bs : List ℕ)
    → length s < 2 ^ 64
    → h < length s
    → n + length bs ≤ length s
    → ring_read (ring_write s ((h + n) % length s) bs) h (n + length bs) ≡ ring_read s h n ++ bs
unfolding wrap
ring_read-write s h n bs w hh hn = list_ext _ _ λ i. ground (
  arith,
  mod_wrap (length s) (h + n),
  get_elem?-ring_read (ring_write s ((h + n) % length s) bs) h (n + length bs) i,
  length-ring_write s ((h + n) % length s) bs,
  get_elem?-ring_write s ((h + n) % length s) bs (wrap (length s) (h + i)),
  get_elem?-append (ring_read s h n) bs i,
  get_elem?-beyond bs (i - n),
  length-ring_read s h n w hh,
  get_elem?-ring_read s h n i,
)

-- Reading further on is dropping from the contents.
pub ring_read-advance :
    (s : List ℕ) (h n k m : ℕ)
    → length s < 2 ^ 64
    → h < length s
    → n ≤ length s
    → k + m ≤ n
    → ring_read s ((h + k) % length s) m ≡ take m (drop k (ring_read s h n))
unfolding wrap
ring_read-advance s h n k m w hh hn hk = list_ext _ _ λ i. ground (
  arith,
  mod_wrap (length s) (h + k),
  get_elem?-ring_read s ((h + k) % length s) m i,
  get_elem?-take m (drop k (ring_read s h n)) i,
  get_elem?-drop k (ring_read s h n) i,
  get_elem?-ring_read s h n (k + i),
)

pub length-ring_move : (s : List ℕ) (h n size : ℕ) → length (ring_move s h n size) ≡ size
unfolding ring_move
length-ring_move s h n size = ground (
  arith,
  length-replicate {A = ℕ} size 0,
  length-copy_to (replicate size 0) 0 (take (min n (sub64 (length s) h)) (drop h s)),
  length-copy_to (copy_to (replicate size 0) 0 (take (min n (sub64 (length s) h)) (drop h s)))
      (min n (sub64 (length s) h)) (take (n - min n (sub64 (length s) h)) s),
)

get_elem?-ring_move :
    (s : List ℕ) (h n size i : ℕ)
    → length s < 2 ^ 64
    → h < length s
    → n ≤ length s
    → n ≤ size
    → i < n
    → get_elem? (ring_move s h n size) i ≡ get_elem? s (wrap (length s) (h + i))
unfolding ring_move wrap
get_elem?-ring_move s h n size i w hh hn hs hi = ground (
  arith,
  length-replicate {A = ℕ} size 0,
  length-copy_to (replicate size 0) 0 (take (min n (sub64 (length s) h)) (drop h s)),
  length-take (min n (sub64 (length s) h)) (drop h s),
  length-drop h s,
  length-take (n - min n (sub64 (length s) h)) s,
  get_elem?-copy_to (replicate size 0) 0 (take (min n (sub64 (length s) h)) (drop h s)) i,
  get_elem?-copy_to (copy_to (replicate size 0) 0 (take (min n (sub64 (length s) h)) (drop h s)))
      (min n (sub64 (length s) h)) (take (n - min n (sub64 (length s) h)) s) i,
  get_elem?-take (min n (sub64 (length s) h)) (drop h s) i,
  get_elem?-drop h s i,
  get_elem?-take (n - min n (sub64 (length s) h)) s (i - min n (sub64 (length s) h)),
)

-- Moved to the front of a large enough vector, the contents are the same.
pub ring_read-move :
    (s : List ℕ) (h n size : ℕ)
    → length s < 2 ^ 64
    → size < 2 ^ 64
    → h < length s
    → n ≤ length s
    → n ≤ size
    → 0 < size
    → ring_read (ring_move s h n size) 0 n ≡ ring_read s h n
unfolding wrap
ring_read-move s h n size w ws hh hn hs hp = list_ext _ _ λ i. ground (
  arith,
  length-ring_move s h n size,
  get_elem?-ring_read (ring_move s h n size) 0 n i,
  get_elem?-ring_move s h n size i,
  get_elem?-ring_read s h n i,
)
