-- ===== src/Protocol/Ring.antt =====
-- The copies in and out of a ring of bytes that PacketFramer.cc makes with `memcpy`, in two parts
-- where they pass the end of the storage.
pub mod Laws
pub mod Contents
use game_net_core.Prelude.{
  ℕ, zero, suc, ◌+◌, ◌-◌, ◌%◌, List, [], ◌∷◌, ◌++◌, ◌==◌, if◌then◌else◌, length, take, drop, get_or,
  min, sub64, replicate,
}

-- `memcpy(dst + at, src, src.size())`; bytes past the end of `dst` are not written.
unfoldable pub copy_to : List ℕ → ℕ → List ℕ → List ℕ
copy_to [] at src = []
copy_to (d ∷ dst) zero [] = d ∷ dst
copy_to (d ∷ dst) zero (b ∷ src) = b ∷ copy_to dst zero src
copy_to (d ∷ dst) (suc at) src = d ∷ copy_to dst at src

-- The `n` bytes from index `begin`, going round at the end.
unfoldable pub ring_read : List ℕ → ℕ → ℕ → List ℕ
ring_read storage begin n =
    let first = min n (sub64 (length storage) begin) in
    take first (drop begin storage) ++ (if first == n then [] else take (n - first) storage)

-- The bytes to index `tail` and on, going round at the end.
unfoldable pub ring_write : List ℕ → ℕ → List ℕ → List ℕ
unfolding copy_to
ring_write storage tail bytes =
    let first = min (length bytes) (sub64 (length storage) tail) in
    let written = copy_to storage tail (take first bytes) in
    if first == length bytes then written else copy_to written 0 (drop first bytes)

-- The ring straightened out at the front of a new vector of `size` zero bytes.
unfoldable pub ring_move : List ℕ → ℕ → ℕ → ℕ → List ℕ
unfolding copy_to
ring_move storage head n size =
    let fresh = replicate size 0 in
    let first = min n (sub64 (length storage) head) in
    let copied = copy_to fresh 0 (take first (drop head storage)) in
    if n == 0
    then fresh
    else if first == n
    then copied
    else copy_to copied first (take (n - first) storage)
