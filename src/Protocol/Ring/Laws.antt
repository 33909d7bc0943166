-- ===== src/Protocol/Ring/Laws.antt =====
-- What the ring holds, index by index, and after a write or a move of its ends.
use native.Mathlib.Nat.{mod-eq_of_lt, mod-eq-sub-mod}
use game_net_core.Prelude.{
  ℕ, zero, suc, ◌+◌, ◌-◌, ◌%◌, ◌^◌, ◌≤◌, ◌<◌, ◌≡◌, refl, ap, ◌∙◌, List, [], ◌∷◌, ◌++◌, none, ltb,
  ltb→lt, Bool-cases, inl, inr, ◌==◌, if◌then◌else◌, length, take, drop, get_elem?, min, sub64,
  arith, length-take, length-drop,
}
use game_net_core.Protocol.Ring.{copy_to, ring_read, ring_write}

pub get_elem?-take :
    (n : ℕ) (xs : List ℕ) (i : ℕ)
    → get_elem? (take n xs) i ≡ (if ltb i n then get_elem? xs i else none)
get_elem?-take zero xs i = ground arith
get_elem?-take (suc n) [] i = ground arith
get_elem?-take (suc n) (x ∷ xs) zero = ground arith
get_elem?-take (suc n) (x ∷ xs) (suc i) = ground (arith, get_elem?-take n xs i)

pub get_elem?-drop : (n : ℕ) (xs : List ℕ) (i : ℕ) → get_elem? (drop n xs) i ≡ get_elem? xs (n + i)
get_elem?-drop zero xs i = ap (get_elem? xs) (omega arith)
get_elem?-drop (suc n) [] i = refl
get_elem?-drop (suc n) (x ∷ xs) i =
    get_elem?-drop n xs i ∙ ap (get_elem? (x ∷ xs)) {x = suc (n + i)} {y = suc n + i} (omega arith)

pub get_elem?-append :
    (xs ys : List ℕ) (i : ℕ)
    → get_elem? (xs ++ ys) i
      ≡ (if ltb i (length xs) then get_elem? xs i else get_elem? ys (i - length xs))
get_elem?-append [] ys i = ground arith
get_elem?-append (x ∷ xs) ys zero = ground arith
get_elem?-append (x ∷ xs) ys (suc i) = ground (arith, get_elem?-append xs ys i)

pub get_elem?-beyond : (xs : List ℕ) (i : ℕ) → length xs ≤ i → get_elem? xs i ≡ none
get_elem?-beyond [] i h = refl
get_elem?-beyond (x ∷ xs) zero h = absurd (omega arith)
get_elem?-beyond (x ∷ xs) (suc i) h = get_elem?-beyond xs i (omega arith)

pub length-copy_to :
    (dst : List ℕ) (at : ℕ) (src : List ℕ) → length (copy_to dst at src) ≡ length dst
unfolding copy_to
length-copy_to [] at src = refl
length-copy_to (d ∷ dst) zero [] = refl
length-copy_to (d ∷ dst) zero (b ∷ src) = ap suc (length-copy_to dst zero src)
length-copy_to (d ∷ dst) (suc at) src = ap suc (length-copy_to dst at src)

pub get_elem?-copy_to :
    (dst : List ℕ) (at : ℕ) (src : List ℕ) (i : ℕ)
    → at + length src ≤ length dst
    → get_elem? (copy_to dst at src) i ≡ (
        if ltb i at
        then get_elem? dst i
        else if ltb i (at + length src)
        then get_elem? src (i - at)
        else get_elem? dst i)
unfolding copy_to
get_elem?-copy_to [] at src i h = ground arith
get_elem?-copy_to (d ∷ dst) zero [] i h = ground arith
get_elem?-copy_to (d ∷ dst) zero (b ∷ src) zero h = ground arith
get_elem?-copy_to (d ∷ dst) zero (b ∷ src) (suc i) h =
    ground (arith, get_elem?-copy_to dst zero src i (omega arith))
get_elem?-copy_to (d ∷ dst) (suc at) src zero h = ground arith
get_elem?-copy_to (d ∷ dst) (suc at) src (suc i) h =
    ground (arith, get_elem?-copy_to dst at src i (omega arith))

-- Two lists with the same element, or none, at each index are equal.
pub list_ext : (xs ys : List ℕ) → ((i : ℕ) → get_elem? xs i ≡ get_elem? ys i) → xs ≡ ys
list_ext [] [] h = refl
list_ext [] (y ∷ ys) h = absurd (cc (h 0))
list_ext (x ∷ xs) [] h = absurd (cc (h 0))
list_ext (x ∷ xs) (y ∷ ys) h = ground (arith, h 0, list_ext xs ys (λ i. h (suc i)))

-- An index past the end comes round once.
unfoldable pub wrap : ℕ → ℕ → ℕ
wrap size a = if ltb a size then a else a - size

pub mod_wrap : (size a : ℕ) → a < size + size → 0 < size → a % size ≡ wrap size a
unfolding wrap
mod_wrap size a h p = elim (Bool-cases (ltb a size)) [
  | inl e ↦ rw e (mod-eq_of_lt (ltb→lt a size e))
  | inr e ↦ rw e (
      mod-eq-sub-mod {n = a} {m = size} (ground arith)
      ∙ mod-eq_of_lt {n = a - size} {m = size} (ground arith))
]

pub length-ring_write : (s : List ℕ) (t : ℕ) (bs : List ℕ) → length (ring_write s t bs) ≡ length s
unfolding ring_write
length-ring_write s t bs = elim (Bool-cases (first == length bs)) [
  | inl e ↦ rw e (length-copy_to s t (take first bs))
  | inr e ↦ rw e (
      length-copy_to (copy_to s t (take first bs)) 0 (drop first bs)
      ∙ length-copy_to s t (take first bs))
]
  where
    first : ℕ
    first = min (length bs) (sub64 (length s) t)

pub get_elem?-ring_read :
    (s : List ℕ) (h n i : ℕ)
    → length s < 2 ^ 64
    → h < length s
    → n ≤ length s
    → get_elem? (ring_read s h n) i
      ≡ (if ltb i n then get_elem? s (wrap (length s) (h + i)) else none)
unfolding ring_read wrap
get_elem?-ring_read s h n i w hh hn = ground (
  arith,
  get_elem?-append (take (min n (sub64 (length s) h)) (drop h s))
      (take (n - min n (sub64 (length s) h)) s) i,
  get_elem?-append (take (min n (sub64 (length s) h)) (drop h s)) [] i,
  length-take (min n (sub64 (length s) h)) (drop h s),
  length-drop h s,
  get_elem?-take (min n (sub64 (length s) h)) (drop h s) i,
  get_elem?-drop h s i,
  get_elem?-take (n - min n (sub64 (length s) h)) s (i - min n (sub64 (length s) h)),
)

pub get_elem?-ring_write :
    (s : List ℕ) (t : ℕ) (bs : List ℕ) (i : ℕ)
    → length s < 2 ^ 64
    → t < length s
    → length bs ≤ length s
    → i < length s
    → get_elem? (ring_write s t bs) i ≡ (
        let k = if ltb i t then i + length s - t else i - t in
        if ltb k (length bs) then get_elem? bs k else get_elem? s i)
unfolding ring_write
get_elem?-ring_write s t bs i w ht hb hi = ground (
  arith,
  get_elem?-copy_to (copy_to s t (take (min (length bs) (sub64 (length s) t)) bs)) 0
      (drop (min (length bs) (sub64 (length s) t)) bs) i,
  get_elem?-copy_to s t (take (min (length bs) (sub64 (length s) t)) bs) i,
  length-copy_to s t (take (min (length bs) (sub64 (length s) t)) bs),
  length-take (min (length bs) (sub64 (length s) t)) bs,
  length-drop (min (length bs) (sub64 (length s) t)) bs,
  get_elem?-take (min (length bs) (sub64 (length s) t)) bs (i - t),
  get_elem?-drop (min (length bs) (sub64 (length s) t)) bs i,
)
