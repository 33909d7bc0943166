-- ===== src/Core/Buffer/Slices.antt =====
-- Slices of the storage under writes.
use game_net_core.Prelude.{
  ℕ, zero, suc, ◌+◌, ◌-◌, ◌≤◌, ◌≡◌, refl, ap, ◌∙◌, List, [], ◌∷◌, ◌++◌, arith, length, take, drop,
  replicate, take-all, length-take, length-drop, drop-nil,
}
use game_net_core.Protocol.Ring.{copy_to}
use game_net_core.Core.Buffer.{slice, resize}

pub length-slice : (s : List ℕ) (at n : ℕ) → at + n ≤ length s → length (slice s at n) ≡ n
length-slice s at n h = omega (arith, length-take n (drop at s), length-drop at s)

take-copy_to : (s bs : List ℕ) → length bs ≤ length s → take (length bs) (copy_to s 0 bs) ≡ bs
unfolding copy_to
take-copy_to [] [] h = refl
take-copy_to [] (b ∷ bs) h = absurd (omega (arith, h))
take-copy_to (x ∷ s) [] h = refl
take-copy_to (x ∷ s) (b ∷ bs) h = ap (◌∷◌ b) (take-copy_to s bs (omega (arith, h)))

take-nil : (n : ℕ) → take {A = ℕ} n [] ≡ []
take-nil zero = refl
take-nil (suc n) = refl

pub slice-nil : (at n : ℕ) → slice [] at n ≡ []
slice-nil at n = ap (take n) (drop-nil at) ∙ take-nil n

-- A write at the end `w` of a slice prolongs it.
pub slice-copy_to :
    (s bs : List ℕ) (at n w m : ℕ)
    → w ≡ at + n
    → m ≡ n + length bs
    → w + length bs ≤ length s
    → slice (copy_to s w bs) at m ≡ slice s at n ++ bs
unfolding copy_to
slice-copy_to [] [] at n w m e f h = ground (arith, slice-nil at n, slice-nil at m)
slice-copy_to [] (b ∷ bs) at n w m e f h = absurd (omega (arith, h))
slice-copy_to (x ∷ s) bs zero zero zero m e f h = ground (arith, take-copy_to (x ∷ s) bs, f)
slice-copy_to (x ∷ s) bs zero zero (suc w) m e f h = absurd (omega (arith, e))
slice-copy_to (x ∷ s) bs zero (suc n) zero m e f h = absurd (omega (arith, e))
slice-copy_to (x ∷ s) bs zero (suc n) (suc w) zero e f h = absurd (omega (arith, f))
slice-copy_to (x ∷ s) bs zero (suc n) (suc w) (suc m) e f h =
    ap (◌∷◌ x)
      (slice-copy_to s bs zero n w m (omega (arith, e)) (omega (arith, f)) (omega (arith, h)))
slice-copy_to (x ∷ s) bs (suc at) n zero m e f h = absurd (omega (arith, e))
slice-copy_to (x ∷ s) bs (suc at) n (suc w) m e f h =
    slice-copy_to s bs at n w m (omega (arith, e)) f (omega (arith, h))

pub slice-append :
    (s rest : List ℕ) (at n : ℕ) → at + n ≤ length s → slice (s ++ rest) at n ≡ slice s at n
slice-append s rest zero zero h = refl
slice-append [] rest zero (suc n) h = absurd (omega (arith, h))
slice-append (x ∷ s) rest zero (suc n) h = ground (arith, slice-append s rest zero n)
slice-append [] rest (suc at) n h = absurd (omega (arith, h))
slice-append (x ∷ s) rest (suc at) n h = ground (arith, slice-append s rest at n)

pub slice-resize :
    (s : List ℕ) (size at n : ℕ)
    → length s ≤ size
    → at + n ≤ length s
    → slice (resize size s) at n ≡ slice s at n
slice-resize s size at n big h =
    ap (λ t. slice (t ++ replicate (size - length s) 0) at n) (take-all size s big)
    ∙ slice-append s (replicate (size - length s) 0) at n h

-- Without its first `k` bytes, a slice.
pub slice-advance :
    (s : List ℕ) (at n k next m : ℕ)
    → next ≡ at + k
    → m ≡ k + n
    → slice s next n ≡ drop k (slice s at m)
slice-advance [] at n k next m e f =
    ground (arith, slice-nil next n, slice-nil at m, drop-nil {A = ℕ} k)
slice-advance (x ∷ s) zero n zero zero m e f = ground (arith, f)
slice-advance (x ∷ s) zero n zero (suc next) m e f = absurd (omega (arith, e))
slice-advance (x ∷ s) zero n (suc k) zero m e f = absurd (omega (arith, e))
slice-advance (x ∷ s) zero n (suc k) (suc next) zero e f = absurd (omega (arith, f))
slice-advance (x ∷ s) zero n (suc k) (suc next) (suc m) e f =
    slice-advance s zero n k next m (omega (arith, e)) (omega (arith, f))
slice-advance (x ∷ s) (suc at) n k zero m e f = absurd (omega (arith, e))
slice-advance (x ∷ s) (suc at) n k (suc next) m e f =
    slice-advance s at n k next m (omega (arith, e)) f

pub take-slice : (s : List ℕ) (at n m : ℕ) → m ≤ n → slice s at m ≡ take m (slice s at n)
take-slice s at n m h = take-take m n (drop at s) h
  where
    take-take : (m n : ℕ) (xs : List ℕ) → m ≤ n → take m xs ≡ take m (take n xs)
    take-take zero n xs h = refl
    take-take (suc m) zero xs h = absurd (omega (arith, h))
    take-take (suc m) (suc n) [] h = refl
    take-take (suc m) (suc n) (x ∷ xs) h = ap (◌∷◌ x) (take-take m n xs (omega (arith, h)))
