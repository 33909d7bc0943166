-- ===== src/Protocol/Framer/Wire.antt =====
-- The wire format: a frame is its length in four bytes, the highest first, and its payload.
use game_net_core.Prelude.{
  ℕ, zero, suc, ◌+◌, ◌*◌, ◌%◌, ◌^◌, ◌≤◌, ◌<◌, ◌≡◌, refl, sym, ap, ap₂, subst, take-append-drop, ◌∙◌,
  inl, inr, some, List, [], ◌∷◌, ◌++◌, ◌==◌, length, take, drop, get_elem?, get_or, add64, arith,
  length-drop, length-take, Bool-cases, drop-drop, append_assoc,
}
use game_net_core.Protocol.Ring.{ring_read}
use game_net_core.Protocol.Ring.Laws.{wrap, mod_wrap, get_elem?-ring_read}
use game_net_core.Protocol.Ring.Contents.{ring_read-advance}
use game_net_core.Protocol.Framer.{
  PacketFramer, contents, byte_at, copy_payload, payload_bytes_at, append_length, round, take_frame,
}
use game_net_core.Protocol.Framer.Storage.{IsValid, length-contents}

abbrev pub frame : List ℕ → List ℕ
frame payload = append_length (length payload % 2 ^ 32) ++ payload

-- Frames one behind the other, as a peer sends them.
abbrev pub wire : List (List ℕ) → List ℕ
wire [] = []
wire (p ∷ ps) = frame p ++ wire ps

abbrev pub AreBytes : List ℕ → Type 0
AreBytes [] = Unit {0}
AreBytes (b ∷ bs) = (b < 256) × AreBytes bs

pub AreBytes-append : (xs ys : List ℕ) → AreBytes xs → AreBytes ys → AreBytes (xs ++ ys)
AreBytes-append [] ys h k = k
AreBytes-append (x ∷ xs) ys h k = (h.0, AreBytes-append xs ys h.1 k)

pub AreBytes-drop : (n : ℕ) (xs : List ℕ) → AreBytes xs → AreBytes (drop n xs)
AreBytes-drop zero xs h = h
AreBytes-drop (suc n) [] h = h
AreBytes-drop (suc n) (x ∷ xs) h = AreBytes-drop n xs h.1

get_elem?-get_or : (xs : List ℕ) (i : ℕ) → i < length xs → get_elem? xs i ≡ some (get_or xs i 0)
get_elem?-get_or [] i h = elim h [ ]
get_elem?-get_or (x ∷ xs) zero h = refl
get_elem?-get_or (x ∷ xs) (suc i) h = get_elem?-get_or xs i (omega arith)

-- `byteAt` reads the contents.
get_elem?-contents :
    (f : PacketFramer) (i : ℕ)
    → IsValid f
    → i < f.buffered_bytes
    → get_elem? (contents f) i ≡ some (byte_at f i)
unfolding byte_at wrap
get_elem?-contents f i v h = ground (
  arith,
  get_elem?-ring_read f.storage f.head f.buffered_bytes i,
  mod_wrap (length f.storage) (f.head + i),
  get_elem?-get_or f.storage (wrap (length f.storage) (f.head + i)),
)

drop-get : (xs : List ℕ) (i : ℕ) {b : ℕ} → get_elem? xs i ≡ some b → drop i xs ≡ b ∷ drop (suc i) xs
drop-get [] i e = absurd (cc)
drop-get (x ∷ xs) zero e = ap (λ y. y ∷ xs) (ground arith)
drop-get (x ∷ xs) (suc i) e = drop-get xs i e

drop-byte :
    (f : PacketFramer) (i j : ℕ)
    → IsValid f
    → i < f.buffered_bytes
    → j ≡ i + 1
    → drop i (contents f) ≡ byte_at f i ∷ drop j (contents f)
drop-byte f i j v h e =
    drop-get (contents f) i (get_elem?-contents f i v h)
    ∙ ap (λ k. byte_at f i ∷ drop k (contents f)) {x = suc i} {y = j} (omega arith)

-- The four bytes of a length field, and what follows it.
pub drop-header :
    (f : PacketFramer) (c : ℕ)
    → IsValid f
    → c + 4 ≤ f.buffered_bytes
    → drop c (contents f)
      ≡ byte_at f c
        ∷ byte_at f (c + 1)
        ∷ byte_at f (c + 2)
        ∷ byte_at f (c + 3)
        ∷ drop (c + 4) (contents f)
drop-header f c v h =
    drop-byte f c (c + 1) v (omega arith) refl
    ∙ ap (◌∷◌ (byte_at f c)) (
        drop-byte f (c + 1) (c + 2) v (omega arith) (omega arith)
        ∙ ap (◌∷◌ (byte_at f (c + 1))) (
            drop-byte f (c + 2) (c + 3) v (omega arith) (omega arith)
            ∙ ap (◌∷◌ (byte_at f (c + 2)))
                (drop-byte f (c + 3) (c + 4) v (omega arith) (omega arith))))

-- `copyPayload` copies from the contents.
pub copy_payload_lem :
    (f : PacketFramer) (c n : ℕ)
    → IsValid f
    → c + n ≤ f.buffered_bytes
    → copy_payload f c n ≡ take n (drop c (contents f))
unfolding copy_payload
copy_payload_lem f c n v h = elim (Bool-cases (n == 0)) [
  | inl e ↦ rw (e, ap (λ k. take k (drop c (contents f))) {x = n} {y = 0} (ground arith)) refl
  | inr e ↦ rw e (
      ap (λ k. ring_read f.storage (k % length f.storage) n) {x = add64 f.head c} {y = f.head + c}
        (omega arith)
      ∙ ring_read-advance f.storage f.head f.buffered_bytes c n (omega arith) (ground arith)
          v.stored h)
]

-- The length field that four bytes spell, spelled again.
append_length-bytes :
    (a b c d n : ℕ)
    → a < 256
    → b < 256
    → c < 256
    → d < 256
    → n ≡ a * 2 ^ 24 + b * 2 ^ 16 + c * 2 ^ 8 + d
    → append_length (n % 2 ^ 32) ≡ a ∷ b ∷ c ∷ d ∷ []
unfolding append_length
append_length-bytes a b c d n ha hb hc hd e = ground arith

-- What a round that takes a frame has checked.
pub round-take_frame :
    (f : PacketFramer) (c p k n : ℕ)
    → IsValid f
    → c ≤ f.buffered_bytes
    → p ≤ f.limits.max_frame_bytes_per_push
    → round f c p k ≡ take_frame n
    → (n ≡ payload_bytes_at f c)
      × (n ≤ f.limits.max_payload_bytes)
      × (c + (4 + n) ≤ f.buffered_bytes)
      × (k < f.limits.max_frames_per_push)
      × (p + (4 + n) ≤ f.limits.max_frame_bytes_per_push)
unfolding round
round-take_frame f c p k n v h hp e = ground arith

-- Such a frame is the next thing in the contents, spelled as on the wire.
pub round-frame :
    (f : PacketFramer) (c p k n : ℕ)
    → IsValid f
    → AreBytes (contents f)
    → c ≤ f.buffered_bytes
    → p ≤ f.limits.max_frame_bytes_per_push
    → round f c p k ≡ take_frame n
    → drop c (contents f) ≡ frame (copy_payload f (c + 4) n) ++ drop (c + (4 + n)) (contents f)
unfolding payload_bytes_at
round-frame f c p k n v bytes h hp e =
    let (spells, _, fits, _, _) = round-take_frame f c p k n v h hp e in
    let behind = drop (c + 4) (contents f) in
    let payload = copy_payload f (c + 4) n in
    let header = drop-header f c v (omega arith) in
    let copied = copy_payload_lem f (c + 4) n v (omega arith) in
    let size : length payload ≡ n = omega (
      arith,
      ap length copied,
      length-take n behind,
      length-drop (c + 4) (contents f),
      length-contents f v,
    ) in
    let four = subst AreBytes header (AreBytes-drop c (contents f) bytes) in
    let spelled =
      append_length-bytes (byte_at f c) (byte_at f (c + 1)) (byte_at f (c + 2)) (byte_at f (c + 3))
        (length payload) four.0 four.1.0 four.1.1.0 four.1.1.1.0 (size ∙ spells) in
    let split : payload ++ drop (c + (4 + n)) (contents f) ≡ behind =
      ap₂ ◌++◌ copied (
        ap (λ j. drop j (contents f)) {x = c + (4 + n)} {y = c + 4 + n} (omega arith)
        ∙ sym (drop-drop n (c + 4) (contents f)))
      ∙ take-append-drop n behind in
    header
    ∙ sym
        (append_assoc (append_length (length payload % 2 ^ 32)) payload _ ∙ ap₂ ◌++◌ spelled split)
