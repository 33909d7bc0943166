-- ===== src/Protocol/Framer/RoundTrip.antt =====
-- The round trip from `encode` to `push`.
use game_net_core.Prelude.{
  ℕ, zero, suc, ◌+◌, ◌*◌, ◌-◌, ◌%◌, ◌^◌, ◌≤◌, ◌<◌, ◌≡◌, refl, sym, ap, subst, ◌∙◌, Bool, false,
  some, List, [], ◌∷◌, ◌++◌, length, take, drop, arith, length-append, length-drop, drop-drop,
  take-append, drop-append, drop-all, append_assoc, append-nil,
}
use game_net_core.Protocol.Framer.{
  PacketFramer, contents, copy_payload, payload_bytes_at, append_length, round, stop, take_frame,
  short, decode, push, encode, status_of, append_if_any, finish,
}
use game_net_core.Protocol.Framer.Storage.{IsValid, length-contents}
use game_net_core.Protocol.Framer.Wire.{wire, frame, drop-header, copy_payload_lem}
use game_net_core.Protocol.Framer.Push.{append_if_any_lem, push_fits, settle, settle_lem}

length-frame : (q xs : List ℕ) → length (frame q ++ xs) ≡ 4 + length q + length xs
unfolding append_length
length-frame q xs = omega (arith, length-append q xs, length-append (frame q) xs)

-- Four bytes read back from a length field.
append_length-read :
    (n : ℕ) {a b c d : ℕ} {xs ys : List ℕ}
    → n < 2 ^ 32
    → append_length (n % 2 ^ 32) ++ xs ≡ a ∷ b ∷ c ∷ d ∷ ys
    → (a * 2 ^ 24 + b * 2 ^ 16 + c * 2 ^ 8 + d ≡ n) × (xs ≡ ys)
unfolding append_length
append_length-read n h e = ground arith

round-fits :
    (f : PacketFramer) (c p k n : ℕ)
    → payload_bytes_at f c ≡ n
    → n ≤ f.limits.max_payload_bytes
    → k < f.limits.max_frames_per_push
    → p + (4 + n) ≤ f.limits.max_frame_bytes_per_push
    → c + (4 + n) ≤ f.buffered_bytes
    → (f.buffered_bytes < 2 ^ 64) × (f.limits.max_frame_bytes_per_push < 2 ^ 64)
    → round f c p k ≡ take_frame n
unfolding round
round-fits f c p k n e small room paid fits w = ground arith

round-end :
    (f : PacketFramer) (p k : ℕ)
    → f.buffered_bytes < 2 ^ 64
    → round f f.buffered_bytes p k ≡ stop short
unfolding round
round-end f p k w = ground arith

-- A frame that heads the contents, within every limit, is the one that the loop takes.
round-wire :
    (f : PacketFramer) (c p k : ℕ) (payload rest : List ℕ)
    → IsValid f
    → drop c (contents f) ≡ frame payload ++ rest
    → length payload ≤ f.limits.max_payload_bytes
    → k < f.limits.max_frames_per_push
    → p + (4 + length payload) ≤ f.limits.max_frame_bytes_per_push
    → (round f c p k ≡ take_frame (length payload))
      × (copy_payload f (c + 4) (length payload) ≡ payload)
      × (drop (c + (4 + length payload)) (contents f) ≡ rest)
      × (c + (4 + length payload) ≤ f.buffered_bytes)
unfolding append_length payload_bytes_at
round-wire f c p k payload rest v e small room paid =
    let size : 4 + length payload + length rest ≡ f.buffered_bytes - c = omega (
      arith,
      ap length e,
      length-append payload rest,
      length-append (frame payload) rest,
      length-drop c (contents f),
      length-contents f v,
    ) in
    let (spelled, behind) = append_length-read (length payload) (omega arith) (
      sym (append_assoc (append_length (length payload % 2 ^ 32)) payload rest)
      ∙ sym e
      ∙ drop-header f c v (omega arith)) in
    (
      round-fits f c p k (length payload) spelled small room paid (omega arith) (omega arith),
      copy_payload_lem f (c + 4) (length payload) v (omega arith)
          ∙ ap (take (length payload)) (sym behind)
          ∙ take-append payload rest,
      ap (λ j. drop j (contents f)) {x = c + (4 + length payload)} {y = c + 4 + length payload}
            (omega arith)
          ∙ sym (drop-drop (length payload) (c + 4) (contents f))
          ∙ ap (drop (length payload)) (sym behind)
          ∙ drop-append payload rest,
      omega arith,
    )

abbrev pub AllFit : ℕ → List (List ℕ) → Type 0
AllFit n [] = Unit {0}
AllFit n (p ∷ ps) = (length p ≤ n) × AllFit n ps

-- Contents that are exactly the frames of some payloads, within the budgets, are all taken.
decode-wire :
    (f : PacketFramer) (fuel c p k : ℕ) (payloads : List (List ℕ))
    → IsValid f
    → c ≤ f.buffered_bytes
    → drop c (contents f) ≡ wire payloads
    → AllFit f.limits.max_payload_bytes payloads
    → k + length payloads ≤ f.limits.max_frames_per_push
    → p + length (wire payloads) ≤ f.limits.max_frame_bytes_per_push
    → f.buffered_bytes < c + fuel
    → decode f fuel c p k ≡ (payloads, f.buffered_bytes, short)
unfolding decode
decode-wire f zero c p k ps v hc e fit room paid enough = absurd (omega arith)
decode-wire f (suc fuel) c p k [] v hc e fit room paid enough =
    let at_end : c ≡ f.buffered_bytes =
      omega (arith, ap length e, length-drop c (contents f), length-contents f v) in
    let ends =
      subst (λ j. round f j p k ≡ stop short) (sym at_end) (round-end f p k (omega arith)) in
    rw (ends, decode) (ap (λ j. ([], j, short)) at_end)
decode-wire f (suc fuel) c p k (q ∷ ps) v hc e fit room paid enough =
    let size : length (wire (q ∷ ps)) ≡ 4 + length q + length (wire ps) =
      length-frame q (wire ps) in
    let (takes, copied, rest, fits) =
      round-wire f c p k q (wire ps) v e fit.0 (omega arith) (omega arith) in
    rw (takes, decode)
      (rw
        (
          copied,
          decode-wire f fuel (c + (4 + length q)) (p + (4 + length q)) (k + 1) ps v fits rest fit.1
              (omega arith) (omega arith) (omega arith),
        )
        refl)

encode_lem :
    (f : PacketFramer) (payload bytes : List ℕ)
    → encode f payload ≡ some bytes
    → (length payload ≤ f.limits.max_payload_bytes) × (bytes ≡ frame payload)
unfolding encode
encode_lem f payload bytes e = ground arith

module _ (alloc : ℕ → ℕ) (can_trim : ℕ → Bool) where
  finish_short :
      (g : PacketFramer) (payloads : List (List ℕ))
      → IsValid g
      → let (r, h) = finish alloc can_trim g (payloads, g.buffered_bytes, short) in
        (r.frames ≡ payloads)
        × (r.status ≡ status_of payloads)
        × (contents h ≡ [])
        × (h.faulted ≡ g.faulted)
  unfolding finish settle
  finish_short g payloads v =
      let (_, emptied, _, flag) = settle_lem alloc can_trim g g.buffered_bytes v (omega arith) in
      (
        refl,
        refl,
        emptied ∙ drop-all g.buffered_bytes (contents g) (omega (arith, length-contents g v)),
        flag,
      )

  -- A push of exactly the frames of some payloads, on a framer that holds nothing and within its
  -- budgets, gives those payloads in their order and leaves nothing behind.
  pub push-wire :
      (f : PacketFramer) (payloads : List (List ℕ))
      → IsValid f
      → f.faulted ≡ false
      → contents f ≡ []
      → AllFit f.limits.max_payload_bytes payloads
      → length payloads ≤ f.limits.max_frames_per_push
      → length (wire payloads) ≤ f.limits.max_frame_bytes_per_push
      → length (wire payloads) ≤ f.limits.max_buffered_bytes
      → let (r, g) = push alloc can_trim f (wire payloads) in
        (r.frames ≡ payloads)
        × (r.status ≡ status_of payloads)
        × (contents g ≡ [])
        × (g.faulted ≡ false)
  push-wire f payloads v nf hold fit room paid space =
      let empty : f.buffered_bytes ≡ 0 = sym (length-contents f v) ∙ ap length hold in
      let g = append_if_any alloc can_trim f (wire payloads) in
      let (gv, gc, gl, gf) = append_if_any_lem alloc can_trim f (wire payloads) v (omega arith) in
      let taken =
        decode-wire g (suc g.buffered_bytes) 0 0 0 payloads gv (omega arith)
          (gc ∙ ap (λ xs. xs ++ wire payloads) hold) (rw gl fit) (rw gl (omega arith))
          (rw gl (omega arith)) (omega arith) in
      let (a, b, c, d) = finish_short g payloads gv in
      rw (push_fits alloc can_trim f (wire payloads) nf (ground arith), taken)
        (a, b, c, d ∙ gf ∙ nf)

  -- What `encode` makes of a payload, a push gives back: on any framer that holds nothing and
  -- allows payloads as large as the sender's framer does.
  pub push-encode :
      (sender f : PacketFramer) (payload bytes : List ℕ)
      → IsValid f
      → f.faulted ≡ false
      → contents f ≡ []
      → sender.limits.max_payload_bytes ≤ f.limits.max_payload_bytes
      → encode sender payload ≡ some bytes
      → ((push alloc can_trim f bytes).0.frames ≡ payload ∷ [])
        × (contents (push alloc can_trim f bytes).1 ≡ [])
  push-encode sender f payload bytes v nf hold le sent =
      let (small, spelled) = encode_lem sender payload bytes sent in
      let size = length-frame payload [] in
      let (a, _, c, _) =
        push-wire f (payload ∷ []) v nf hold (omega arith, tt) (omega arith) (omega arith)
          (omega arith) in
      rw (spelled, ← append-nil (frame payload)) (a, c)
