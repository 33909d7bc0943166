-- ===== src/Protocol/Framer/Decode.antt =====
-- The loop of `push`: whole frames off the front of the contents.
use game_net_core.Prelude.{
  ℕ, zero, suc, ◌+◌, ◌-◌, ◌≤◌, ◌<◌, ◌≡◌, refl, sym, ap, ap₂, ◌∙◌, ◌⊎◌, inl, inr, ◌++◌, length, drop,
  arith, append_assoc,
}
use game_net_core.Protocol.Framer.{
  PacketFramer, contents, copy_payload, round, Round, stop, take_frame, LoopEnd, decode, Decoded,
}
use game_net_core.Protocol.Framer.Storage.{IsValid}
use game_net_core.Protocol.Framer.Wire.{wire, frame, AreBytes, round-take_frame, round-frame}

pub Round-cases : (r : Round) → ((e : LoopEnd) × (r ≡ stop e)) ⊎ ((n : ℕ) × (r ≡ take_frame n))
Round-cases (stop e) = inl (e, refl)
Round-cases (take_frame n) = inr (n, refl)

round_cong :
    (f : PacketFramer) (c : ℕ) {p q k j : ℕ} → p ≡ q → k ≡ j → round f c p k ≡ round f c q j
round_cong f c e h = ap₂ (round f c) e h

-- The loop takes whole frames off the front of the contents until its own tests end it.
pub record Decodes (f : PacketFramer) (c p k : ℕ) (d : Decoded) : Type 0 where
  pub onward : c ≤ d.1
  pub inside : d.1 ≤ f.buffered_bytes
  pub taken : drop c (contents f) ≡ wire d.0 ++ drop d.1 (contents f)
  pub counted : k + length d.0 ≤ f.limits.max_frames_per_push
  pub spent : p + (d.1 - c) ≤ f.limits.max_frame_bytes_per_push
  pub ended : round f d.1 (p + (d.1 - c)) (k + length d.0) ≡ stop d.2

pub decode-Decodes :
    (f : PacketFramer) (fuel c p k : ℕ)
    → IsValid f
    → AreBytes (contents f)
    → c ≤ f.buffered_bytes
    → p ≤ f.limits.max_frame_bytes_per_push
    → k ≤ f.limits.max_frames_per_push
    → f.buffered_bytes < c + fuel
    → Decodes f c p k (decode f fuel c p k)
unfolding decode
decode-Decodes f zero c p k v b hc hp hk hf = absurd (omega arith)
decode-Decodes f (suc fuel) c p k v b hc hp hk hf = elim (Round-cases (round f c p k)) [
  | inl (e, stops) ↦
      rw (stops, decode)
        (record {
          onward = omega arith;
          inside = hc;
          taken = refl;
          counted = omega arith;
          spent = omega arith;
          ended = round_cong f c (omega arith) (omega arith) ∙ stops;
        })
  | inr (n, takes) ↦
      let (_, _, fits, room, paid) = round-take_frame f c p k n v hc hp takes in
      let ih =
        decode-Decodes f fuel (c + (4 + n)) (p + (4 + n)) (k + 1) v b (omega arith) (omega arith)
          (omega arith) (omega arith) in
      let d = decode f fuel (c + (4 + n)) (p + (4 + n)) (k + 1) in
      rw (takes, decode)
        (record {
          onward = omega (arith, ih.onward);
          inside = ih.inside;
          taken =
              round-frame f c p k n v b hc hp takes
              ∙ ap (◌++◌ (frame (copy_payload f (c + 4) n))) ih.taken
              ∙ sym (
                  append_assoc (frame (copy_payload f (c + 4) n)) (wire d.0)
                    (drop d.1 (contents f)));
          counted = omega (arith, ih.counted);
          spent = omega (arith, ih.spent, ih.onward);
          ended = round_cong f d.1 (omega (arith, ih.onward)) (omega arith) ∙ ih.ended;
        })
]
