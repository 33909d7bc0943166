-- ===== src/Protocol/Framer/Push.antt =====
-- What `push` makes of a stream of bytes.
use game_net_core.Prelude.{
  ℕ, suc, ◌+◌, ◌≤◌, ◌≡◌, refl, sym, ap, subst, ◌∙◌, ◌⊎◌, inl, inr, Bool, true, false, List, [], ◌∷◌,
  ◌++◌, ltb, ◌==◌, if◌then◌else◌, length, drop, sub64, arith, Bool-cases, append-nil,
}
use game_net_core.Protocol.Framer.{
  PacketFramer, FrameStatus, FrameResult, contents, short, budget, too_large, decode, Decoded,
  finish, push, append_if_any, consume, clear_buffer, trim_retained_capacity, need_more_data,
  status_of, reset, frames_ready, budget_exhausted, frame_too_large, buffer_limit_exceeded, faulted,
}
use game_net_core.Protocol.Framer.Storage.{
  IsValid, append_bytes_lem, consume_lem, trim-IsValid, contents-trim, limits-trim, faulted-trim,
  ring_read-none,
}
use game_net_core.Protocol.Framer.Decode.{Decodes, decode-Decodes}
use game_net_core.Protocol.Framer.Wire.{wire, AreBytes, AreBytes-append}

abbrev pub is_budget : FrameStatus → Bool
is_budget budget_exhausted = true
is_budget _ = false

abbrev pub Progress : FrameStatus → Type 0
Progress need_more_data = Unit {0}
Progress frames_ready = Unit {0}
Progress budget_exhausted = Unit {0}
Progress _ = ⊥

abbrev pub Fault : FrameStatus → Type 0
Fault frame_too_large = Unit {0}
Fault buffer_limit_exceeded = Unit {0}
Fault _ = ⊥

short_status :
    (frames : List (List ℕ)) → (false ≡ is_budget (status_of frames)) × Progress (status_of frames)
short_status [] = (refl, tt)
short_status (x ∷ xs) = (refl, tt)

-- Either the framer has delivered whole frames off the front of the stream and keeps the rest, or
-- it has faulted, delivered nothing and dropped what it held.
abbrev pub Delivers : List ℕ → FrameResult → PacketFramer → Type 0
Delivers stream r g =
    (g.faulted ≡ false)
    × (stream ≡ wire r.frames ++ contents g)
    × (r.needs_continuation ≡ is_budget r.status)
    × Progress r.status

abbrev pub Refuses : FrameResult → PacketFramer → Type 0
Refuses r g = (g.faulted ≡ true) × (contents g ≡ []) × (r.frames ≡ []) × Fault r.status

-- The fault flag is no part of what makes the storage valid.
faulted-IsValid : (f : PacketFramer) {b : Bool} → IsValid f → IsValid (record f { faulted = b })
faulted-IsValid f v = record {
  limits_valid = v.limits_valid;
  stored = v.stored;
  storage_bounded = v.storage_bounded;
  head_in = v.head_in;
}

module _ (alloc : ℕ → ℕ) (can_trim : ℕ → Bool) where
  clear_buffer_lem :
      (f : PacketFramer)
      → IsValid f
      → let g = clear_buffer alloc can_trim f in
        IsValid g × (contents g ≡ []) × (g.limits ≡ f.limits) × (g.faulted ≡ f.faulted)
  unfolding clear_buffer
  clear_buffer_lem f v =
      let e = record f { head = 0; buffered_bytes = 0 } in
      let ev : IsValid e = record {
        limits_valid = v.limits_valid;
        stored = omega arith;
        storage_bounded = v.storage_bounded;
        head_in = inl refl;
      } in
      (
        trim-IsValid alloc can_trim e ev,
        contents-trim alloc can_trim e ev ∙ ring_read-none f.storage 0,
        limits-trim alloc can_trim e,
        faulted-trim alloc can_trim e,
      )

  -- What is left of the contents after the loop.
  unfoldable pub settle : PacketFramer → ℕ → PacketFramer
  settle f n =
      (trim_retained_capacity alloc can_trim (if n == 0 then f else consume alloc can_trim f n)).1

  pub settle_lem :
      (f : PacketFramer) (n : ℕ)
      → IsValid f
      → n ≤ f.buffered_bytes
      → let g = settle f n in
        IsValid g
        × (contents g ≡ drop n (contents f))
        × (g.limits ≡ f.limits)
        × (g.faulted ≡ f.faulted)
  unfolding settle
  settle_lem f n v h = elim (Bool-cases (n == 0)) [
    | inl e ↦
        rw (e, settle)
          (
            trim-IsValid alloc can_trim f v,
            contents-trim alloc can_trim f v
                ∙ ap (λ k. drop k (contents f)) {x = 0} {y = n} (ground arith),
            limits-trim alloc can_trim f,
            faulted-trim alloc can_trim f,
          )
    | inr e ↦
        let (cv, cc, cl, cf) = consume_lem alloc can_trim f n v h in
        let g = consume alloc can_trim f n in
        rw (e, settle)
          (
            trim-IsValid alloc can_trim g cv,
            contents-trim alloc can_trim g cv ∙ cc,
            limits-trim alloc can_trim g ∙ cl,
            faulted-trim alloc can_trim g ∙ cf,
          )
  ]

  pub finish_lem :
      (f : PacketFramer) (d : Decoded)
      → IsValid f
      → f.faulted ≡ false
      → Decodes f 0 0 0 d
      → let (r, g) = finish alloc can_trim f d in
        IsValid g × (g.limits ≡ f.limits) × (Delivers (contents f) r g ⊎ Refuses r g)
  unfolding finish settle
  finish_lem f (frames, n, too_large) v nf t =
      let (cv, cc, cl, _) = clear_buffer_lem f v in
      (faulted-IsValid _ cv, cl, inr (refl, cc, refl, tt))
  finish_lem f (frames, n, short) v nf t =
      let (sv, sc, sl, sf) = settle_lem f n v t.inside in
      (
        sv,
        sl,
        inl (
          sf ∙ nf,
          t.taken ∙ ap (◌++◌ (wire frames)) (sym sc),
          (short_status frames).0,
          (short_status frames).1,
        ),
      )
  finish_lem f (frames, n, budget) v nf t =
      let (sv, sc, sl, sf) = settle_lem f n v t.inside in
      (sv, sl, inl (sf ∙ nf, t.taken ∙ ap (◌++◌ (wire frames)) (sym sc), refl, tt))

  pub append_if_any_lem :
      (f : PacketFramer) (bytes : List ℕ)
      → IsValid f
      → f.buffered_bytes + length bytes ≤ f.limits.max_buffered_bytes
      → let g = append_if_any alloc can_trim f bytes in
        IsValid g
        × (contents g ≡ contents f ++ bytes)
        × (g.limits ≡ f.limits)
        × (g.faulted ≡ f.faulted)
  unfolding append_if_any
  append_if_any_lem f [] v h = (v, sym (append-nil (contents f)), refl, refl)
  append_if_any_lem f (x ∷ bytes) v h =
      let (gv, gc, _, gl, gf) = append_bytes_lem alloc can_trim f (x ∷ bytes) v (omega arith) h in
      let test : length (x ∷ bytes) == 0 ≡ false = ground arith in
      rw (test, append_if_any) (gv, gc, gl, gf)

  push_over :
      (f : PacketFramer) (bytes : List ℕ)
      → f.faulted ≡ false
      → ltb (sub64 f.limits.max_buffered_bytes f.buffered_bytes) (length bytes) ≡ true
      → push alloc can_trim f bytes ≡ (
        record { status = buffer_limit_exceeded; frames = []; needs_continuation = false },
        record (clear_buffer alloc can_trim f) { faulted = true },
      )
  unfolding push
  push_over f bytes nf e = simp (nf, e)

  pub push_fits :
      (f : PacketFramer) (bytes : List ℕ)
      → f.faulted ≡ false
      → ltb (sub64 f.limits.max_buffered_bytes f.buffered_bytes) (length bytes) ≡ false
      → let g = append_if_any alloc can_trim f bytes in
        push alloc can_trim f bytes
        ≡ finish alloc can_trim g (decode g (suc g.buffered_bytes) 0 0 0)
  unfolding push
  push_fits f bytes nf e = simp (nf, e)

  -- A push on a framer that has not faulted either delivers whole frames off the front of the
  -- buffered bytes and the new ones, keeps the others in order and asks for continuation exactly if
  -- its status is an exhausted budget, or it faults, delivers nothing and drops what it held. It
  -- never holds more than its limits allow.
  pub push_lem :
      (f : PacketFramer) (bytes : List ℕ)
      → IsValid f
      → f.faulted ≡ false
      → AreBytes (contents f)
      → AreBytes bytes
      → let (r, g) = push alloc can_trim f bytes in
        IsValid g × (g.limits ≡ f.limits) × (Delivers (contents f ++ bytes) r g ⊎ Refuses r g)
  push_lem f bytes v nf b b' =
      elim (Bool-cases (ltb (sub64 f.limits.max_buffered_bytes f.buffered_bytes) (length bytes))) [
        | inl e ↦
            let (cv, cc, cl, _) = clear_buffer_lem f v in
            rw (push_over f bytes nf e) (faulted-IsValid _ cv, cl, inr (refl, cc, refl, tt))
        | inr e ↦
            let g = append_if_any alloc can_trim f bytes in
            let (gv, gc, gl, gf) = append_if_any_lem f bytes v (ground arith) in
            let d = decode g (suc g.buffered_bytes) 0 0 0 in
            let (hv, hl, out) = finish_lem g d gv (gf ∙ nf) (
              decode-Decodes g (suc g.buffered_bytes) 0 0 0 gv
                (subst AreBytes (sym gc) (AreBytes-append (contents f) bytes b b')) (omega arith)
                (omega arith) (omega arith) (omega arith)) in
            rw (push_fits f bytes nf e) (
              hv,
              hl ∙ gl,
              subst
                  (λ xs.
                    Delivers xs (finish alloc can_trim g d).0 (finish alloc can_trim g d).1
                    ⊎ Refuses (finish alloc can_trim g d).0 (finish alloc can_trim g d).1)
                  gc out,
            )
      ]

  -- A framer that has faulted answers so, and changes nothing, until it is reset; a reset framer
  -- holds nothing and has not faulted.
  pub push-faulted :
      (f : PacketFramer) (bytes : List ℕ)
      → IsValid f
      → f.faulted ≡ true
      → (push alloc can_trim f bytes
          ≡ (record { status = faulted; frames = []; needs_continuation = false }, f))
        × ((reset alloc can_trim f).faulted ≡ false)
        × (contents (reset alloc can_trim f) ≡ [])
        × IsValid (reset alloc can_trim f)
  unfolding push reset
  push-faulted f bytes v e =
      let (cv, cc, _, _) = clear_buffer_lem f v in (rw e, refl, cc, faulted-IsValid _ cv)
