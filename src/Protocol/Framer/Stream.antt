-- ===== src/Protocol/Framer/Stream.antt =====
-- A stream of bytes cut into pushes.
use game_net_core.Prelude.{
  ℕ, ◌≡◌, refl, sym, ap, subst, ◌∙◌, inl, inr, Bool, true, false, List, [], ◌∷◌, ◌++◌, append_assoc,
  append-nil,
}
use game_net_core.Protocol.Framer.{PacketFramer, contents, push}
use game_net_core.Protocol.Framer.Storage.{IsValid}
use game_net_core.Protocol.Framer.Wire.{wire, frame, AreBytes, AreBytes-append}
use game_net_core.Protocol.Framer.Push.{push_lem, push-faulted}

abbrev pub flatten : List (List ℕ) → List ℕ
flatten [] = []
flatten (xs ∷ xss) = xs ++ flatten xss

abbrev pub AllBytes : List (List ℕ) → Type 0
AllBytes [] = Unit {0}
AllBytes (xs ∷ xss) = AreBytes xs × AllBytes xss

AreBytes-right : (xs ys : List ℕ) → AreBytes (xs ++ ys) → AreBytes ys
AreBytes-right [] ys h = h
AreBytes-right (x ∷ xs) ys h = AreBytes-right xs ys h.1

wire-append : (ps qs : List (List ℕ)) → wire (ps ++ qs) ≡ wire ps ++ wire qs
wire-append [] qs = refl
wire-append (p ∷ ps) qs =
    ap (◌++◌ (frame p)) (wire-append ps qs) ∙ sym (append_assoc (frame p) (wire ps) (wire qs))

module _ (alloc : ℕ → ℕ) (can_trim : ℕ → Bool) where
  -- The chunks pushed one after the other, and all the frames that come out.
  unfoldable pub feed : PacketFramer → List (List ℕ) → List (List ℕ) × PacketFramer
  feed f [] = ([], f)
  feed f (chunk ∷ chunks) =
      let (r, g) = push alloc can_trim f chunk in
      let (frames, h) = feed g chunks in (r.frames ++ frames, h)

  feed-faulted :
      (f : PacketFramer) (chunks : List (List ℕ))
      → IsValid f
      → f.faulted ≡ true
      → (feed f chunks).1.faulted ≡ true
  unfolding feed
  feed-faulted f [] v e = e
  feed-faulted f (chunk ∷ chunks) v e =
      rw (push-faulted alloc can_trim f chunk v e).0 (feed-faulted f chunks v e)

  -- However a stream is cut into pushes, as long as none of them faults: the frames that come out,
  -- spelled on the wire, followed by the bytes still held, are the bytes held before, followed by
  -- the stream.
  pub feed_lem :
      (f : PacketFramer) (chunks : List (List ℕ))
      → IsValid f
      → f.faulted ≡ false
      → AreBytes (contents f)
      → AllBytes chunks
      → (feed f chunks).1.faulted ≡ false
      → contents f ++ flatten chunks ≡ wire (feed f chunks).0 ++ contents (feed f chunks).1
  unfolding feed
  feed_lem f [] v nf b bs ok = append-nil (contents f)
  feed_lem f (chunk ∷ chunks) v nf b bs ok = elim (push_lem alloc can_trim f chunk v nf b bs.0).2 [
    | inr refused ↦ absurd (
        cc (
          ok,
          feed-faulted (push alloc can_trim f chunk).1 chunks
              (push_lem alloc can_trim f chunk v nf b bs.0).0 refused.0,
        ))
    | inl (nf', taken, _, _) ↦
        let (r, g) = push alloc can_trim f chunk in
        let gb =
          AreBytes-right (wire r.frames) (contents g)
            (subst AreBytes taken (AreBytes-append (contents f) chunk b bs.0)) in
        let ih = feed_lem g chunks (push_lem alloc can_trim f chunk v nf b bs.0).0 nf' gb bs.1 ok in
        sym (append_assoc (contents f) chunk (flatten chunks))
        ∙ ap (λ xs. xs ++ flatten chunks) taken
        ∙ append_assoc (wire r.frames) (contents g) (flatten chunks)
        ∙ ap (◌++◌ (wire r.frames)) ih
        ∙ sym (append_assoc (wire r.frames) (wire (feed g chunks).0) (contents (feed g chunks).1))
        ∙ ap (λ xs. xs ++ contents (feed g chunks).1) (sym (wire-append r.frames (feed g chunks).0))
  ]
