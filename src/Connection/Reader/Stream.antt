-- ===== src/Connection/Reader/Stream.antt =====
-- The messages that a reader yields are those of the stream, however the reads cut it.
use smb1client_rs.Base.{
  ℕ, ◌+◌, ◌≤◌, ◌≡◌, refl, sym, ◌∙◌, ap, Option, none, some, List, [], ◌∷◌, ◌++◌, length, ok,
}
use smb1client_rs.Wire.Binrw.{Binrw}
use smb1client_rs.Connection.Reader.{Inbound, FrameReader, new, step}
use mathlib.Core.List.{append_assoc, append-nil}
use mathlib.Core.Path.{subst}
use smb1client_rs.Connection.Reader.Part.{Framed, IsInHand, Drained, new-IsInHand, step-Drained}

-- The bytes of `s` are the frames of what was yielded, in order.
abbrev pub Streams : Binrw → List Inbound → List ℕ → Type 0
Streams binrw [] s = s ≡ []
Streams binrw (i ∷ is) s = (a b : List ℕ) × Framed binrw i a × Streams binrw is b × (s ≡ a ++ b)

abbrev yielded : Option Inbound → List Inbound
yielded none = []
yielded (some i) = i ∷ []

-- A reader from the start of a stream, with the bytes that it has read and what it has yielded.
pub data Reads (binrw : Binrw) : FrameReader → List ℕ → List Inbound → Type 0 where
  start : Reads binrw new [] []
  next :
      {r r' : FrameReader} {s : List ℕ} {out : List Inbound} {o : Option Inbound} (read : List ℕ)
      → Reads binrw r s out
      → r.filled + length read ≤ length r.buffer
      → step binrw r read ≡ (r', ok o)
      → Reads binrw r' (s ++ read) (out ++ yielded o)

Streams-append :
    (binrw : Binrw) (out : List Inbound) (i : Inbound) (s t : List ℕ)
    → Streams binrw out s
    → Framed binrw i t
    → Streams binrw (out ++ i ∷ []) (s ++ t)
Streams-append binrw [] i s t e f = (t, [], f, refl, ap (λ u. u ++ t) e ∙ sym (append-nil t))
Streams-append binrw (j ∷ out) i s t (a, b, g, rest, e) f =
    (a, b ++ t, g, Streams-append binrw out i b t rest f, ap (λ u. u ++ t) e ∙ append_assoc a b t)

-- However the reads cut the stream, what has been read is the frames of what was yielded, in their
-- order, and after them the part of a frame that the reader has in hand.
pub Reads-Streams :
    (binrw : Binrw) {r : FrameReader} {s : List ℕ} {out : List Inbound}
    → Reads binrw r s out
    → (whole part : List ℕ) × Streams binrw out whole × IsInHand r part × (s ≡ whole ++ part)
Reads-Streams binrw start = ([], [], refl, new-IsInHand, refl)
Reads-Streams binrw (next {r} {r'} {s} {out} {o = none} read before fits e) =
    let (whole, part, framed, hand, q) = Reads-Streams binrw before in
    let after = subst (Drained binrw (part ++ read)) e (step-Drained binrw r part read hand fits) in
    (
      whole,
      part ++ read,
      subst (λ o. Streams binrw o whole) (sym (append-nil out)) framed,
      after,
      ap (λ u. u ++ read) q ∙ append_assoc whole part read,
    )
Reads-Streams binrw (next {r} {r'} {s} {out} {o = some i} read before fits e) =
    let (whole, part, framed, hand, q) = Reads-Streams binrw before in
    let (frame, empty) =
      subst (Drained binrw (part ++ read)) e (step-Drained binrw r part read hand fits) in
    (
      whole ++ (part ++ read),
      [],
      Streams-append binrw out i whole (part ++ read) framed frame,
      empty,
      ap (λ u. u ++ read) q
          ∙ append_assoc whole part read
          ∙ sym (append-nil (whole ++ (part ++ read))),
    )
