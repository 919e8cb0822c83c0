-- ===== src/Connection/Reader/Part.antt =====
-- What a reader has in hand of a frame, and that a step keeps it or yields the frame.
use smb1client_rs.Base.{
  ℕ, zero, suc, ◌+◌, ◌≤◌, ◌<◌, ◌≡◌, refl, sym, ◌∙◌, ap, true, ltb, none, some, List, [], ◌∷◌, ◌++◌,
  length, take, replicate, is_empty, Result, ok, err, arith, Bool-cases, inl, inr, length-replicate,
}
use smb1client_rs.Wire.Binrw.{Binrw}
use smb1client_rs.Wire.Message.{Message, parse}
use smb1client_rs.Wire.Netbios.{HeaderBytes, MessageType, session_message, decode_header}
use smb1client_rs.Wire.Error.{WireError}
use smb1client_rs.Connection.Track.{copy_at}
use smb1client_rs.Connection.Track.Buffer.{length-copy_at, take_all, take-copy_at}
use smb1client_rs.Connection.Table.{failed, panicked, out_of_fuel}
use smb1client_rs.Connection.Reader
use smb1client_rs.Connection.Reader.{
  Inbound, message, Reading, header, body, FrameReader, new, expect_header, Taken, take_header,
  take_body, take_in, and_drain, drain, step,
}
use mathlib.Core.List.{append_assoc, append-nil}

abbrev pub header_list : HeaderBytes → List ℕ
header_list (b₀, b₁, b₂, b₃) = b₀ ∷ b₁ ∷ b₂ ∷ b₃ ∷ []

-- A frame: the bytes of its header, which announces its kind and its length, and its bytes.
abbrev pub IsFrame : MessageType → List ℕ → List ℕ → Type 0
IsFrame kind payload s =
    (h : HeaderBytes) × (decode_header h ≡ ok (kind, length payload))
    × (s ≡ header_list h ++ payload)

-- The frame that the bytes of `s` are, for what a reader yields.
abbrev pub Framed : Binrw → Inbound → List ℕ → Type 0
Framed binrw (message m) s =
    (bytes : List ℕ) × (parse binrw bytes ≡ ok m) × IsFrame session_message bytes s
Framed binrw Inbound.keep_alive s = (bytes : List ℕ) × IsFrame MessageType.keep_alive bytes s

-- What a reader has of a frame: a part of its header, or its header and a part of its bytes.
abbrev Part : Reading → FrameReader → List ℕ → Type 0
Part header r s = (length r.buffer ≡ 4) × (s ≡ take r.filled r.buffer)
Part body r s =
    (h : HeaderBytes) × (decode_header h ≡ ok (session_message, length r.buffer))
    × (s ≡ header_list h ++ take r.filled r.buffer)
Part Reading.keep_alive r s =
    (h : HeaderBytes) × (decode_header h ≡ ok (MessageType.keep_alive, length r.buffer))
    × (s ≡ header_list h ++ take r.filled r.buffer)

abbrev pub IsPart : FrameReader → List ℕ → Type 0
IsPart r s = (r.filled ≤ length r.buffer) × Part r.state r s

-- The same, with room left.
abbrev pub IsInHand : FrameReader → List ℕ → Type 0
IsInHand r s = (r.filled < length r.buffer) × Part r.state r s

-- What a step makes of a part.
abbrev pub Drained : Binrw → List ℕ → Taken → Type 0
Drained binrw s (r, ok none) = IsInHand r s
Drained binrw s (r, ok (some i)) = Framed binrw i s × IsInHand r []
Drained binrw s (r, err (failed e)) = Unit {0}
Drained binrw s (r, err panicked) = ⊥
Drained binrw s (r, err out_of_fuel) = ⊥

read_in : FrameReader → List ℕ → FrameReader
read_in r read = record r {
  buffer = copy_at r.filled read r.buffer;
  filled = r.filled + length read;
}

read_in-Part :
    (state : Reading) (r : FrameReader) (s read : List ℕ)
    → r.filled + length read ≤ length r.buffer
    → Part state r s
    → Part state (read_in r read) (s ++ read)
unfolding read_in
read_in-Part header r s read h (l, e) = (
  length-copy_at r.filled read r.buffer ∙ l,
  ap (λ t. t ++ read) e ∙ sym (take-copy_at r.filled read r.buffer h),
)
read_in-Part body r s read h (b, d, e) = (
  b,
  d ∙ ap (λ n. ok (session_message, n)) (sym (length-copy_at r.filled read r.buffer)),
  ap (λ t. t ++ read) e
      ∙ append_assoc (header_list b) (take r.filled r.buffer) read
      ∙ ap (λ t. header_list b ++ t) (sym (take-copy_at r.filled read r.buffer h)),
)
read_in-Part Reading.keep_alive r s read h (b, d, e) = (
  b,
  d ∙ ap (λ n. ok (MessageType.keep_alive, n)) (sym (length-copy_at r.filled read r.buffer)),
  ap (λ t. t ++ read) e
      ∙ append_assoc (header_list b) (take r.filled r.buffer) read
      ∙ ap (λ t. header_list b ++ t) (sym (take-copy_at r.filled read r.buffer h)),
)

pub new-IsInHand : IsInHand new []
new-IsInHand = (omega arith, (refl, refl))

-- A full header, with what it announces.
start-IsPart :
    (kind : MessageType) (n : ℕ) (h : HeaderBytes) (r : FrameReader) (s : List ℕ)
    → decode_header h ≡ ok (kind, n)
    → s ≡ header_list h
    → IsPart (record { buffer = replicate n 0; filled = 0; state = Reader.reading_of kind }) s
start-IsPart session_message n h r s d e = (
  omega arith,
  (
    h,
    d ∙ ap (λ k. ok (session_message, k)) (sym (length-replicate n 0)),
    e ∙ sym (append-nil (header_list h)),
  ),
)
start-IsPart MessageType.keep_alive n h r s d e = (
  omega arith,
  (
    h,
    d ∙ ap (λ k. ok (MessageType.keep_alive, k)) (sym (length-replicate n 0)),
    e ∙ sym (append-nil (header_list h)),
  ),
)

-- How many rounds of the loop a full buffer may take before one that yields.
abbrev stage : Reading → ℕ
stage header = 1
stage body = 0
stage Reading.keep_alive = 0

reading_stage : (kind : MessageType) → stage (Reader.reading_of kind) ≡ 0
reading_stage session_message = refl
reading_stage MessageType.keep_alive = refl

take_body-Drained :
    (binrw : Binrw) (r : FrameReader) (s : List ℕ) (h : HeaderBytes)
    → decode_header h ≡ ok (session_message, length r.buffer)
    → s ≡ header_list h ++ r.buffer
    → (next : FrameReader → Taken) (q : Result WireError Message) → parse binrw r.buffer ≡ q
    → Drained binrw s (and_drain (take_body r q) next)
unfolding take_body
take_body-Drained binrw r s h d e next (err fault) p = tt
take_body-Drained binrw r s h d e next (ok m) p = ((r.buffer, p, (h, d, e)), new-IsInHand)

take_header-Drained :
    (binrw : Binrw) (r : FrameReader) (s : List ℕ) (h : HeaderBytes)
    → s ≡ header_list h
    → (next : FrameReader → Taken)
    → ((kind : MessageType) (n : ℕ)
        → IsPart (record { buffer = replicate n 0; filled = 0; state = Reader.reading_of kind }) s
        → Drained binrw s
            (next (record { buffer = replicate n 0; filled = 0; state = Reader.reading_of kind })))
    → (q : Result WireError (MessageType × ℕ)) → decode_header h ≡ q
    → Drained binrw s (and_drain (take_header r q) next)
unfolding take_header
take_header-Drained binrw r s h e next k (err fault) d = tt
take_header-Drained binrw r s h e next k (ok (kind, n)) d = k kind n (start-IsPart kind n h r s d e)

-- A full part: the header is read, or the frame is yielded.
full-Drained :
    (state : Reading) (binrw : Binrw) (r : FrameReader) (s : List ℕ)
    → Part state r s
    → length r.buffer ≤ r.filled
    → (next : FrameReader → Taken)
    → ((kind : MessageType) (n : ℕ)
        → (stage state ≡ 1)
        → IsPart (record { buffer = replicate n 0; filled = 0; state = Reader.reading_of kind }) s
        → Drained binrw s
            (next (record { buffer = replicate n 0; filled = 0; state = Reader.reading_of kind })))
    → Drained binrw s (and_drain (take_in state binrw r) next)
unfolding take_in
full-Drained header binrw r s (l, e) f next k = four r.buffer l (e ∙ take_all r.filled r.buffer f)
  where
    four :
        (b : List ℕ)
        → length b ≡ 4
        → s ≡ b
        → Drained binrw s (and_drain (take_in header binrw (record r { buffer = b })) next)
    four (b₀ ∷ b₁ ∷ b₂ ∷ b₃ ∷ []) m q =
        take_header-Drained binrw (record r { buffer = b₀ ∷ b₁ ∷ b₂ ∷ b₃ ∷ [] }) s (b₀, b₁, b₂, b₃)
          q next (λ kind n. k kind n refl) (decode_header (b₀, b₁, b₂, b₃)) refl
    four [] m q = ground (arith, m)
    four (a ∷ []) m q = ground (arith, m)
    four (a ∷ b ∷ []) m q = ground (arith, m)
    four (a ∷ b ∷ c ∷ []) m q = ground (arith, m)
    four (a ∷ b ∷ c ∷ d ∷ e ∷ f) m q = absurd (omega (arith, m))
full-Drained body binrw r s (h, d, e) f next k =
    take_body-Drained binrw r s h d
      (e ∙ ap (λ t. header_list h ++ t) (take_all r.filled r.buffer f)) next (parse binrw r.buffer)
      refl
full-Drained Reading.keep_alive binrw r s (h, d, e) f next k = (
  (r.buffer, (h, d, e ∙ ap (λ t. header_list h ++ t) (take_all r.filled r.buffer f))),
  new-IsInHand,
)

drain-Drained :
    (fuel : ℕ) (binrw : Binrw) (r : FrameReader) (s : List ℕ)
    → IsPart r s
    → stage r.state < fuel
    → Drained binrw s (drain fuel binrw r)
unfolding drain Reader.take
drain-Drained zero binrw r s h f = absurd (omega (arith, f))
drain-Drained (suc fuel) binrw r s (fits, part) f =
    elim (Bool-cases (ltb r.filled (length r.buffer))) [
      | inl room ↦ rw room (ground (arith, room), part)
      | inr full ↦ rw full (
          full-Drained r.state binrw r s part (ground (arith, full)) (drain fuel binrw)
            (λ kind n one p.
              drain-Drained fuel binrw _ s p (omega (arith, one, f, reading_stage kind))))
    ]

-- A step with a part in hand: the frame goes on, or is yielded whole, or the connection has failed.
pub step-Drained :
    (binrw : Binrw) (r : FrameReader) (s read : List ℕ)
    → IsInHand r s
    → r.filled + length read ≤ length r.buffer
    → Drained binrw (s ++ read) (step binrw r read)
unfolding step read_in
step-Drained binrw r s read (room, part) fits = elim (Bool-cases (is_empty read)) [
  | inl none_left ↦ rw (step, room_test r room, none_left) tt
  | inr some_read ↦
      rw (step, room_test r room, some_read)
        (drain-Drained 2 binrw (read_in r read) (s ++ read)
          (rw (length-copy_at r.filled read r.buffer) fits, read_in-Part r.state r s read fits part)
          (stage_small r.state))
]
  where
    room_test :
        (r : FrameReader) → r.filled < length r.buffer → ltb r.filled (length r.buffer) ≡ true
    room_test r h = ground arith

    stage_small : (state : Reading) → stage state < 2
    stage_small header = omega arith
    stage_small body = omega arith
    stage_small Reading.keep_alive = omega arith
