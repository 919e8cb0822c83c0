-- ===== src/Auth/Spnego/RoundTrip.antt =====
-- Each tag-length-value that the client writes is read back.
use smb1client_rs.Base.{
  get_from-append, ℕ, suc, ◌+◌, ◌-◌, ◌≤◌, ◌<◌, ◌^◌, ◌≡◌, refl, sym, ◌∙◌, ap, true, false, ◌==◌, leb,
  List, [], ◌∷◌, ◌++◌, length, length-append, get_to, take-append, arith, some, Result, ok,
}
use smb1client_rs.Auth.Spnego.{
  Tlv, Stop, slice, read_first, read_levels, read_tlv, length_header, length_bytes, put_tlv, expect,
  max_depth,
}
use smb1client_rs.Auth.Spnego.Length.{IsLength, length_bytes-IsLength, length-length_bytes}
use mathlib.Core.Path.{subst}
use mathlib.Core.List.{append_assoc, append-nil}

get_to-append :
    (m : ℕ) (value rest : List ℕ) → length value ≡ m → get_to m (value ++ rest) ≡ some value
get_to-append m value rest e = rw (room, take-append m value rest e) refl
  where
    room : leb m (length (value ++ rest)) ≡ true
    room = ground (arith, length-append value rest, e)

slice-append :
    (n m : ℕ) (front value rest : List ℕ)
    → length front ≡ n
    → length value ≡ m
    → slice n m (front ++ (value ++ rest)) ≡ some value
slice-append n m front value rest e f =
    rw (slice, get_from-append n front (value ++ rest) e) (get_to-append m value rest f)

-- A tag-length-value as `put_tlv` writes it.
abbrev pub tlv : (tag : ℕ) → List ℕ → List ℕ
tlv tag value = tag ∷ (length_bytes (length value) ++ value)

read_first_definite :
    (read : List ℕ → Result Stop Tlv) (tag first : ℕ) (more value rest : List ℕ)
    → (first == 0x80) ≡ false
    → length_header first (tag ∷ (first ∷ more ++ (value ++ rest)))
      ≡ ok (length value, suc (suc (length more)))
    → read_first read (tag ∷ (first ∷ more ++ (value ++ rest)))
      ≡ ok (record { tag = tag; value = value; consumed = suc (suc (length more)) + length value })
unfolding read_first
read_first_definite read tag first more value rest h e =
    rw
      (
        h,
        e,
        slice-append (suc (suc (length more))) (length value) (tag ∷ first ∷ more) value rest refl
            refl,
      )
      refl

read_first-tlv :
    (read : List ℕ → Result Stop Tlv) (tag : ℕ) (value rest encoded : List ℕ)
    → IsLength (length value) encoded
    → read_first read (tag ∷ (encoded ++ (value ++ rest)))
      ≡ ok (record { tag = tag; value = value; consumed = suc (length encoded) + length value })
read_first-tlv read tag value rest encoded (first, more, e, definite_form, header) =
    subst
      (λ enc.
        read_first read (tag ∷ (enc ++ (value ++ rest)))
        ≡ ok (record { tag = tag; value = value; consumed = suc (length enc) + length value }))
      (sym e)
      (read_first_definite read tag first more value rest definite_form (
        subst
          (λ enc.
            length_header first (tag ∷ (enc ++ (value ++ rest)))
            ≡ ok (length value, suc (length enc)))
          e (header tag (value ++ rest))))

length-tlv :
    (tag : ℕ) (value : List ℕ)
    → length (tlv tag value) ≡ suc (length (length_bytes (length value))) + length value
length-tlv tag value = omega (arith, length-append (length_bytes (length value)) value)

-- A value of less than 2^64 bytes, written under a tag and followed by anything, is read back with its
-- tag and the count of bytes that were written, at every depth that the decoder follows.
pub read_tlv-put_tlv :
    (tag depth : ℕ) (value rest : List ℕ)
    → length value < 2 ^ 64
    → depth ≤ max_depth
    → read_tlv (put_tlv [] tag value ++ rest) depth
      ≡ ok (record { tag = tag; value = value; consumed = length (put_tlv [] tag value) })
unfolding read_tlv put_tlv read_levels
read_tlv-put_tlv tag depth value rest h k =
    rw
      (
        levels,
        append_assoc (length_bytes (length value)) value rest,
        read_first-tlv (read_levels (16 - depth)) tag value rest (length_bytes (length value))
            (length_bytes-IsLength (length value) h),
      )
      (ap (λ n. ok (record { tag = tag; value = value; consumed = n }))
        (sym (length-tlv tag value)))
  where
    levels : 17 - depth ≡ suc (16 - depth)
    levels = omega (arith, k)

pub expect-tlv :
    (tag depth : ℕ) (value rest : List ℕ)
    → length value < 2 ^ 64
    → depth ≤ max_depth
    → expect (put_tlv [] tag value ++ rest) tag depth
      ≡ ok (record { tag = tag; value = value; consumed = length (put_tlv [] tag value) })
unfolding expect
expect-tlv tag depth value rest h k =
    rw (expect, read_tlv-put_tlv tag depth value rest h k, same) refl
  where
    same : (tag == tag) ≡ true
    same = ground arith

pub put_tlv-append :
    (out : List ℕ) (tag : ℕ) (value : List ℕ) → put_tlv out tag value ≡ out ++ put_tlv [] tag value
unfolding put_tlv
put_tlv-append out tag value = refl

pub expect-put_tlv :
    (tag depth : ℕ) (value : List ℕ)
    → length value < 2 ^ 64
    → depth ≤ max_depth
    → expect (put_tlv [] tag value) tag depth
      ≡ ok (record { tag = tag; value = value; consumed = length (put_tlv [] tag value) })
expect-put_tlv tag depth value h k =
    ap (λ bytes. expect bytes tag depth) (sym (append-nil (put_tlv [] tag value)))
    ∙ expect-tlv tag depth value [] h k

pub length-put_tlv :
    (tag : ℕ) (value : List ℕ)
    → length value < 2 ^ 64
    → length (put_tlv [] tag value) ≤ length value + 10
unfolding put_tlv
length-put_tlv tag value h =
    omega (arith, length-tlv tag value, length-length_bytes (length value) h)
