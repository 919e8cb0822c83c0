-- ===== src/Rpc/Ndr/Utf16.antt =====
-- A text that is written in UTF-16 is read back.
use smb1client_rs.Base.{
  ℕ, ◌+◌, ◌-◌, ◌*◌, ◌/◌, ◌%◌, ◌^◌, ◌≤◌, ◌<◌, ◌≡◌, refl, ◌∙◌, ap, true, false, ltb, some, List, [],
  ◌∷◌, ◌++◌, length, is_empty, arith, Bool-cases, inl, inr, ◌⊎◌,
}
use smb1client_rs.Rpc.Ndr.{
  units_of, strip_terminator, is_leading, is_trailing, with_char, from_utf16, utf16_of,
  encode_utf16, bytes_of,
}

-- A code point that a `String` may hold: no surrogate, and at most 0x10FFFF.
abbrev pub IsScalar : ℕ → Type 0
IsScalar c = (c < 0xD800) ⊎ (0xE000 ≤ c) × (c < 0x110000)

abbrev pub AreScalars : List ℕ → Type 0
AreScalars [] = Unit {0}
AreScalars (c ∷ text) = IsScalar c × AreScalars text

not_leading : (c : ℕ) → IsScalar c → c < 0x10000 → is_leading c ≡ false
not_leading c k h = ground (arith, h, k)

not_trailing : (c : ℕ) → IsScalar c → c < 0x10000 → is_trailing c ≡ false
not_trailing c k h = ground (arith, h, k)

leading : (d : ℕ) → d < 0x100000 → is_leading (0xD800 + d / 0x400) ≡ true
leading d h = ground (arith, h)

trailing : (d : ℕ) → is_trailing (0xDC00 + d % 0x400) ≡ true
trailing d = ground arith

joined :
    (c : ℕ)
    → 0x10000 ≤ c
    → 0x10000
        + (0xD800 + (c - 0x10000) / 0x400 - 0xD800) * 0x400
        + (0xDC00 + (c - 0x10000) % 0x400 - 0xDC00)
      ≡ c
joined c h = omega (arith, h)

single_unit :
    (c : ℕ) (units : List ℕ)
    → c < 0x10000
    → IsScalar c
    → from_utf16 (c ∷ units) ≡ with_char c (from_utf16 units)
unfolding from_utf16
single_unit c [] h k = ground (arith, h, k)
single_unit c (v ∷ units) h k = rw (not_leading c k h, not_trailing c k h) refl

two_units :
    (c : ℕ) (units : List ℕ)
    → 0x10000 ≤ c
    → c < 0x110000
    → from_utf16 ((0xD800 + (c - 0x10000) / 0x400) ∷ (0xDC00 + (c - 0x10000) % 0x400) ∷ units)
      ≡ with_char c (from_utf16 units)
unfolding from_utf16
two_units c units h k =
    rw (leading (c - 0x10000) (omega (arith, h, k)), trailing (c - 0x10000), joined c h) refl

pub from_utf16-encode_utf16 :
    (text : List ℕ) → AreScalars text → from_utf16 (encode_utf16 text) ≡ some text
unfolding encode_utf16
from_utf16-encode_utf16 [] k = unfold from_utf16 in refl
from_utf16-encode_utf16 (c ∷ text) (k, ks) = elim (Bool-cases (ltb c 0x10000)) [
  | inl h ↦ rw h (
      single_unit c (encode_utf16 text) (ground (arith, h)) k
      ∙ ap (with_char c) (from_utf16-encode_utf16 text ks))
  | inr h ↦ rw h (
      two_units c (encode_utf16 text) (ground (arith, h)) (ground (arith, h, k))
      ∙ ap (with_char c) (from_utf16-encode_utf16 text ks))
]

pub strip_terminator-append : (units : List ℕ) → strip_terminator (units ++ 0 ∷ []) ≡ units
unfolding strip_terminator
strip_terminator-append [] = refl
strip_terminator-append (u ∷ units) = rw (some_left units, strip_terminator-append units) refl
  where
    some_left : (units : List ℕ) → is_empty (units ++ 0 ∷ []) ≡ false
    some_left [] = refl
    some_left (v ∷ units) = refl

abbrev pub AreUnits : List ℕ → Type 0
AreUnits [] = Unit {0}
AreUnits (u ∷ units) = (u < 2 ^ 16) × AreUnits units

pub units_of-bytes_of : (units : List ℕ) → AreUnits units → units_of (bytes_of units) ≡ units
units_of-bytes_of [] h = refl
units_of-bytes_of (u ∷ units) (h, hs) =
    rw (units_of-bytes_of units hs) (ap (λ v. v ∷ units) (omega (arith, h)))

pub length-bytes_of : (units : List ℕ) → length (bytes_of units) ≡ length units * 2
length-bytes_of [] = refl
length-bytes_of (u ∷ units) = omega (arith, length-bytes_of units)

pub AreUnits-append : (xs ys : List ℕ) → AreUnits xs → AreUnits ys → AreUnits (xs ++ ys)
AreUnits-append [] ys h k = k
AreUnits-append (x ∷ xs) ys (h, hs) k = (h, AreUnits-append xs ys hs k)

utf16_of-AreUnits : (c : ℕ) → IsScalar c → AreUnits (utf16_of c)
utf16_of-AreUnits c k = elim (Bool-cases (ltb c 0x10000)) [
  | inl h ↦ rw h (ground (arith, h), tt)
  | inr h ↦ rw h (ground (arith, h, k), (ground arith, tt))
]

pub encode_utf16-AreUnits : (text : List ℕ) → AreScalars text → AreUnits (encode_utf16 text)
unfolding encode_utf16
encode_utf16-AreUnits [] k = tt
encode_utf16-AreUnits (c ∷ text) (k, ks) =
    AreUnits-append (utf16_of c) (encode_utf16 text) (utf16_of-AreUnits c k)
      (encode_utf16-AreUnits text ks)
