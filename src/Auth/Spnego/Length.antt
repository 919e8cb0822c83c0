-- ===== src/Auth/Spnego/Length.antt =====
-- The length bytes that `put_tlv` writes are read back, in the short form and in the long.
use smb1client_rs.Base.{
  ℕ, zero, suc, ◌+◌, ◌-◌, ◌*◌, ◌/◌, ◌%◌, ◌^◌, ◌≤◌, ◌<◌, ◌≡◌, refl, ◌∙◌, ap, true, false, ◌==◌, ltb,
  List, [], ◌∷◌, ◌++◌, length, length-append, take-append, arith, ok, Bool-cases, inl, inr,
  get_range, leb, ◌&&◌, ◌||◌, some, as_u8,
}
use smb1client_rs.Auth.Spnego.{
  from_be, to_be_bytes, drop_zeroes, long_form, length_bytes, long_length, length_header,
}
use mathlib.Core.Path.{subst}
use native.Mathlib.Numerals.{unary_clauses}

from_be-append :
    (n : ℕ) (bytes : List ℕ) (b : ℕ)
    → from_be n (bytes ++ b ∷ []) ≡ from_be n bytes * 2 ^ 8 % 2 ^ 64 + b
from_be-append n [] b = refl
from_be-append n (a ∷ bytes) b = from_be-append (n * 2 ^ 8 % 2 ^ 64 + a) bytes b

length-to_be_bytes : (w n : ℕ) → length (to_be_bytes w n) ≡ w
unfolding to_be_bytes
length-to_be_bytes zero n = refl
length-to_be_bytes (suc w) n = omega (
  arith,
  length-append {0} (to_be_bytes w (n / 2 ^ 8)) ((n % 2 ^ 8) ∷ []),
  length-to_be_bytes w (n / 2 ^ 8),
)

pow_suc : (w : ℕ) → 256 ^ suc w ≡ 256 * 256 ^ w
pow_suc w = simp unary_clauses (omega arith)

quotient_small : (w n : ℕ) → n < 256 ^ suc w → n / 2 ^ 8 < 256 ^ w
quotient_small w n h = omega (arith, h, pow_suc w)

from_be-to_be_bytes : (w n : ℕ) → n < 256 ^ w → n < 2 ^ 64 → from_be 0 (to_be_bytes w n) ≡ n
unfolding to_be_bytes
from_be-to_be_bytes zero n h k = omega (arith, h)
from_be-to_be_bytes (suc w) n h k =
    from_be-append 0 (to_be_bytes w (n / 2 ^ 8)) (n % 2 ^ 8)
    ∙ ap (λ m. m * 2 ^ 8 % 2 ^ 64 + n % 2 ^ 8)
        (from_be-to_be_bytes w (n / 2 ^ 8) (quotient_small w n h) (omega (arith, k)))
    ∙ omega (arith, k)

from_be-drop_zeroes : (bytes : List ℕ) → from_be 0 (drop_zeroes bytes) ≡ from_be 0 bytes
from_be-drop_zeroes [] = refl
from_be-drop_zeroes (b ∷ bytes) = elim (Bool-cases (b == 0)) [
  | inl h ↦ rw h (from_be-drop_zeroes bytes ∙ ap (λ n. from_be n bytes) (ground (arith, h)))
  | inr h ↦ rw h refl
]

length-drop_zeroes : (bytes : List ℕ) → length (drop_zeroes bytes) ≤ length bytes
length-drop_zeroes [] = omega arith
length-drop_zeroes (b ∷ bytes) = ground (arith, length-drop_zeroes bytes)

-- A length that takes more than seven bits has a long form: one to eight bytes, which read as it.
significant :
    (n : ℕ)
    → 128 ≤ n
    → n < 2 ^ 64
    → let bytes = drop_zeroes (to_be_bytes 8 n) in
      (from_be 0 bytes ≡ n) × (0 < length bytes) × (length bytes ≤ 8)
significant n h k =
    let reads : from_be 0 (drop_zeroes (to_be_bytes 8 n)) ≡ n =
      from_be-drop_zeroes (to_be_bytes 8 n) ∙ from_be-to_be_bytes 8 n k k in
    (
      reads,
      some_byte (drop_zeroes (to_be_bytes 8 n)) reads,
      omega (arith, length-drop_zeroes (to_be_bytes 8 n), length-to_be_bytes 8 n),
    )
  where
    some_byte : (bytes : List ℕ) → from_be 0 bytes ≡ n → 0 < length bytes
    some_byte [] e = omega (arith, e, h)
    some_byte (b ∷ bytes) e = omega arith

get_range-append :
    (tag first : ℕ) (bytes rest : List ℕ)
    → get_range 2 (2 + length bytes) (tag ∷ first ∷ (bytes ++ rest)) ≡ some bytes
get_range-append tag first bytes rest =
    rw (fits, count, take-append (length bytes) bytes rest refl) refl
  where
    fits :
        (leb 2 (2 + length bytes) && leb (2 + length bytes) (suc (suc (length (bytes ++ rest)))))
        ≡ true
    fits = ground (arith, length-append bytes rest)

    count : 2 + length bytes - 2 ≡ length bytes
    count = omega arith

long_length-append :
    (tag first n : ℕ) (bytes rest : List ℕ)
    → from_be 0 bytes ≡ n
    → 0 < length bytes
    → length bytes ≤ 8
    → long_length (length bytes) (tag ∷ first ∷ (bytes ++ rest)) ≡ ok (n, 2 + length bytes)
long_length-append tag first n bytes rest e h k =
    rw (count, get_range-append tag first bytes rest, e) refl
  where
    count : (length bytes == 0 || ltb 8 (length bytes)) ≡ false
    count = ground (arith, h, k)

length_header_long :
    (s : ℕ) (bytes : List ℕ)
    → 0 < s
    → s ≤ 8
    → length_header (128 + s % 256) bytes ≡ long_length s bytes
length_header_long s bytes h k = rw (first, count) refl
  where
    first : ((128 + s % 256) / 2 ^ 7 % 2 == 0) ≡ false
    first = ground (arith, h, k)

    count : (128 + s % 256) % 2 ^ 7 ≡ s
    count = omega (arith, k)

-- The bytes of `encoded`, after a tag, read as the length `n` in a definite form that they take up.
abbrev pub IsLength : ℕ → List ℕ → Type 0
IsLength n encoded =
    (first : ℕ) × (more : List ℕ) × (encoded ≡ first ∷ more)
    × ((first == 0x80) ≡ false)
    × ((tag : ℕ) (rest : List ℕ)
        → length_header first (tag ∷ (encoded ++ rest)) ≡ ok (n, suc (length encoded)))

short-IsLength : (n : ℕ) → n < 128 → IsLength n (as_u8 n ∷ [])
short-IsLength n h = (n % 256, [], refl, ground (arith, h), λ tag rest. rw (low, same) refl)
  where
    same : n % 256 ≡ n
    same = omega (arith, h)

    low : (n % 256 / 2 ^ 7 % 2 == 0) ≡ true
    low = ground (arith, h)

long-IsLength :
    (n : ℕ) (bytes : List ℕ)
    → from_be 0 bytes ≡ n
    → 0 < length bytes
    → length bytes ≤ 8
    → IsLength n (long_form bytes)
long-IsLength n bytes e h k = (
  128 + length bytes % 256,
  bytes,
  refl,
  ground arith,
  λ tag rest.
      length_header_long (length bytes) (tag ∷ (long_form bytes ++ rest)) h k
      ∙ long_length-append tag (128 + length bytes % 256) n bytes rest e h k
      ∙ ap (λ m. ok (n, m)) (omega arith),
)

-- What `put_tlv` writes after the tag reads as the length.
pub length_bytes-IsLength : (n : ℕ) → n < 2 ^ 64 → IsLength n (length_bytes n)
unfolding length_bytes
length_bytes-IsLength n h = elim (Bool-cases (ltb n 0x80)) [
  | inl short ↦ subst (IsLength n) (rw short refl) (short-IsLength n (ground (arith, short)))
  | inr long ↦
      let (reads, some_byte, few) = significant n (ground (arith, long)) h in
      subst (IsLength n) (rw long refl)
        (long-IsLength n (drop_zeroes (to_be_bytes 8 n)) reads some_byte few)
]

pub length-length_bytes : (n : ℕ) → n < 2 ^ 64 → length (length_bytes n) ≤ 9
unfolding length_bytes
length-length_bytes n h = elim (Bool-cases (ltb n 0x80)) [
  | inl short ↦ rw short (omega arith)
  | inr long ↦ rw long (omega (arith, length-drop_zeroes (to_be_bytes 8 n), length-to_be_bytes 8 n))
]
