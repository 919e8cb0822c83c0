-- ===== src/Unc/Decimal.antt =====
-- A port that is written in decimal is read back, and what is written has digits only.
use smb1client_rs.Base.{
  ℕ, zero, suc, ◌+◌, ◌*◌, ◌/◌, ◌%◌, ◌^◌, ◌<◌, ◌≡◌, refl, ap, false, ◌||◌, ◌&&◌, leb, ltb, Option,
  none, some, [], ◌∷◌, ◌++◌, is_empty, arith, Bool-cases, inl, inr,
}
use smb1client_rs.SharePath.{Text, has_char}
use smb1client_rs.Unc.{digit_more, parse_digits, strip_plus, parse_u16, digits, plus}
use native.Mathlib.Numerals.{unary_clauses}

pub has_char-append : (k : ℕ) (s t : Text) → has_char k (s ++ t) ≡ (has_char k s || has_char k t)
unfolding has_char
has_char-append k [] t = refl
has_char-append k (c ∷ s) t = ground (arith, has_char-append k s t)

-- A character that is no digit stands nowhere in a number.
pub digits_only :
    (k fuel n : ℕ) → (leb 48 k && leb k 57) ≡ false → has_char k (digits fuel n) ≡ false
unfolding digits has_char
digits_only k zero n h = refl
digits_only k (suc fuel) n h = elim (Bool-cases (ltb n 10)) [
  | inl one ↦ rw one (ground (arith, h, one))
  | inr more ↦
      rw
        (
          more,
          has_char-append k (digits fuel (n / 10)) ((48 + n % 10) ∷ []),
          digits_only k fuel (n / 10) h,
        )
        (ground (arith, h))
]

and_more : Option ℕ → (c : ℕ) → Option ℕ
and_more none c = none
and_more (some n) c = digit_more n c

parse_digits-append :
    (n : ℕ) (s : Text) (c : ℕ) → parse_digits n (s ++ c ∷ []) ≡ and_more (parse_digits n s) c
unfolding parse_digits and_more
parse_digits-append n [] c = last (digit_more n c)
  where
    last : (o : Option ℕ) → elim o [ none ↦ none | some m ↦ some m ] ≡ o
    last none = refl
    last (some m) = refl
parse_digits-append n (d ∷ s) c = rest (λ m. parse_digits-append m s c) (digit_more n d)
  where
    rest :
        ((m : ℕ) → parse_digits m (s ++ c ∷ []) ≡ and_more (parse_digits m s) c)
        → (o : Option ℕ)
        → elim o [ none ↦ none | some m ↦ parse_digits m (s ++ c ∷ []) ]
          ≡ and_more (elim o [ none ↦ none | some m ↦ parse_digits m s ]) c
    rest ih none = refl
    rest ih (some m) = ih m

pow_suc : (w : ℕ) → 10 ^ suc w ≡ 10 * 10 ^ w
pow_suc w = simp unary_clauses (omega arith)

parse_digits-digits :
    (fuel n : ℕ) → n < 10 ^ fuel → n < 65_536 → parse_digits 0 (digits fuel n) ≡ some n
unfolding parse_digits digits and_more
parse_digits-digits zero n h k = ap some (omega (arith, h))
parse_digits-digits (suc fuel) n h k = elim (Bool-cases (ltb n 10)) [
  | inl one ↦ rw one (ground (arith, one))
  | inr more ↦
      rw
        (
          more,
          parse_digits-append 0 (digits fuel (n / 10)) (48 + n % 10),
          parse_digits-digits fuel (n / 10) (omega (arith, h, pow_suc fuel)) (omega (arith, k)),
        )
        (ground (arith, k))
]

is_empty-append : (s : Text) (c : ℕ) → is_empty (s ++ c ∷ []) ≡ false
is_empty-append [] c = refl
is_empty-append (d ∷ s) c = refl

digits-nonempty : (fuel n : ℕ) → is_empty (digits (suc fuel) n) ≡ false
unfolding digits
digits-nonempty fuel n = elim (Bool-cases (ltb n 10)) [
  | inl one ↦ rw one refl
  | inr more ↦ rw more (is_empty-append (digits fuel (n / 10)) (48 + n % 10))
]

strip_plus_none : (s : Text) → has_char plus s ≡ false → strip_plus s ≡ s
unfolding has_char
strip_plus_none [] h = refl
strip_plus_none (c ∷ s) h = ground (arith, h)

-- What `Display` writes, `from_str` reads.
pub parse_u16-digits : (n : ℕ) → n < 65_536 → parse_u16 (digits 5 n) ≡ some n
unfolding parse_u16
parse_u16-digits n h =
    rw (parse_u16, strip_plus_none (digits 5 n) (digits_only plus 5 n refl), digits-nonempty 4 n)
      (parse_digits-digits 5 n (omega (arith, h)) h)
