-- ===== src/Auth/Spnego/Bounds.antt =====
-- Whatever the bytes are, the decoder ends with a value within them or with an error of its own.
use smb1client_rs.Base.{
  ℕ, zero, suc, ◌+◌, ◌-◌, ◌/◌, ◌%◌, ◌^◌, ◌≤◌, ◌<◌, ◌≡◌, refl, sym, ap, ◌==◌, ◌||◌, ◌&&◌, leb, ltb,
  List, [], ◌∷◌, length, length-take, length-drop, take, drop, get_range, arith, none, some, Result,
  ok, err, ◌>>=◌, Bool-cases, inl, inr, ◌⊎◌, get_elem?,
}
use smb1client_rs.Auth.Spnego.{
  Tlv, Stop, failed, panicked, out_of_fuel, slice, definite, contents, is_end, read_first,
  read_levels, read_tlv, length_header, long_length, max_depth,
}

-- A value read out of `bytes`: its tag is the first of them, its bytes come after at least two, and
-- neither they nor what was consumed go past the end.
pub record IsWithin (bytes : List ℕ) (t : Tlv) : Type 0 where
  pub header : ℕ
  pub first : get_elem? bytes 0 ≡ some t.tag
  pub after : 2 ≤ header
  pub ends : header + length t.value ≤ t.consumed
  pub fits : t.consumed ≤ length bytes
  pub bytes_eq : t.value ≡ take (length t.value) (drop header bytes)

-- A value that is within the bytes, or an error of the source: no slice out of range, no fuel run out.
abbrev pub Reads : List ℕ → Result Stop Tlv → Type 0
Reads bytes (ok t) = IsWithin bytes t
Reads bytes (err (failed e)) = Unit {0}
Reads bytes (err panicked) = ⊥
Reads bytes (err out_of_fuel) = ⊥

slice_cases :
    (header n : ℕ) (bytes : List ℕ)
    → (slice header n bytes ≡ none)
      ⊎ (header + n ≤ length bytes) × (slice header n bytes ≡ some (take n (drop header bytes)))
slice_cases header n bytes = elim (Bool-cases (leb header (length bytes))) [
  | inl h ↦ elim (Bool-cases (leb n (length (drop header bytes)))) [
    | inl k ↦ inr (ground (arith, h, k, length-drop header bytes), rw (slice, h, k) refl)
    | inr k ↦ inl (rw (slice, h, k) refl)
  ]
  | inr h ↦ inl (rw (slice, h) refl)
]

-- The definite form: where the slices succeed, the value is what they cut.
definite-Reads :
    (tag : ℕ) (bytes : List ℕ) (n header : ℕ)
    → 2 ≤ header
    → get_elem? bytes 0 ≡ some tag
    → Reads bytes (definite tag bytes (n, header))
definite-Reads tag bytes n header h first = elim (slice_cases header n bytes) [
  | inl e ↦ rw (definite, e) tt
  | inr (fits, e) ↦
      rw (definite, e)
        (record {
          header = header;
          first = first;
          after = h;
          ends = omega (arith, size fits);
          fits = fits;
          bytes_eq = ap (λ m. take m (drop header bytes)) (sym (size fits));
        })
]
  where
    size : header + n ≤ length bytes → length (take n (drop header bytes)) ≡ n
    size k = omega (arith, length-take n (drop header bytes), length-drop header bytes, k)

-- A header of a length is at least its tag and its first byte.
length_header-Reads :
    (tag first : ℕ) (bytes : List ℕ)
    → get_elem? bytes 0 ≡ some tag
    → Reads bytes (length_header first bytes >>= definite tag bytes)
length_header-Reads tag first bytes e = elim (Bool-cases (first / 2 ^ 7 % 2 == 0)) [
  | inl short ↦ rw (length_header, short) (definite-Reads tag bytes first 2 (omega arith) e)
  | inr long ↦ rw (length_header, long) (long_length-Reads (first % 2 ^ 7))
]
  where
    long_length-Reads : (count : ℕ) → Reads bytes (long_length count bytes >>= definite tag bytes)
    long_length-Reads count = elim (Bool-cases (count == 0 || ltb 8 count)) [
      | inl h ↦ rw (long_length, h) tt
      | inr h ↦ elim (Bool-cases (leb 2 (2 + count) && leb (2 + count) (length bytes))) [
        | inl k ↦
            rw (long_length, h, get_range, k)
              (definite-Reads tag bytes _ (2 + count) (omega arith) e)
        | inr k ↦ rw (long_length, h, get_range, k) tt
      ]
    ]

more-Reads :
    (read : List ℕ → Result Stop Tlv) (fuel tag first : ℕ) (body : List ℕ) (at : ℕ)
    → at ≤ length body
    → length body < suc fuel + at
    → ((at : ℕ)
        → at ≤ length body
        → length body < fuel + at
        → Reads (tag ∷ first ∷ body) (contents read fuel tag body at))
    → (r : Result Stop Tlv) → Reads (drop at body) r
    → Reads (tag ∷ first ∷ body) (r >>= λ inner. contents read fuel tag body (at + inner.consumed))
more-Reads read fuel tag first body at h f next (err (failed e)) k = tt
more-Reads read fuel tag first body at h f next (err panicked) k = absurd k
more-Reads read fuel tag first body at h f next (err out_of_fuel) k = absurd k
more-Reads read fuel tag first body at h f next (ok t) k =
    next (at + t.consumed) (omega (arith, h, k.fits, length-drop at body))
      (omega (arith, h, f, k.after, k.ends))

contents-Reads :
    (read : List ℕ → Result Stop Tlv)
    → ((bytes : List ℕ) → Reads bytes (read bytes))
    → (fuel tag : ℕ) (first : ℕ) (body : List ℕ) (at : ℕ) → at ≤ length body
    → length body < fuel + at
    → Reads (tag ∷ first ∷ body) (contents read fuel tag body at)
unfolding contents
contents-Reads read ih zero tag first body at h f = absurd (omega (arith, h, f))
contents-Reads read ih (suc fuel) tag first body at h f =
    elim (Bool-cases (leb at (at + 2) && leb (at + 2) (length body))) [
      | inl k ↦ elim (Bool-cases (is_end (take (at + 2 - at) (drop at body)))) [
        | inl end ↦
            rw (contents, get_range, k, end)
              (record {
                header = 2;
                first = refl;
                after = omega arith;
                ends = omega (arith, length-take at body, h);
                fits = ground (arith, k);
                bytes_eq = ap (λ m. take m body) (omega (arith, length-take at body, h));
              })
        | inr going ↦
            rw (contents, get_range, k, going)
              (more-Reads read fuel tag first body at h f
                (contents-Reads read ih fuel tag first body) (read (drop at body))
                (ih (drop at body)))
      ]
      | inr k ↦ rw (contents, get_range, k) tt
    ]

read_levels-Reads : (levels : ℕ) (bytes : List ℕ) → Reads bytes (read_levels levels bytes)
unfolding read_levels read_first
read_levels-Reads zero bytes = tt
read_levels-Reads (suc levels) [] = tt
read_levels-Reads (suc levels) (tag ∷ []) = tt
read_levels-Reads (suc levels) (tag ∷ first ∷ body) = elim (Bool-cases (first == 0x80)) [
  | inl h ↦ rw h (
      contents-Reads (read_levels levels) (read_levels-Reads levels) (suc (length body)) tag first
        body 0 (omega arith) (omega arith))
  | inr h ↦ rw h (length_header-Reads tag first (tag ∷ first ∷ body) refl)
]

-- Whatever the bytes and the depth are, a reading ends: with a value that lies within the bytes, or
-- with an error of the source.
pub read_tlv-Reads : (bytes : List ℕ) (depth : ℕ) → Reads bytes (read_tlv bytes depth)
unfolding read_tlv
read_tlv-Reads bytes depth = read_levels-Reads (max_depth + 1 - depth) bytes
