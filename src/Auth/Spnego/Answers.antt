-- ===== src/Auth/Spnego/Answers.antt =====
-- Whatever a server sends, the search for its `responseToken` ends.
use smb1client_rs.Base.{
  ℕ, zero, suc, ◌+◌, ◌≤◌, ◌<◌, ◌≡◌, refl, sym, true, ◌==◌, leb, List, [], ◌∷◌, length, length-drop,
  drop, get_from, arith, Result, ok, err, guard, ◌>>◌, ◌>>=◌, Bool-cases, inl, inr,
}
use smb1client_rs.Auth.Spnego
use mathlib.Core.Path.{subst}
use smb1client_rs.Auth.Spnego.{
  Tlv, Stop, failed, panicked, out_of_fuel, slice, definite, contents, is_end, read_first,
  read_levels, read_tlv, length_header, long_length, from_be, expect, fields, take_field, tail_from,
  unwrapped, is_field, response_token, tag_context_2, tag_octet_string, tag_application_0, tag_oid,
  tag_context_1, tag_sequence, max_depth,
}
use smb1client_rs.Auth.Spnego.Bounds.{IsWithin, Reads, read_tlv-Reads}

expect-Reads : (bytes : List ℕ) (tag depth : ℕ) → Reads bytes (expect bytes tag depth)
unfolding expect
expect-Reads bytes tag depth = checked (read_tlv bytes depth) (read_tlv-Reads bytes depth)
  where
    checked :
        (r : Result Stop Tlv)
        → Reads bytes r
        → Reads bytes (
            r >>= λ tlv.
            (guard (tlv.tag == tag) (failed (Spnego.unexpected_tag tag tlv.tag)) >> ok tlv))
    checked (err (failed e)) k = tt
    checked (err panicked) k = k
    checked (err out_of_fuel) k = k
    checked (ok t) k = elim (Bool-cases (t.tag == tag)) [
      | inl same ↦ rw same k
      | inr other ↦ rw other tt
    ]

-- A token of at most `n` bytes, or an error of the source.
abbrev pub Answers : ℕ → Result Stop (List ℕ) → Type 0
Answers n (ok token) = length token ≤ n
Answers n (err (failed e)) = Unit {0}
Answers n (err panicked) = ⊥
Answers n (err out_of_fuel) = ⊥

Answers-mono : {n m : ℕ} → n ≤ m → (r : Result Stop (List ℕ)) → Answers n r → Answers m r
Answers-mono h (ok token) k = omega (arith, h, k)
Answers-mono h (err (failed e)) k = tt
Answers-mono h (err panicked) k = k
Answers-mono h (err out_of_fuel) k = k

-- What goes on with a value that was read, which is shorter than what it was read from.
and_then-Answers :
    (bytes : List ℕ) (n : ℕ) (next : Tlv → Result Stop (List ℕ)) (r : Result Stop Tlv)
    → Reads bytes r
    → ((t : Tlv) → IsWithin bytes t → Answers n (next t))
    → Answers n (r >>= next)
and_then-Answers bytes n next (ok t) k go = go t k
and_then-Answers bytes n next (err (failed e)) k go = tt
and_then-Answers bytes n next (err panicked) k go = k
and_then-Answers bytes n next (err out_of_fuel) k go = k

-- A slice from where a value ends is within range.
tail_from-Answers :
    (bytes : List ℕ) (t : Tlv) (n : ℕ) (next : List ℕ → Result Stop (List ℕ))
    → IsWithin bytes t
    → ((rest : List ℕ) → length rest + 2 ≤ length bytes → Answers n (next rest))
    → Answers n (tail_from t.consumed bytes >>= next)
tail_from-Answers bytes t n next k go =
    rw (tail_from, get_from, fits)
      (go (drop t.consumed bytes)
        (omega (arith, length-drop t.consumed bytes, k.fits, k.after, k.ends)))
  where
    fits : leb t.consumed (length bytes) ≡ true
    fits = ground (arith, k.fits)

take_field-Answers :
    (rest : List ℕ) (next : List ℕ → Result Stop (List ℕ)) (t : Tlv)
    → IsWithin rest t
    → ((after : List ℕ) → length after + 2 ≤ length rest → Answers (length rest) (next after))
    → Answers (length rest) (take_field rest next t)
take_field-Answers rest next t k go = elim (Bool-cases (t.tag == tag_context_2)) [
  | inl h ↦
      rw (take_field, h)
        (and_then-Answers t.value (length rest) (λ octets. ok octets.value)
          (expect t.value tag_octet_string 4) (expect-Reads t.value tag_octet_string 4)
          (λ octets w. omega (arith, w.fits, w.ends, k.fits, k.ends)))
  | inr h ↦ elim (Bool-cases (is_field t.tag)) [
    | inl f ↦ rw (take_field, h, f) (tail_from-Answers rest t (length rest) next k go)
    | inr f ↦ rw (take_field, h, f) tt
  ]
]

fields-Answers :
    (fuel : ℕ) (rest : List ℕ) → length rest < fuel → Answers (length rest) (fields fuel rest)
unfolding fields
fields-Answers zero rest h = absurd (omega (arith, h))
fields-Answers (suc fuel) [] h = tt
fields-Answers (suc fuel) (b ∷ rest) h =
    and_then-Answers (b ∷ rest) (length (b ∷ rest)) (take_field (b ∷ rest) (fields fuel))
      (read_tlv (b ∷ rest) 3) (read_tlv-Reads (b ∷ rest) 3)
      (λ t k. take_field-Answers (b ∷ rest) (fields fuel) t k (λ after s.
        Answers-mono (omega (arith, s)) (fields fuel after)
          (fields-Answers fuel after (omega (arith, s, h)))))

body-Answers :
    (body : List ℕ)
    → Answers (length body) (
        expect body tag_context_1 1 >>= λ negotiation.
        (expect negotiation.value tag_sequence 2 >>= λ sequence.
        fields (suc (length sequence.value)) sequence.value))
body-Answers body =
    and_then-Answers body (length body) _ (expect body tag_context_1 1)
      (expect-Reads body tag_context_1 1)
      (λ negotiation k.
        and_then-Answers negotiation.value (length body) _ (expect negotiation.value tag_sequence 2)
          (expect-Reads negotiation.value tag_sequence 2)
          (λ sequence l.
            Answers-mono (omega (arith, k.ends, k.fits, l.ends, l.fits))
              (fields (suc (length sequence.value)) sequence.value)
              (fields-Answers (suc (length sequence.value)) sequence.value (omega arith))))

and_then_assoc :
    (r : Result Stop Tlv) (f : Tlv → Result Stop (List ℕ)) (g : List ℕ → Result Stop (List ℕ))
    → ((r >>= f) >>= g) ≡ (r >>= λ t. (f t >>= g))
and_then_assoc (ok t) f g = refl
and_then_assoc (err fault) f g = refl

-- Whatever a server sends, `response_token` ends: with a token no longer than what came, or with an
-- error of the source; no slice is out of range.
pub response_token-Answers : (token : List ℕ) → Answers (length token) (response_token token)
unfolding response_token
response_token-Answers token =
    and_then-Answers token (length token) _ (read_tlv token 0) (read_tlv-Reads token 0)
      (λ outer k. by_tag outer k)
  where
    rest_of : List ℕ → Result Stop (List ℕ)
    rest_of body = expect body tag_context_1 1 >>= λ negotiation.
        (expect negotiation.value tag_sequence 2 >>= λ sequence.
        fields (suc (length sequence.value)) sequence.value)

    by_tag :
        (outer : Tlv)
        → IsWithin token outer
        → Answers (length token) (unwrapped token outer >>= rest_of)
    by_tag outer k = elim (Bool-cases (outer.tag == tag_application_0)) [
      | inl h ↦
          subst (Answers (length token))
            (sym (
              rw (unwrapped, h)
                (and_then_assoc (expect outer.value tag_oid 1)
                  (λ oid. tail_from oid.consumed outer.value) rest_of)))
            (and_then-Answers outer.value (length token)
              (λ oid. tail_from oid.consumed outer.value >>= rest_of) (expect outer.value tag_oid 1)
              (expect-Reads outer.value tag_oid 1)
              (λ oid w. tail_from-Answers outer.value oid (length token) rest_of w (λ rest l.
                Answers-mono (omega (arith, l, k.ends, k.fits)) (rest_of rest)
                  (body-Answers rest))))
      | inr h ↦ rw (unwrapped, h) (body-Answers token)
    ]
