-- ===== src/Wire/Offsets/Area.antt =====
-- `align_to` ends, at a multiple of the alignment, having pushed as few zeroes as that takes.
use smb1client_rs.Base.{
  ℕ, zero, suc, ◌+◌, ◌-◌, ◌%◌, ◌<◌, ◌≡◌, refl, ◌∙◌, ap, sym, [], ◌∷◌, ◌++◌, arith, replicate, true,
  ◌⊎◌, inl, inr, ◌/◌, ◌^◌, ◌==◌, Bool-cases, none, some, length-append,
}
use smb1client_rs.Wire.Offsets.{
  ByteArea, offset, align_loop, align_to, halves_to_one, is_power_of_two,
}
use mathlib.Core.Path.{subst}
use mathlib.Core.List.{append-nil, append_assoc}
use native.Mathlib.Decide.{dec_lt}
use native.Mathlib.Nat.{mod-lt, add-zero, mod-eq_of_lt, mod-add-mod, mod_self, pow-succ'}

-- The area `b` is `a` with `n` zeroes pushed, `n` the least that reaches a multiple of `align`.
pub record Padded (a : ByteArea) (align n : ℕ) (b : ByteArea) : Type 0 where
  pub start_eq : b.start ≡ a.start
  pub bytes_eq : b.bytes ≡ a.bytes ++ replicate n 0
  pub aligned : offset b % align ≡ 0
  pub least : n < align

push_zero : ByteArea → ByteArea
push_zero a = record a { bytes = a.bytes ++ 0 ∷ [] }

Padded-suc :
    (a : ByteArea) (align n : ℕ) (b : ByteArea)
    → suc n < align
    → Padded (push_zero a) align n b
    → Padded a align (suc n) b
unfolding push_zero
Padded-suc a align n b h p = record {
  start_eq = p.start_eq;
  bytes_eq = p.bytes_eq ∙ append_assoc a.bytes (0 ∷ []) (replicate n 0);
  aligned = p.aligned;
  least = h;
}

align_loop_stops :
    (fuel : ℕ) (a : ByteArea) (align : ℕ) → offset a % align ≡ 0 → align_loop (suc fuel) a align ≡ a
unfolding align_loop
align_loop_stops fuel a align e = ground arith

align_loop_goes :
    (fuel : ℕ) (a : ByteArea) (align : ℕ)
    → ¬ (offset a % align ≡ 0)
    → align_loop (suc fuel) a align ≡ align_loop fuel (push_zero a) align
unfolding align_loop push_zero
align_loop_goes fuel a align e = ground arith

offset-push_zero : (a : ByteArea) → offset (push_zero a) ≡ offset a + 1
unfolding offset push_zero
offset-push_zero a = omega (arith, length-append a.bytes (0 ∷ []))

-- Short of a multiple by `missing`, and not at one before it.
record Missing (a : ByteArea) (align missing : ℕ) : Type 0 where
  short : missing < align
  reaches : (offset a + missing) % align ≡ 0
  first : (k : ℕ) → k < missing → ¬ ((offset a + k) % align ≡ 0)

align_loop-Padded :
    (fuel missing : ℕ) (a : ByteArea) (align : ℕ)
    → missing < fuel
    → Missing a align missing
    → Padded a align missing (align_loop fuel a align)
align_loop-Padded zero missing a align h m = elim h [ ]
align_loop-Padded (suc fuel) zero a align h m =
    let e : offset a % align ≡ 0 = rw add-zero at m.reaches in
    rw (align_loop_stops fuel a align e) (record {
      start_eq = refl;
      bytes_eq = sym (append-nil a.bytes);
      aligned = e;
      least = m.short;
    })
align_loop-Padded (suc fuel) (suc missing) a align h m =
    let go : ¬ (offset a % align ≡ 0) = rw add-zero at (m.first 0 (omega arith)) in
    rw (align_loop_goes fuel a align go) (
      Padded-suc a align missing _ m.short
        (align_loop-Padded fuel missing (push_zero a) align (omega arith) rest))
  where
    shift : (k : ℕ) → offset (push_zero a) + k ≡ offset a + suc k
    shift k = omega (arith, offset-push_zero a)

    rest : Missing (push_zero a) align missing
    rest = record {
      short = omega (arith, m.short);
      reaches = ap (λ n. n % align) (shift missing) ∙ m.reaches;
      first = λ k l e. m.first (suc k) (omega arith) (ap (λ n. n % align) (sym (shift k)) ∙ e);
    }

-- How many zeroes `align_to` pushes at an offset.
abbrev pub padding : ℕ → ℕ → ℕ
padding align at = (align - at % align) % align

-- The remainder of a sum whose parts stay below the modulus.
mod-add-small : (n k align : ℕ) → n % align + k < align → (n + k) % align ≡ n % align + k
mod-add-small n k align h = sym (mod-add-mod n align k) ∙ mod-eq_of_lt h

padding-Missing :
    (a : ByteArea) (align : ℕ) → 0 < align → Missing a align (padding align (offset a))
padding-Missing a align p = elim (dec_lt 0 (offset a % align)) [
  | yes h ↦
      let lt = mod-lt (offset a) p in
      let e : padding align (offset a) ≡ align - offset a % align = mod-eq_of_lt (omega arith) in
      let whole : offset a % align + (align - offset a % align) ≡ align = omega arith in
      rw e (record {
        short = omega arith;
        reaches =
            sym (mod-add-mod (offset a) align (align - offset a % align))
            ∙ rw whole (mod_self align);
        first = λ k l. omega (arith, mod-add-small (offset a) k align (omega arith));
      })
  | no h ↦
      let e : offset a % align ≡ 0 = omega arith in
      let whole : align - offset a % align ≡ align = omega arith in
      let none_missing : padding align (offset a) ≡ 0 =
        ap (λ n. n % align) whole ∙ mod_self align in
      rw none_missing (record { short = p; reaches = rw add-zero e; first = λ k l. elim l [ ] })
]

-- The powers of two halve to one.
power_of_halves : (fuel n : ℕ) → halves_to_one fuel n ≡ true → (k : ℕ) × (n ≡ 2 ^ k)
unfolding halves_to_one
power_of_halves zero n h = ground (arith, h)
power_of_halves (suc fuel) n h = elim (Bool-cases (n == 1)) [
  | inl one ↦ (0, ground (arith, one))
  | inr more ↦
      let (k, e) = power_of_halves fuel (n / 2) (ground (arith, h, more)) in
      let even : n % 2 ≡ 0 = ground (arith, h, more) in
      (suc k, omega (arith, even, e, pow-succ' 2 k))
]

halves-power : (k fuel : ℕ) → k < fuel → halves_to_one fuel (2 ^ k) ≡ true
unfolding halves_to_one
halves-power k zero l = elim l [ ]
halves-power zero (suc fuel) l = ground arith
halves-power (suc k) (suc fuel) l =
    let half : 2 ^ suc k / 2 ≡ 2 ^ k = omega (arith, pow-succ' 2 k) in
    let even : 2 ^ suc k % 2 ≡ 0 = omega (arith, pow-succ' 2 k) in
    rw (half, even) (ground (arith, halves-power k fuel (omega arith)))

below-power : (k : ℕ) → k < 2 ^ k
below-power zero = omega arith
below-power (suc k) = omega (arith, below-power k, pow-succ' 2 k)

-- For a power of two, `align_to` leaves the start and the bytes of the area and appends zeroes, fewer
-- than the alignment and just enough for the offset to be a multiple of it; for any other alignment
-- its assertion panics.
pub align_to_cases :
    (a : ByteArea) (align : ℕ)
    → ((k : ℕ) × (align ≡ 2 ^ k)
        × (b : ByteArea) × (align_to a align ≡ some b)
        × Padded a align (padding align (offset a)) b)
      ⊎ (((k : ℕ) → ¬ (align ≡ 2 ^ k)) × (align_to a align ≡ none))
unfolding align_to is_power_of_two
align_to_cases a align = elim (Bool-cases (is_power_of_two align)) [
  | inl h ↦
      let (k, e) = power_of_halves align align h in
      let m = padding-Missing a align (omega (arith, e, below-power k)) in
      inl (
        k,
        e,
        align_loop align a align,
        rw h refl,
        align_loop-Padded align (padding align (offset a)) a align m.short m,
      )
  | inr h ↦ inr (
    λ k e.
        let whole : is_power_of_two align ≡ true =
          subst (λ n. is_power_of_two n ≡ true) (sym e) (halves-power k (2 ^ k) (below-power k)) in
        cc (h, whole),
    rw h refl,
  )
]
