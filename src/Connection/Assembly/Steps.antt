-- ===== src/Connection/Assembly/Steps.antt =====
-- What a successful `Assembly::accept` did, step by step.
use smb1client_rs.Base.{
  ℕ, ◌≡◌, sym, ◌∙◌, ap, Option, none, some, List, ◌∷◌, arith, Result, ok, >>=-eq-ok, ok-injective,
  ◌⊎◌, inl, inr,
}
use smb1client_rs.Connection.Track
use smb1client_rs.Connection.Track.{Track, is_complete, take_bytes, declare, resize, copy_at}
use smb1client_rs.Connection.Assembly.{
  Assembly, Progress, continuing, complete, progress, updated, accept, finish, reassemble,
  count_fragment, count_empty,
}
use smb1client_rs.Wire.Transaction.{TransactionResponse}

-- Inversion of a successful `Assembly::accept`.
pub record Steps (a : Assembly) (r : TransactionResponse) (a' : Assembly) : Type 0 where
  pub t : Track
  pub u : Track
  pub t_declared : declare a.parameters r.total_parameter_count ≡ ok t
  pub u_declared : declare a.payload r.total_data_count ≡ ok u
  pub t_accepted : Track.accept t r.parameter_displacement r.parameters ≡ ok a'.parameters
  pub u_accepted : Track.accept u r.data_displacement r.payload ≡ ok a'.payload

count_fragment-keeps :
    (a : Assembly) {a' : Assembly}
    → count_fragment a ≡ ok a'
    → (a'.parameters ≡ a.parameters) × (a'.payload ≡ a.payload)
unfolding count_fragment
count_fragment-keeps a e = ground arith

count_empty-keeps :
    (a : Assembly) (r : TransactionResponse) {a' : Assembly}
    → count_empty a r ≡ ok a'
    → (a'.parameters ≡ a.parameters) × (a'.payload ≡ a.payload)
unfolding count_empty
count_empty-keeps a r e = ground arith

pub accept-Steps :
    (a : Assembly) (r : TransactionResponse) {a' : Assembly} {p : Progress}
    → accept a r ≡ ok (a', p)
    → Steps a r a' × (p ≡ progress a')
unfolding accept
accept-Steps a r e =
    let (a₁, e₁, k₁) = >>=-eq-ok (count_fragment a) _ e in
    let (t, e₂, k₂) = >>=-eq-ok (declare a₁.parameters r.total_parameter_count) _ k₁ in
    let (u, e₃, k₃) = >>=-eq-ok (declare a₁.payload r.total_data_count) _ k₂ in
    let (t', e₄, k₄) = >>=-eq-ok (Track.accept t r.parameter_displacement r.parameters) _ k₃ in
    let (u', e₅, k₅) = >>=-eq-ok (Track.accept u r.data_displacement r.payload) _ k₄ in
    let (a₂, e₆, k₆) = >>=-eq-ok (count_empty (updated a₁ r t' u') r) _ k₅ in
    let kept = count_fragment-keeps a e₁ in
    let kept' = count_empty-keeps (updated a₁ r t' u') r e₆ in
    let same = ok-injective k₆ in
    let same_state = ap (λ (x : Assembly × Progress). x.0) same in
    (
      record {
        t = t;
        u = u;
        t_declared = rw kept.0 at e₂;
        u_declared = rw kept.1 at e₃;
        t_accepted = e₄ ∙ ap ok (sym kept'.0 ∙ ap (λ (x : Assembly). x.parameters) same_state);
        u_accepted = e₅ ∙ ap ok (sym kept'.1 ∙ ap (λ (x : Assembly). x.payload) same_state);
      },
      sym (ap (λ (x : Assembly × Progress). x.1) same) ∙ ap progress same_state,
    )

abbrev Delivery : Type 0
Delivery = List ℕ × List ℕ × List ℕ

-- Inversion of a delivery.
pub reassemble-cases :
    (a : Assembly) (r : TransactionResponse) (rs : List TransactionResponse) {x : Delivery}
    → reassemble a (r ∷ rs) ≡ ok (some x)
    → (a' : Assembly) × (accept a r ≡ ok (a', progress a'))
      × (((progress a' ≡ complete) × (finish a' ≡ x)) ⊎ (reassemble a' rs ≡ ok (some x)))
unfolding reassemble
reassemble-cases a r rs {x} e =
    let ((a', p), e', k) = >>=-eq-ok (accept a r) _ e in go a' p (accept-Steps a r e').1 e' k
  where
    go :
        (a' : Assembly) (p : Progress)
        → p ≡ progress a'
        → accept a r ≡ ok (a', p)
        → (elim p as (λ q. Result Track.ReassemblyError (Option Delivery)) [
          | complete ↦ ok (some (finish a'))
          | continuing ↦ reassemble a' rs
        ])
          ≡ ok (some x)
        → (a' : Assembly) × (accept a r ≡ ok (a', progress a'))
          × (((progress a' ≡ complete) × (finish a' ≡ x)) ⊎ (reassemble a' rs ≡ ok (some x)))
    go a' complete l e' k = (a', e' ∙ ap (λ (q : Progress). ok (a', q)) l, inl (sym l, cc))
    go a' continuing l e' k = (a', e' ∙ ap (λ (q : Progress). ok (a', q)) l, inr k)

-- Inversion of a wait.
pub reassemble-waiting :
    (a : Assembly) (r : TransactionResponse) (rs : List TransactionResponse)
    → reassemble a (r ∷ rs) ≡ ok none
    → (a' : Assembly) × (p : Progress) × (accept a r ≡ ok (a', p)) × (reassemble a' rs ≡ ok none)
unfolding reassemble
reassemble-waiting a r rs e = let ((a', p), e', k) = >>=-eq-ok (accept a r) _ e in go a' p e' k
  where
    go :
        (a' : Assembly) (p : Progress)
        → accept a r ≡ ok (a', p)
        → (elim p as (λ q. Result Track.ReassemblyError (Option Delivery)) [
          | complete ↦ ok (some (finish a'))
          | continuing ↦ reassemble a' rs
        ])
          ≡ ok none
        → (a' : Assembly) × (p : Progress) × (accept a r ≡ ok (a', p))
          × (reassemble a' rs ≡ ok none)
    go a' complete e' k = cc
    go a' continuing e' k = (a', continuing, e', k)
