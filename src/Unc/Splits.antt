-- ===== src/Unc/Splits.antt =====
-- A text with one separator between two parts is split there.
use smb1client_rs.Base.{ℕ, ◌≡◌, refl, ap, false, none, some, [], ◌∷◌, ◌++◌, arith}
use smb1client_rs.SharePath.{Text, backslash, has_char}
use smb1client_rs.Unc.{rsplit_once, split_once, strip_suffix}

pub rsplit_once_absent : (k : ℕ) (s : Text) → has_char k s ≡ false → rsplit_once k s ≡ none
unfolding rsplit_once has_char
rsplit_once_absent k [] h = refl
rsplit_once_absent k (c ∷ s) h = rw (rsplit_once_absent k s (ground (arith, h))) (ground (arith, h))

pub rsplit_once-append :
    (k : ℕ) (s t : Text) → has_char k t ≡ false → rsplit_once k (s ++ k ∷ t) ≡ some (s, t)
unfolding rsplit_once
rsplit_once-append k [] t h = rw (rsplit_once_absent k t h) (ground arith)
rsplit_once-append k (c ∷ s) t h = rw (rsplit_once-append k s t h) refl

pub split_once-append :
    (k : ℕ) (s t : Text) → has_char k s ≡ false → split_once k (s ++ k ∷ t) ≡ some (s, t)
unfolding split_once has_char
split_once-append k [] t h = ground arith
split_once-append k (c ∷ s) t h =
    rw (split_once-append k s t (ground (arith, h))) (ground (arith, h))

pub strip_suffix_absent : (s : Text) → has_char backslash s ≡ false → strip_suffix s ≡ s
unfolding strip_suffix has_char
strip_suffix_absent [] h = refl
strip_suffix_absent (c ∷ []) h = ground (arith, h)
strip_suffix_absent (c ∷ d ∷ s) h =
    ap (λ t. c ∷ t) (strip_suffix_absent (d ∷ s) (ground (arith, h)))
