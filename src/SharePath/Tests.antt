-- ===== src/SharePath/Tests.antt =====
-- The theorems on paths at concrete inputs.
use smb1client_rs.Base.{ℕ, ◌≤◌, ◌≡◌, ◌≢◌, ◌↔◌, refl, false, [], ◌∷◌, map, take, ok, arith}
use smb1client_rs.SharePath.{
  Text, new, replace, trim_end, trim_start, is_whitespace, separator, walks_out, split, component,
  ascends, has_char, backslash, escapes_share_root, join,
}
use smb1client_rs.SharePath.Normal.{Verdict, new-Verdict}
use smb1client_rs.SharePath.Escape.{ascents, descents, escapes_share_root_iff, escapes-join}

-- ` a/b`, and the path that it is taken for.
abbrev given : Text
given = 0x20 ∷ 0x61 ∷ 0x2F ∷ 0x62 ∷ []

abbrev taken : Text
taken = 0x61 ∷ 0x5C ∷ 0x62 ∷ []

normal_form : new given ≡ ok taken
unfolding new has_char replace trim_end trim_start is_whitespace separator escapes_share_root
    walks_out split component
normal_form = refl

taken_inside : escapes_share_root taken ≡ false
unfolding escapes_share_root walks_out split component
taken_inside = refl

new-Verdict_example : Verdict given (new given)
new-Verdict_example = new-Verdict given

escapes_share_root_iff_example : (escapes_share_root taken ≡ false) ↔ (
    (k : ℕ)
    → ascents (take k (map component (split taken)))
      ≤ descents (take k (map component (split taken))))
escapes_share_root_iff_example = escapes_share_root_iff taken

name_flat : has_char backslash (0x63 ∷ []) ≡ false
unfolding has_char
name_flat = refl

name_down : component (0x63 ∷ []) ≢ ascends
unfolding component
name_down h = ground (arith, h)

escapes-join_example : escapes_share_root (join taken (0x63 ∷ [])) ≡ false
escapes-join_example = escapes-join taken (0x63 ∷ []) taken_inside name_flat name_down
