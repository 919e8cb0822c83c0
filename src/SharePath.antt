-- ===== src/SharePath.antt =====
-- `SharePath` of src/unc.rs and the paths that src/path.rs makes of one. A string is the list of its
-- code points.
pub mod Escape
pub mod Normal
mod Tests
use smb1client_rs.Base.{
  ℕ, zero, suc, ◌+◌, ◌-◌, Bool, true, false, ◌==◌, ◌&&◌, ◌||◌, leb, if◌then◌else◌, Option, none,
  some, List, [], ◌∷◌, ◌++◌, map, is_empty, Result, ok, err,
}

abbrev pub Text : Type 0
Text = List ℕ

abbrev pub slash : ℕ
slash = 0x2F

abbrev pub backslash : ℕ
backslash = 0x5C

abbrev dot : ℕ
dot = 0x2E

-- The refusals of `SharePath::new`, which the source tells apart by their text.
pub data PathError : Type 0 where
  null_byte : Text → PathError
  absolute : Text → PathError
  escapes : Text → PathError

-- `char::is_whitespace`, the property White_Space of Unicode
unfoldable pub is_whitespace : ℕ → Bool
is_whitespace c =
    (leb 0x09 c && leb c 0x0D)
    || c == 0x20
    || c == 0x85
    || c == 0xA0
    || c == 0x1680
    || (leb 0x2000 c && leb c 0x200A)
    || c == 0x2028
    || c == 0x2029
    || c == 0x202F
    || c == 0x205F
    || c == 0x3000

-- `str::trim`, at the start and at the end
unfoldable pub trim_start : Text → Text
trim_start [] = []
trim_start (c ∷ s) = if is_whitespace c then trim_start s else c ∷ s

unfoldable pub trim_end : Text → Text
trim_end [] = []
trim_end (c ∷ s) =
    let rest = trim_end s in if is_empty rest && is_whitespace c then [] else c ∷ rest

-- One character of `replace('/', r"\")`
unfoldable pub separator : ℕ → ℕ
separator c = if c == slash then backslash else c

unfoldable pub replace : Text → Text
replace [] = []
replace (c ∷ s) = separator c ∷ replace s

-- `str::contains`, of one character
unfoldable pub has_char : ℕ → Text → Bool
has_char k [] = false
has_char k (c ∷ s) = c == k || has_char k s

abbrev pub starts_with : ℕ → Text → Bool
starts_with k [] = false
starts_with k (c ∷ s) = c == k

unfoldable pub ends_with : ℕ → Text → Bool
ends_with k [] = false
ends_with k (c ∷ s) = if is_empty s then c == k else ends_with k s

-- A component with one more character in front of it.
abbrev pub push_front : ℕ → List Text → List Text
push_front c [] = (c ∷ []) ∷ []
push_front c (p ∷ ps) = (c ∷ p) ∷ ps

-- `path.split('\\')`
unfoldable pub split : Text → List Text
split [] = [] ∷ []
split (c ∷ s) = if c == backslash then [] ∷ split s else push_front c (split s)

-- What the match of `escapes_share_root` takes a component for.
pub data Component : Type 0 where
  stays ascends descends : Component

unfoldable pub component : Text → Component
component [] = stays
component (c ∷ []) = if c == dot then stays else descends
component (c ∷ d ∷ []) = if c == dot && d == dot then ascends else descends
component (c ∷ d ∷ e ∷ s) = descends

-- The loop of `escapes_share_root`, with the depth so far.
pub walks_out : ℕ → List Component → Bool
walks_out depth [] = false
walks_out depth (stays ∷ cs) = walks_out depth cs
walks_out zero (ascends ∷ cs) = true
walks_out (suc depth) (ascends ∷ cs) = walks_out depth cs
walks_out depth (descends ∷ cs) = walks_out (depth + 1) cs

unfoldable pub escapes_share_root : Text → Bool
escapes_share_root path = walks_out 0 (map component (split path))

-- `SharePath::new`
unfoldable pub new : Text → Result PathError Text
new path =
    let normalized = replace (trim_end (trim_start path)) in
    if has_char 0 normalized
    then err (null_byte normalized)
    else if starts_with backslash normalized
    then err (absolute normalized)
    else if escapes_share_root normalized
    then err (escapes normalized)
    else ok normalized

-- `SharePath::is_root`
unfoldable pub is_root : Text → Bool
is_root = is_empty

-- `search_pattern`
unfoldable pub search_pattern : Text → Text
search_pattern normalized =
    if is_empty normalized
    then backslash ∷ 0x2A ∷ []
    else if ends_with backslash normalized
    then normalized ++ (0x2A ∷ [])
    else normalized ++ (backslash ∷ 0x2A ∷ [])

-- `join`
unfoldable pub join : Text → Text → Text
join directory name =
    if is_empty directory
    then name
    else if ends_with backslash directory
    then directory ++ name
    else directory ++ (backslash ∷ name)
