-- ===== src/Unc/Tests.antt =====
-- The theorems on UNC paths at the path \\nas:10445\docs.
use smb1client_rs.Base.{◌≡◌, refl, [], ◌∷◌, arith, ok}
use smb1client_rs.SharePath.{is_whitespace, has_char}
use smb1client_rs.Unc.{Server, UncPath, parse_unc, unc_to_string, is_bad, has_bad, digits}
use smb1client_rs.Unc.RoundTrip.{IsServer, IsShare, parse_unc-unc_to_string}
use smb1client_rs.Unc.Sound.{parse_unc-IsValid}

abbrev nas : Server
nas = record { host = 0x6E ∷ 0x61 ∷ 0x73 ∷ []; port = 10_445 }

abbrev docs : UncPath
docs = record { server = nas; share = 0x64 ∷ 0x6F ∷ 0x63 ∷ 0x73 ∷ [] }

nas-IsServer : IsServer nas
unfolding has_char has_bad is_bad is_whitespace
nas-IsServer = record {
  is_host = record {
    some_char = refl;
    no_open = refl;
    no_close = refl;
    no_colon = refl;
    no_bad = refl;
  };
  dialled = omega arith;
  small = omega arith;
}

docs-IsShare : IsShare docs.share
unfolding has_char
docs-IsShare = record { some_char = refl; no_null = refl; no_backslash = refl; no_slash = refl }

docs_written :
    unc_to_string docs
    ≡ 0x5C ∷ 0x5C ∷ 0x6E ∷ 0x61 ∷ 0x73 ∷ 0x3A ∷ 0x31 ∷ 0x30 ∷ 0x34 ∷ 0x34 ∷ 0x35 ∷ 0x5C ∷ 0x64
      ∷ 0x6F ∷ 0x63 ∷ 0x73 ∷ []
unfolding unc_to_string digits
docs_written = refl

parse_unc-unc_to_string_example : parse_unc (unc_to_string docs) ≡ ok docs
parse_unc-unc_to_string_example = parse_unc-unc_to_string docs nas-IsServer docs-IsShare

parse_unc-IsValid_example :
    IsServer nas × IsShare docs.share × (parse_unc (unc_to_string docs) ≡ ok docs)
parse_unc-IsValid_example =
    parse_unc-IsValid (unc_to_string docs) docs
      (parse_unc-unc_to_string docs nas-IsServer docs-IsShare)
