-- ===== src/Wire/Andx.antt =====
-- src/wire/andx.rs: the prologue of an AndX command, and the rule that nothing is chained.
use smb1client_rs.Base.{ℕ, ◌==◌, if◌then◌else◌, Result, ok, err}
use smb1client_rs.Wire.Error.{WireError, chained_command}

abbrev pub no_further_command : ℕ
no_further_command = 0xFF

pub record AndX : Type 0 where
  pub command : ℕ
  pub reserved : ℕ
  pub offset : ℕ

-- `AndX::NONE`
abbrev pub none : AndX
none = record { command = no_further_command; reserved = 0; offset = 0 }

unfoldable pub refuse_chaining : AndX → Result WireError (Unit {0})
refuse_chaining a =
    if a.command == no_further_command then ok tt else err (chained_command a.command)
