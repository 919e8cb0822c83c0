-- ===== src/Auth.antt =====
-- src/auth: the tokens of the authentication exchange.
pub mod Spnego
