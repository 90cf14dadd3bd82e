-- ===== src/Identity/Accounts.antt =====
-- The lookups of accounts in src/sqlx_identity.rs (`account_query`).
use seiza_server.Base.{ℕ, Option, Text, text_eq, ◌==◌, find}
use seiza_server.Identity.Rows.{Account, Tables}

module _ {W : Type 0} where
  unfoldable pub account_by_id : ℕ → Tables W → Option Account
  account_by_id id t = find (λ (a : Account). a.id == id) t.accounts

  unfoldable pub account_by_email_lookup : Text → Tables W → Option Account
  account_by_email_lookup email_lookup t =
      find (λ (a : Account). text_eq a.email_lookup email_lookup) t.accounts

  unfoldable pub account_by_user_handle : Text → Tables W → Option Account
  account_by_user_handle user_handle t =
      find (λ (a : Account). text_eq a.webauthn_user_handle user_handle) t.accounts
