-- ===== src/Db/Tokens.antt =====
-- packages/db/src/nextballup_db/models/password_reset.py, models/mfa.py and models/auth.py: the one-time
-- tokens, the secrets of the second factor, its recovery codes and the refresh sessions. The columns that only record where a request
-- came from are left out.
use nextballup.Prelude.{ℕ, Option}
use nextballup.Core.Text.{Text}

pub record PasswordResetToken : Type 0 where
  pub id : ℕ
  pub user_id : ℕ
  pub token_hash : Text
  pub expires_at : ℕ
  pub used_at : Option ℕ

pub record UserTotpSecret : Type 0 where
  pub id : ℕ
  pub user_id : ℕ
  pub secret_ciphertext : Text
  pub confirmed_at : Option ℕ
  pub disabled_at : Option ℕ
  pub last_used_at : Option ℕ

pub record MfaRecoveryCode : Type 0 where
  pub id : ℕ
  pub user_id : ℕ
  pub code_hash : Text
  pub used_at : Option ℕ

pub record RefreshSession : Type 0 where
  pub id : ℕ
  pub user_id : ℕ
  pub jti_hash : Text
  pub expires_at : ℕ
  pub revoked_at : Option ℕ
  pub revoked_reason : Option Text
  pub replaced_by_session_id : Option ℕ
