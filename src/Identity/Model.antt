-- ===== src/Identity/Model.antt =====
-- The tables of the identity module and what a request carries (identity.go). Times are nanoseconds since
-- the epoch. The recovery hashes are the decoded array of their column; a cell of JSON that does not decode
-- is left out.
use nexa_panel.Prelude.{ℕ, Bool, Option, List, Text}

pub record UserModel : Type 0 where
  pub id : Text
  pub username : Text
  pub role : Text
  pub totp_secret_encrypted : Option Text
  pub totp_confirmed_at : Option ℕ
  pub totp_last_step : ℕ
  pub recovery_code_hashes : List Text

pub record SessionModel : Type 0 where
  pub id : Text
  pub user_id : Text
  pub token_hash : Text
  pub created_at : ℕ
  pub expires_at : ℕ
  pub last_seen_at : ℕ
  pub mfa_verified_at : Option ℕ
  pub csrf_token_hash : Text

pub record Db : Type 0 where
  pub users : List UserModel
  pub sessions : List SessionModel

pub record Principal : Type 0 where
  pub id : Text
  pub username : Text
  pub role : Text
  pub session_id : Text
  pub token_hash : Text
  pub csrf_token_hash : Text
  pub mfa_verified_at : Option ℕ
  pub totp_confirmed_at : Option ℕ

pub record Request : Type 0 where
  pub method : Text
  pub path : Text
  pub host : Text
  pub cookie : Option Text
  pub origin : Text
  pub sec_fetch_site : Text
  pub referer : Text
  pub csrf_token : Text
  pub background : Text

-- Outside the module: crypto/sha256, the host of a URL that `url.Parse` accepts, and `strings.EqualFold`;
-- `strings.ToUpper`; decryption of a stored secret; the bytes of base32 text; the HMAC code of a step; and
-- the hash of a recovery code.
pub record Outside : Type 0 where
  pub sha256 : Text → Text
  pub url_host : Text → Option Text
  pub equal_fold : Text → Text → Bool
  pub decrypt : Text → Text → Option Text
  pub to_upper : Text → Text
  pub base32 : Text → Option Text
  pub totp_code : Text → ℕ → Text
  pub hash_recovery_code : Text → Text
