-- ===== src/Models/Accounts.antt =====
-- backend/authentication/models.py
use mifos_test.Prelude.{ℕ, Bool, true, false, List, Text, Option}

-- `User.Role`
pub data Role : Type 0 where
  super_admin support auditor finance : Role
  ceo branch_manager loan_officer cashier member : Role

abbrev pub is_super_admin : Role → Bool
is_super_admin Role.super_admin = true
is_super_admin _ = false

abbrev pub is_ceo : Role → Bool
is_ceo Role.ceo = true
is_ceo _ = false

-- `tenant` is `none` for platform staff.
pub record User : Type 0 where
  pub id : ℕ
  pub tenant : Option ℕ
  pub email : Text
  pub password : Text
  pub phone_number : Text
  pub first_name : Text
  pub last_name : Text
  pub role : Role
  pub branch_id : Option ℕ
  pub is_platform_staff : Bool
  pub is_superuser : Bool
  pub is_active : Bool
  pub is_staff : Bool
  pub is_email_verified : Bool
  pub mfa_enabled : Bool
  pub mfa_secret_encrypted : Option Text
  pub failed_login_attempts : ℕ
  pub locked_until : Option ℕ
  pub password_changed_at : Option ℕ
  pub last_login_ip : Option Text

pub record ApiKey : Type 0 where
  pub id : ℕ
  pub tenant : ℕ
  pub name : Text
  pub key_prefix : Text
  pub key_hash : Text
  pub scopes : List Text
  pub is_active : Bool
  pub last_used_at : Option ℕ
  pub expires_at : Option ℕ
  pub created_by : Option ℕ

pub record LoginSession : Type 0 where
  pub id : ℕ
  pub user : ℕ
  pub refresh_token_hash : Text
  pub device_fingerprint : Text
  pub ip_address : Text
  pub user_agent : Text
  pub is_revoked : Bool
  pub created_at : ℕ
  pub expires_at : ℕ
