-- ===== src/Models/Tenancy.antt =====
-- backend/organizations/models.py and backend/tenants/models.py
use mifos_test.Prelude.{ℕ, Bool, true, false, Text, Option}

pub data OrgType : Type 0 where
  sacco chama mfi lender : OrgType

pub record Organization : Type 0 where
  pub id : ℕ
  pub legal_name : Text
  pub trading_name : Text
  pub org_type : OrgType
  pub registration_number : Text
  pub country : Text
  pub contact_email : Text
  pub contact_phone : Text
  pub kyc_verified : Bool

-- `Tenant.Status`
pub data TenantStatus : Type 0 where
  pending provisioning initializing ready failed suspended : TenantStatus

abbrev pub is_ready : TenantStatus → Bool
is_ready TenantStatus.ready = true
is_ready _ = false

abbrev pub is_suspended : TenantStatus → Bool
is_suspended TenantStatus.suspended = true
is_suspended _ = false

abbrev pub is_pending : TenantStatus → Bool
is_pending TenantStatus.pending = true
is_pending _ = false

pub record Tenant : Type 0 where
  pub id : ℕ
  pub organization : ℕ
  pub tenant_code : Text
  pub db_name : Text
  pub db_user : Text
  pub db_host : Text
  pub db_port : ℕ
  pub fineract_tenant_identifier : Text
  pub status : TenantStatus
  pub is_active : Bool
  pub provisioned_at : Option ℕ
  pub suspended_at : Option ℕ
  pub suspension_reason : Text

pub record Domain : Type 0 where
  pub id : ℕ
  pub tenant : ℕ
  pub hostname : Text
  pub is_primary : Bool
  pub is_custom : Bool
  pub ssl_verified : Bool

-- One row to a tenant: the relation is one to one.
pub record EncryptedCredential : Type 0 where
  pub tenant : ℕ
  pub db_password_encrypted : Text
