-- ===== src/Models.antt =====
-- The rows of the registry database: one record for each model class of backend/*/models.py. A
-- primary key (a UUID, or the integer of the audit log) is only compared, so it is a number, and a
-- foreign key is the number of the row that it names. Times are seconds. The columns that Django
-- fills in by `auto_now_add` and `auto_now` are left out where no code reads them.
mod Tenancy
mod Accounts
mod Work
pub use Tenancy.*
pub use Accounts.*
pub use Work.*
