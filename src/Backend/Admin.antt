-- ===== src/Backend/Admin.antt =====
-- okxquant_backend/admin_auth.py: the administrators' accounts and sessions, in a SQLite file.
pub mod Accounts
pub mod Login
pub mod Sessions
pub mod Manage
pub mod Actions
pub mod Valid
pub mod RulerRows
pub mod Rulers
pub mod Lockout
pub mod Absent
pub mod Revoked
pub mod Grant
pub mod Created
mod Tests
