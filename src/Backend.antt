-- ===== src/Backend.antt =====
-- okxquant_backend/: the services behind the web interface.
pub mod Admin
