-- ===== src/Config.antt =====
-- internal/config: the flat configuration file, its reader, its single edit and its edit plan.
pub mod Value
pub mod Write
pub mod Keys
pub mod Edit
