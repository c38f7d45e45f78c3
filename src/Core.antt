-- ===== src/Core.antt =====
-- Package internal/core: the registry of sessions.
pub mod Hub
