-- ===== src/Platform.antt =====
-- internal/platform: the commands that set up the device and the routes.
pub mod Linux
pub mod Windows
