-- ===== src/Encoding.antt =====
-- What the code uses of encoding/base64 and encoding/hex.
pub mod Base64
pub mod Hex
