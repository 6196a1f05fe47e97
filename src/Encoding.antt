-- ===== src/Encoding.antt =====
-- The parts of Go's encoding/base64, fmt and strings that the program uses.
pub mod Base64
pub mod Fmt
pub mod Space
