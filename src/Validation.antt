-- ===== src/Validation.antt =====
-- kestrel_sdk/_validation.py: the checks of texts that the public contracts share.
pub mod Codepoints
pub mod Tokens
pub mod Texts
mod Tests
pub mod Versions
