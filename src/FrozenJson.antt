-- ===== src/FrozenJson.antt =====
-- kestrel_sdk/_frozen_json.py: the bounded deep-freeze of JSON-shaped values.
pub mod Values
pub mod Walk
pub mod Canonical
pub mod Freeze
