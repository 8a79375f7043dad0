-- ===== src/Payers.antt =====
-- kestrel_sdk/payer_policy.py: who pays for which metered resource, and which combinations of
-- resource, vendor and payer are supported. `Usd` is the type of money, Python's `Decimal`, and
-- `negative` its comparison with zero.
pub mod Matrix
pub mod Policies
pub mod Offers
pub mod Accepted
pub mod Refused
mod Tests
