-- ===== src/Inference.antt =====
-- kestrel_sdk/llm/inference_lease.py: requests, provider capabilities, quotes and leases of private
-- inference capacity.
pub mod Constraints
pub mod Leases
pub mod Honored
pub mod Quotable
mod Tests
