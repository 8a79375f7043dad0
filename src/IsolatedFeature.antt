-- ===== src/IsolatedFeature.antt =====
-- kestrel_sdk/isolated_feature/protocol.py: the line-delimited JSON-RPC between a host and its
-- isolated features.
pub mod Values
pub mod Messages
pub mod Execution
pub mod Ingress
pub mod StdioWriter
pub mod Metadata
mod Tests
