-- ===== src/Operator.antt =====
-- kestrel_sdk/operator: the authenticated context of an operator, and the contracts of runs.
pub mod Context
pub mod Launches
pub mod Records
pub mod Controls
pub mod Pages
pub mod Percent
pub mod Hrefs
pub mod Discovery
mod Tests
