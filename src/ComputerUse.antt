-- ===== src/ComputerUse.antt =====
-- kestrel_sdk/resources.py and kestrel_sdk/computer_use: environments, sessions, the custody of an
-- acquisition, and human control.
pub mod Resources
pub mod Environments
pub mod Acquisition
pub mod Sessions
pub mod HumanControl
