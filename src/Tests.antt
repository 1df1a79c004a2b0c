-- ===== src/Tests.antt =====
-- Runs of the definitions, and the theorems at concrete inputs where their hypotheses hold.
pub mod Packing
pub mod Requests
pub mod Responses
pub mod Running
pub mod Acting
pub mod Pending
pub mod Clusters
pub mod Loading
pub mod Packages
pub mod Peers
pub mod Parsing
pub mod Checking
pub mod Mocking
pub mod Syncing
pub mod Options
pub mod Channels
pub mod Working
pub mod Generating
