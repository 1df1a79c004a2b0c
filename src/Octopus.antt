-- ===== src/Octopus.antt =====
-- The octopus package (pkg/octopus): the wire format of the requests to the database and of its
-- responses.
pub mod Wire
pub mod Request
pub mod Response
pub mod Connecting
pub mod Mock
pub mod Options
