-- ===== src/Request.antt =====
-- What a connector does with a transaction, of src/transaction.cc: bodies, arguments, and the question
-- for an intervention.
pub mod Anchored
pub mod State
pub mod Uri
pub mod Headers
pub mod Body
pub mod Arguments
pub mod AuditLog
pub mod Phases
pub mod Calls
pub mod Answer
mod Tests
