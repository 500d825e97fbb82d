-- ===== src/Fraud.antt =====
-- services/fraud: the fraud service.
pub mod Cache
pub mod Retry
pub mod Action
pub mod Services
pub mod Windows
pub mod Processor
pub mod Main
