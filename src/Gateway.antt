-- ===== src/Gateway.antt =====
-- The FMI gateway (dse/fmigateway), which runs a co-simulation inside an FMU.
pub mod State
pub mod Environment
pub mod Session
pub mod Lifecycle
mod Tests
