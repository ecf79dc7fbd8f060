-- ===== src/Fmu.antt =====
-- dse/fmu: the FMU library.
pub mod Step
pub mod Stream
pub mod Vref
pub mod Instance
pub mod Create
pub mod Flags
pub mod Log
pub mod Binary
pub mod Trace
pub mod Variables
pub mod Signals
pub mod Fmi3
pub mod Tests
pub mod Scalar
