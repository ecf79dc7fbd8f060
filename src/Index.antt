-- ===== src/Index.antt =====
-- The indexes of signals by value reference: dse/fmigateway/index.c and dse/fmimodelc/runtime.c.
pub mod Vectors
pub mod Latest
pub mod Each
pub mod Gateway
pub mod Modelc
pub mod Tests
