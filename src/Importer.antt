-- ===== src/Importer.antt =====
-- dse/importer: the program that runs an FMU, of which the samples are modelled.
pub mod Csv
pub mod Bus
pub mod Tests
