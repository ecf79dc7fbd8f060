-- ===== src/Fmimcl.antt =====
-- dse/fmimcl: the FMI model compatibility library.
pub mod Signals
pub mod Parser
pub mod Engine
pub mod Adapter
mod Tests
