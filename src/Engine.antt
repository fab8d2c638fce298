-- ===== src/Engine.antt =====
-- internal/engine: streaming statistics, and the detector built on them. Every type is over the
-- floats `F`, whose operations are an instance argument.
pub mod Alpha
pub mod Ewma
pub mod Stats
pub mod Detector
pub mod Welford
