-- ===== src/Witnesses.antt =====
-- The theorems at concrete inputs.
mod Pool
mod Connections
mod Qualities
mod Hosts
mod Sound
mod Safety
