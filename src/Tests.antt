-- ===== src/Tests.antt =====
-- A concrete environment, runs of the program in it, and the theorems at concrete inputs.
mod Codec
mod Engine
mod World
mod Run
mod Keys
mod Ciphers
mod Mocks
mod Sessions
mod Webs
mod Schemata
mod Syncs
mod Keyed
mod Apps
mod Services
mod Tags
mod Unfinished
