-- ===== src/Examples.antt =====
-- Concrete inputs for the theorems of the other files.
mod Data
mod Codecs
mod Digests
mod Keys
mod Devices
mod Sessions
mod Texts
