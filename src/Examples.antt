-- ===== src/Examples.antt =====
-- The theorems at concrete inputs, for all of knotlink-sdk-python/knotlink/knotlink/.
mod Connection
mod Maps
mod Requests
mod Toolkit
mod QtClients
mod QtRoles
mod Services
mod Races
mod Streams
mod Writers
mod Encodings
mod Queries
mod Endings
