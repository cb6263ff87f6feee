-- ===== src/Tests.antt =====
-- Concrete inputs at which the theorems are applied.
mod World
mod Store
mod Stanzas
mod Streams
mod Socks
mod Files
mod Candidates
mod Delivery
mod Offers
mod Start
