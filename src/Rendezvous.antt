-- ===== src/Rendezvous.antt =====
-- apps/rendezvous: the rendezvous server.
pub mod Throttle
pub mod Tickets
pub mod Hub
pub mod Limiter
pub mod Socket
pub mod Api
