-- ===== src/Session.antt =====
-- crates/session: the host and viewer sessions, pairing, and file transfer.
pub mod Constant
pub mod FileTransfer
pub mod Pairing
pub mod Identity
pub mod Host
pub mod Broker
pub mod Viewer
pub mod Clipboard
pub mod RendezvousClient
pub mod Account
pub mod PairingClient
