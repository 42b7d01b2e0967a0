-- ===== src/Tests.antt =====
-- The theorems at concrete inputs, part by part.
mod PairingClient
mod Api
mod Rendezvous
mod Input
mod Pairing
mod Ipc
mod FileTransfer
mod Host
mod Broker
mod Viewer
mod Identity
mod Clipboard
mod RendezvousClient
