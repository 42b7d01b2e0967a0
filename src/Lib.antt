-- ===== src/Lib.antt =====
-- reachmydevice: remote desktop over WebRTC, with a rendezvous server that introduces the two sides.
--
-- The program. A host lets a viewer see and control its screen. Both find each other through the
-- rendezvous server (apps/rendezvous), whose hub relays signaling texts between the devices of one
-- account (`/ws`) or between the two members of a pairing room (`/ws/pair`). A viewer that is not in
-- the account pairs by a code or a ticket (crates/session/src/pairing.rs). Then the two sides talk over
-- a control channel in the messages of crates/protocol: input events, which the host turns into key
-- codes (crates/input), clipboard texts and file transfers (crates/session/src/filexfer.rs). A service
-- on the host's machine talks to the agent of the user's session over a local socket (crates/ipc).
--
-- The model.
--   Prelude       shared names, Boolean tests, lists, association lists (a map's `entry`, `insert`,
--                 `remove` and `retain`) and little-endian numbers.
--   Rendezvous    apps/rendezvous/src. Throttle: throttle.rs, the login throttle. Tickets: auth.rs,
--                 `TicketStore`. Hub: signaling.rs, `Hub`. Limiter: `FrameLimiter`. Socket: the two
--                 receive tasks with the checks before them.
--   Session       crates/session/src. Pairing: pairing.rs. Constant: `tags_equal` of pairing.rs and
--                 `ct_eq` of host.rs. FileTransfer: filexfer.rs, over the file system of
--                 FileTransfer/Storage; FileTransfer/Send is the sending thread, and
--                 Send/Exchange runs both sides.
--                 Identity: identity.rs, what is signed and how it is verified, the fingerprint of
--                 an SDP text (Identity/Sdp), the key at rest (Identity/KeyFile) and the store of
--                 known peers (Identity/KnownPeers). Host: host.rs, the access checks, the password
--                 throttle (Host/Guess), `handle_control` (Host/Control), whose calls of the
--                 transport, the injector, the video and the clipboard are a list of effects, and
--                 the loop `run_host_core` around it (Host/Core). Viewer: viewer.rs, the pump, and
--                 in Viewer/Handshake and Viewer/Replay the pump with the host. Broker: broker.rs,
--                 the broker between the capture agents and the viewer; Broker/Provider is the broker
--                 without its messages, Broker/Admission the history of the agent that provides. Clipboard: clipboard.rs, and two peers in Clipboard/Settled.
--                 RendezvousClient: rendezvous.rs, the relay loop, and its attempts to connect in
--                 RendezvousClient/Dialing. PairingClient: pairing_client.rs, `pair_pake`, with the
--                 frames that the socket delivers as a list. Account: account.rs, the requests,
--                 headers and addresses of the HTTP client.
--   Codec         crates/codec/src/scale.rs, `CropRect`, over an interface of doubles.
--   Protocol      crates/protocol/src/lib.rs, the envelope constructors, and the messages of
--                 proto/rmd.proto in Protocol/Messages.
--   Ipc           crates/ipc/src/lib.rs, the framing of the agent socket.
--   Input         crates/input/src/keymap.rs.
--   Tests         the theorems at concrete inputs.
--
-- State is passed explicitly: an operation takes the state and returns the new one with what it sends.
-- A channel is a number, and a function says which channels still have a receiver; what an operation
-- sends is a list of texts with their channels, in order. Times are nanoseconds. A call that the
-- operating system may refuse takes the refusal as an argument (`Os` in Session/FileTransfer), so that
-- every error path is a value of an argument. Rust's `as` casts and atomic counters keep their
-- wrap-around (`% 2 ^ w`). The hub's locks make its operations sequential; a run of the hub is a
-- list of operations of any number of sockets in any order.
--
-- Bounds and fuel. The re-hashing loop of an offer runs on fuel one larger than the bytes that are
-- left, and every turn reads at least one byte. An exchange of both sides of a transfer runs for a given
-- number of rounds; one more than the bytes to go is enough. The reader of the agent socket, which the
-- source runs until the stream fails, runs for a given number of messages. All other loops are
-- structural.
--
-- Parameters. SHA-256, HKDF, SPAKE2, Ed25519, Argon2, XChaCha20-Poly1305, postcard and the JSON parser are
-- third-party packages: a function each, postcard with the law that a message that was encoded is decoded,
-- the cipher with the law that what was encrypted is decrypted. Where a theorem needs them, that Ed25519
-- verifies what it signed (`Signs`) and nothing else (`Unforgeable`) are hypotheses.
--
-- Not modelled: passkeys, pages and start-up of the server; capture, codecs, audio, transport and
-- the user interfaces, which call libraries and operating systems.
pub mod Prelude
pub mod Input
pub mod Rendezvous
pub mod Session
pub mod Ipc
mod Tests
pub mod Protocol
pub mod Codec
