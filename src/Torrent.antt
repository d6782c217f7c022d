-- ===== src/Torrent.antt =====
-- torrent-client/: messages, handshakes, lists of peers, and the download of a piece.
pub mod Bytes
pub mod Message
pub mod Handshake
pub mod Peers
pub mod Download
