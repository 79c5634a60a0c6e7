-- ===== src/Protocol.antt =====
-- crates/device-protocol/src: the messages that a reader and the backend exchange. Each child is
-- about the file of its name; Synchronization, Acknowledgement and their children are about
-- synchronization.rs.
pub mod Version
pub mod Presentation
pub mod Synchronization
pub mod Acknowledgement
pub mod Encoding
pub mod Fingerprint
pub mod PayloadFingerprint
pub mod Examples
