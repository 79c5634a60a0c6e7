-- ===== src/Persistence.antt =====
-- crates/persistence/src: the stores of the backend and of a reader. The databases are not part of the
-- repository: a table is a list of rows, and a statement that the code sends is the function on rows
-- that it describes.
pub mod Codec
pub mod ReaderStore
pub mod ReaderQueue
pub mod ReaderQueueState
pub mod ReaderSync
pub mod ReaderSyncState
mod Examples
