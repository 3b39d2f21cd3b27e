-- ===== src/Diskstore.antt =====
-- internal/diskstore: what is kept on disk.
pub mod Encoding
pub mod Keys
pub mod Database
pub mod TxidList
pub mod TxidIndex
pub mod StumpStore
pub mod Fragments
