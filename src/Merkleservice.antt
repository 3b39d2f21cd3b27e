-- ===== src/Merkleservice.antt =====
-- internal/merkleservice: from sealed subtrees to the BUMP of each token.
pub mod BumpEntry
pub mod Fragment
pub mod Serialize
pub mod TokenIndex
pub mod Cache
pub mod Compound
pub mod HashSlices
pub mod Jitter
pub mod Assembly
pub mod Extraction
pub mod Runtime
pub mod Legacy
pub mod Sealing
pub mod Finalize
pub mod Processing
mod Tests
