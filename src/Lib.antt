-- ===== src/Lib.antt =====
-- STUMPT builds merkle paths (BUMPs) for the transactions of many tokens as a block is sealed in
-- subtrees. Submitted txids are cut into subtrees; a merkle store is built over each; the position of
-- every txid is filed under its token and subtree; when the block is found, a proof tree over the
-- subtree roots is added to the paths inside the subtrees, and each token gets one compound BUMP of
-- all its transactions in the BRC-74 format.
--
-- Which file models which part (paths from the repository's root):
--  - Subtree: internal/subtree/subtree.go. BuildMerkleStore is build_merkle_store, and so on, in
--    snake case. Children: Sizes (the two loops), Schedule (goroutines), Fill, Levels and Store (what
--    the store holds), Root, Proof and Paths (single proofs), AllProofs.
--  - Stump: internal/stump. Xor (XORKey), Store and MemStore (the two stores), History (both
--    after any writes), TxidIndex, Registry, Discovery (Discover). The Go interface StumpStore is the
--    record StumpStore of its four methods, which Discover takes and both stores implement.
--  - Diskstore: internal/diskstore. Encoding (encoding.go, with a child for each codec), Keys (the
--    keys of the stores, and compareKeys as an order), Database (Badger as an interface, with a
--    database in memory that meets it, and the loops that cut batches), TxidList (txid_list.go),
--    TxidIndex (txid_index.go), StumpStore (stump_store.go) and Fragments (fragment.go and
--    miner_subtree.go).
--  - Merkleservice: internal/merkleservice. BumpEntry, Fragment (MarshalFragment, UnmarshalFragment),
--    Serialize (serializeBUMP, and in Reader a reader of BRC-74 written for the proofs), TokenIndex
--    (TokenSubtreeIndex), Cache (subtreeCache), Extraction (bitsets, extractSubtreeFragment,
--    assembleTokenBUMPFast), Assembly (the shared steps and assembleTokenBUMPFromFragments), Compound
--    (accumulateProof, buildCompoundBUMP), Legacy (assembleTokenBUMP), Jitter and HashSlices (the
--    helpers of registry.go), Sealing (SealSubtreesToDisk, with Index for the token index), Finalize
--    (FinalizeBlock), Processing (ProcessBUMPs) and Runtime (what the phases take from Go's libraries
--    and the machine).
--  - Config: internal/config/config.go.
--  - Base: lists, maps, bytes, bit operations and outcomes that the parts share.
--
-- State is passed explicitly, and an operation that holds its lock is one step. The goroutines of a
-- merkle level are lists of steps, and a parameter, the schedule, picks an interleaving of them;
-- theorems assume only that it interleaves. A call that can fail returns Run (a value, an error, or a
-- panic) or Option, where none is a panic. A Go map is an association list. A hash is the list of its
-- bytes; a pointer to a hash is the hash.
--
-- The phases share one database. Sealing writes the leaves and the store of each miner's subtree,
-- files the positions of each token, and writes the fragments; finalization draws a winner, replaces
-- the coinbase in its first subtree and writes that again; processing reads the winner's fragments, or
-- its subtrees through the cache, and assembles one BUMP for each token. The workers take the tokens
-- in the order of a parameter, and the work on one token is one step.
--
-- Parameters: Badger (the record Database: transactions, write batches that may fail after a part of
-- them, scans in key order; Database.Memory is an instance), SHA-256, the number of processors, the
-- schedule, sort.Ints and sort.Slice, the random draws and the float arithmetic of the jitter, the
-- printing and scanning of token names, and the memory of the machine.
--
-- Fuel: next_power_of_two and log2_ceil run 64 rounds on ints with their wrap-around, which suffices
-- up to 2 ^ 62; above it the loops of the source do not end, and no slice of hashes is that long. level_loop runs as many rounds as the level has nodes, and halves them each round. Everything
-- else is structural recursion.
--
-- Ints: an offset of a BUMP entry is a uint64 and wraps around; an int32 position of the token index is
-- its bit pattern, extended by its sign where the source converts it to an int.
--
-- Not modelled: the opening and closing of Badger, timings, logs and the dump of a BUMP to a file, the
-- metrics printout, the harness, the printed configuration and the reading of the system's memory.
pub mod Base
pub mod Config
pub mod Diskstore
pub mod Merkleservice
pub mod Stump
pub mod Subtree
