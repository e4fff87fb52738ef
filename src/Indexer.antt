-- ===== src/Indexer.antt =====
-- internal/indexer: from block headers to stored and published events.
pub mod Reorg
pub mod Parser
pub mod Consumer
pub mod Service
