-- ===== src/Indexer/Consumer.antt =====
-- internal/indexer/consumer/event_consumer.go: the store of events and blocks as an interface, and
-- the three operations of the consumer on it. A call returns whether it succeeded and the new state.
use defi_demo.Base.{ℕ, ◌-◌, ◌≡◌, Bool, true, false, ◌&&◌, ltb, nat_eq, ◌==◌, leb, if◌then◌else◌}
use defi_demo.Types.{BlockHeader, ChainEvent}

pub record EventStore : Type 1 where
  pub Store : Type 0
  pub save_event : ChainEvent → Store → Bool × Store
  pub save_block : BlockHeader → Store → Bool × Store
  pub update_sync_status : ℕ → ℕ → Store → Bool × Store
  pub delete_events_from_block : ℕ → ℕ → Store → Bool × Store
  pub delete_blocks_from_block : ℕ → ℕ → Store → Bool × Store
  -- The block number, which the caller uses also beside an error.
  pub get_sync_status : ℕ → Store → Bool × ℕ

module _ (db : EventStore) where
  open db use {
    Store, save_event, save_block, update_sync_status, delete_events_from_block,
    delete_blocks_from_block,
  }

  unfoldable pub process_event : ChainEvent → Store → Bool × Store
  process_event ev s = save_event ev s

  unfoldable pub process_block : BlockHeader → Store → Bool × Store
  process_block header s =
      let (saved, s1) = save_block header s in
      if saved then update_sync_status header.chain_id header.number s1 else (false, s1)

  -- The blocks' part of HandleReorg, and the sync status before the fork.
  unfoldable pub drop_blocks : ℕ → ℕ → Store → Bool × Store
  drop_blocks chain_id from_block s =
      let (dropped, s1) = delete_blocks_from_block chain_id from_block s in
      if dropped
      then (if ltb 0 from_block
          then update_sync_status chain_id (from_block - 1) s1
          else (true, s1))
      else (false, s1)

  unfoldable pub handle_reorg : ℕ → ℕ → Store → Bool × Store
  unfolding drop_blocks
  handle_reorg chain_id from_block s =
      let (dropped, s1) = delete_events_from_block chain_id from_block s in
      if dropped then drop_blocks chain_id from_block s1 else (false, s1)

-- What a store documents of calls that succeed, seen through the blocks that it holds, its sync
-- status and its events. A failed SaveEvent saves nothing that was not there.
pub record StoreLaws (db : EventStore) : Type 1 where
  pub has_block : db.Store → ℕ → ℕ → Bool
  pub synced : db.Store → ℕ → ℕ
  pub Saved : db.Store → ChainEvent → Type 0
  pub save_event-has_block :
      (e : ChainEvent) (s : db.Store) (c n : ℕ)
      → has_block (db.save_event e s).1 c n ≡ has_block s c n
  pub save_event-synced :
      (e : ChainEvent) (s : db.Store) (c : ℕ) → synced (db.save_event e s).1 c ≡ synced s c
  pub save_event-Saved :
      (e : ChainEvent) (s : db.Store) → (db.save_event e s).0 ≡ true → Saved (db.save_event e s).1 e
  pub save_event_keeps :
      (e f : ChainEvent) (s : db.Store) → Saved s f → Saved (db.save_event e s).1 f
  pub save_block-has_block :
      (h : BlockHeader) (s : db.Store) (c n : ℕ)
      → (db.save_block h s).0 ≡ true
      → has_block (db.save_block h s).1 c n
        ≡ (if h.chain_id == c && h.number == n then true else has_block s c n)
  pub save_block-synced :
      (h : BlockHeader) (s : db.Store) (c : ℕ) → synced (db.save_block h s).1 c ≡ synced s c
  pub update-has_block :
      (c m : ℕ) (s : db.Store) (d n : ℕ)
      → has_block (db.update_sync_status c m s).1 d n ≡ has_block s d n
  pub update-synced :
      (c m : ℕ) (s : db.Store) (d : ℕ)
      → (db.update_sync_status c m s).0 ≡ true
      → synced (db.update_sync_status c m s).1 d ≡ (if c == d then m else synced s d)
  pub delete_events-has_block :
      (c m : ℕ) (s : db.Store) (d n : ℕ)
      → has_block (db.delete_events_from_block c m s).1 d n ≡ has_block s d n
  pub delete_blocks-has_block :
      (c m : ℕ) (s : db.Store) (d n : ℕ)
      → (db.delete_blocks_from_block c m s).0 ≡ true
      → has_block (db.delete_blocks_from_block c m s).1 d n
        ≡ (if c == d && leb m n then false else has_block s d n)
