-- ===== src/Examples/Chain.antt =====
-- The indexer on a store that succeeds, a chain of three blocks and a fork.
use defi_demo.Base.{
  ℕ, suc, ◌-◌, ◌≡◌, refl, Bool, true, false, ◌&&◌, Option, some, List, [], ◌∷◌, ◌++◌, String, arith,
  nat_eq, string_eq, ◌==◌, leb, if◌then◌else◌, get_elem?, map, ltb,
}
use defi_demo.Base.Assoc.{lookup, insert}
use defi_demo.Base.Bytes.{to_word}
use defi_demo.Base.Int.{pos}
use defi_demo.Types.{BlockHeader, ChainEvent, reserve_data_updated}
use defi_demo.Indexer.Reorg.{Detector, new_detector, record_block, detect_reorg}
use defi_demo.Indexer.Reorg.Window.{IsWindow, new_detector-IsWindow, record_block-IsWindow}
use defi_demo.Indexer.Reorg.Chain.{IsTip, record_block-IsTip, detect_reorg_next}
use defi_demo.Indexer.Parser.{Ethereum, Log, parse_log, sig_to_type, event, register}
use defi_demo.Indexer.Parser.Layout.{parse_log-reserve}
use defi_demo.Indexer.Consumer.{EventStore, StoreLaws, process_block, handle_reorg, drop_blocks}
use defi_demo.Indexer.Service.{ChainState, handle_header, handle_logs, run_chain}
use defi_demo.Indexer.Service.Ticks.{IsChain, run_chain-poll_tick}
use defi_demo.Listener.{Node, poll_tick}
use defi_demo.Indexer.Service.Reorgs.{handle_header_gap}
use defi_demo.Indexer.Service.Events.{AllSaved, handle_logs-AllSaved}

-- The block `n` of a chain whose hashes are the numbers.
abbrev block : ℕ → BlockHeader
block n = record { chain_id = 1; number = n; hash = n; parent_hash = n - 1; timestamp = n }

abbrev detector : Detector
detector = record_block (new_detector (pos 2)) (block 10)

detector-IsTip : IsTip 2 detector (block 10)
detector-IsTip =
    record_block-IsTip 2 0 (new_detector (pos 2)) (block 10) (new_detector-IsWindow 2) (omega arith)
      (omega arith) (omega arith) (omega arith)

record_block-IsWindow_example :
    IsWindow 2 11 (record_block detector (block 11))
    × (lookup 10 (record_block detector (block 11)).block_hashes ≡ lookup 10 detector.block_hashes)
record_block-IsWindow_example =
    record_block-IsWindow 2 10 detector (block 11) detector-IsTip.window (omega arith) (omega arith)
      (omega arith) (omega arith) 10 (omega arith)

-- Numbers for the seven signatures, by their first letters and lengths; a topic is an address.
abbrev eth : Ethereum
eth = record {
  keccak256_hash = λ (t : String).
      if t == "ReserveDataUpdated(address,uint256,uint256,uint256,uint256)" then 6 else 1;
  hex_to_address = λ (t : ℕ). t;
}

abbrev reserve_log : Log
reserve_log = record {
  address = 40;
  topics = 6 ∷ 41 ∷ [];
  bytes = to_word 32 1 ++ (to_word 32 2 ++ (to_word 32 3 ++ (to_word 32 4 ++ [])));
  block_number = 11;
  tx_hash = 5;
  index = 0;
}

reserve_known : lookup 6 (sig_to_type eth) ≡ some reserve_data_updated
unfolding sig_to_type register lookup insert
reserve_known = refl

parse_log-reserve_example :
    (ev : ChainEvent) × (parse_log eth 1 0 reserve_log ≡ event ev)
    × (ev.market_address ≡ 41)
    × (lookup "liquidity_rate" ev.payload ≡ some 1)
    × (lookup "stable_borrow_rate" ev.payload ≡ some 2)
    × (lookup "variable_borrow_rate" ev.payload ≡ some 3)
    × (lookup "liquidity_index" ev.payload ≡ some 4)
parse_log-reserve_example =
    parse_log-reserve eth 1 0 6 41 1 2 3 4 reserve_log [] [] reserve_known refl refl (omega arith)
      (omega arith) (omega arith) (omega arith)

-- The blocks that are stored, the sync status of each chain, and the events.
record Tables : Type 0 where
  blocks : ℕ → ℕ → Bool
  status : ℕ → ℕ
  events : List ChainEvent

-- A database whose calls all succeed.
abbrev database : EventStore
database = record {
  Store = Tables;
  save_event = λ (e : ChainEvent) (s : Tables). (true, record s { events = e ∷ s.events });
  save_block = λ (h : BlockHeader) (s : Tables). (
    true,
    record s {
      blocks = λ (c n : ℕ). if h.chain_id == c && h.number == n then true else s.blocks c n;
    },
  );
  update_sync_status = λ (c m : ℕ) (s : Tables).
      (true, record s { status = λ (d : ℕ). if c == d then m else s.status d });
  delete_events_from_block = λ (c m : ℕ) (s : Tables). (true, s);
  delete_blocks_from_block = λ (c m : ℕ) (s : Tables).
      (true, record s { blocks = λ (d n : ℕ). if c == d && leb m n then false else s.blocks d n });
  get_sync_status = λ (c : ℕ) (s : Tables). (true, s.status c);
}

abbrev database_laws : StoreLaws database
database_laws = record {
  has_block = λ (s : Tables). s.blocks;
  synced = λ (s : Tables). s.status;
  Saved = λ (s : Tables) (e : ChainEvent). (i : ℕ) × (get_elem? s.events i ≡ some e);
  save_event-has_block = λ e s c n. refl;
  save_event-synced = λ e s c. refl;
  save_event-Saved = λ e s ok. (0, refl);
  save_event_keeps = λ e f s k. (suc k.0, k.1);
  save_block-has_block = λ h s c n ok. refl;
  save_block-synced = λ h s c. refl;
  update-has_block = λ c m s d n. refl;
  update-synced = λ c m s d ok. refl;
  delete_events-has_block = λ c m s d n. refl;
  delete_blocks-has_block = λ c m s d n ok. refl;
}

abbrev tables : Tables
tables = record { blocks = λ (c n : ℕ). leb n 10; status = λ (c : ℕ). 10; events = [] }

abbrev state : ChainState database eth
state = record { detector = detector; store = tables; published = [] }

abbrev no_logs : ℕ → List ℕ → Option (List Log)
no_logs n topics = some []

-- A head on another chain, above the recorded block 10.
abbrev fork_head : BlockHeader
fork_head = record (block 11) { hash = 99; parent_hash = 98 }

forked : detect_reorg detector fork_head ≡ some 10
forked = detect_reorg_next 2 detector (block 10) fork_head detector-IsTip refl (omega arith)

rolled : (handle_reorg database 1 10 tables).0 ≡ true
unfolding handle_reorg drop_blocks
rolled = refl

accepted_again : (process_block database fork_head (handle_reorg database 1 10 tables).1).0 ≡ true
unfolding process_block
accepted_again = refl

handle_header_gap_example :
    (let after = handle_header database eth no_logs 0 fork_head state in
      (after.store.blocks 1 10 ≡ false)
      × (after.store.blocks 1 11 ≡ true)
      × (after.store.status 1 ≡ 11))
handle_header_gap_example =
    handle_header_gap database database_laws eth no_logs 0 fork_head state 10 forked (omega arith)
      rolled accepted_again

-- A node that has the blocks up to 12.
abbrev chain_node : Node
chain_node = record {
  World = Unit {0};
  latest_block_number = λ (w : Unit {0}). (some 12, w);
  block_by_number = λ (n : ℕ) (w : Unit {0}). (some (block n), w);
}

block-IsChain : IsChain 1 block
block-IsChain = record { numbered = λ j. refl; owned = λ j. refl; linked = λ j. omega arith }

reliable : (b : BlockHeader) (s : Tables) → (process_block database b s).0 ≡ true
unfolding process_block
reliable b s = refl

run_chain-poll_tick_example :
    (let sent = poll_tick chain_node 11 tt in
      let after = run_chain database eth no_logs 0 (map some sent.headers) state in
      (sent.next ≡ 13)
      × (after.store.status 1 ≡ 12)
      × ((j : ℕ)
          → after.store.blocks 1 j ≡ (if ltb 10 j && leb j 12 then true else tables.blocks 1 j))
      × IsTip 2 after.detector (block 12))
run_chain-poll_tick_example =
    run_chain-poll_tick 1 block block-IsChain chain_node 12 (λ j w up. refl) database database_laws
      eth no_logs 0 10 2 tt state reliable refl (omega arith) (omega arith) (omega arith)
      (omega arith) detector-IsTip refl

nothing_published : AllSaved database database_laws eth (block 11) (tables, [])
unfolding AllSaved
nothing_published = tt

handle_logs-AllSaved_example :
    AllSaved database database_laws eth
      (block 11)
      (handle_logs database eth (block 11) 0 (reserve_log ∷ []) (tables, []))
handle_logs-AllSaved_example =
    handle_logs-AllSaved database database_laws eth (block 11) 0 (reserve_log ∷ []) (tables, [])
      nothing_published
