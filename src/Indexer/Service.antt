-- ===== src/Indexer/Service.antt =====
-- internal/indexer/service.go: runChain, over the headers that the listener delivers.
-- The chain adapter answers FilterLogs; what is sent to Kafka is the list `published`, newest last,
-- each event under its key, the chain and the block number. A publishing error is only logged.
pub mod Reorgs
pub mod Events
pub mod Follows
pub mod Ticks
pub mod Setup
use defi_demo.Base.{
  ℕ, suc, ◌+◌, ◌%◌, ◌^◌, Bool, true, false, Option, none, some, List, [], ◌∷◌, ◌++◌, if◌then◌else◌,
}
use defi_demo.Types.{BlockHeader, ChainEvent}
use defi_demo.Indexer.Reorg.{Detector, record_block, detect_reorg, rollback}
use defi_demo.Indexer.Parser.{Ethereum, Log, Parsed, event, failed, parse_log, all_signatures}
use defi_demo.Indexer.Consumer.{EventStore, process_event, process_block, handle_reorg}

-- Under a key of two numbers, the text "chain-block" of the code.
abbrev pub Published : Type 0
Published = List (ℕ × ℕ × ChainEvent)

module _ (db : EventStore) (eth : Ethereum) where
  open db use {Store}

  pub record ChainState : Type 0 where
    pub detector : Detector
    pub store : Store
    pub published : Published

  -- A parsed event gets the block's time, is stored and, if that succeeded, published.
  unfoldable pub handle_parsed : BlockHeader → ChainEvent → Store × Published → Store × Published
  handle_parsed header parsed (s, out) =
      let ev = record parsed { timestamp = header.timestamp } in
      let (saved, s') = process_event db ev s in
      if saved then (s', out ++ (header.chain_id, header.number, ev) ∷ []) else (s', out)

  -- One log of a block.
  unfoldable pub handle_log : BlockHeader → ℕ → Log → Store × Published → Store × Published
  handle_log header now log st = elim (parse_log eth header.chain_id now log) [
    | failed _ ↦ st
    | event parsed ↦ handle_parsed header parsed st
  ]

  unfoldable pub handle_logs : BlockHeader → ℕ → List Log → Store × Published → Store × Published
  handle_logs header now [] st = st
  handle_logs header now (log ∷ logs) st =
      handle_logs header now logs (handle_log header now log st)

  module _ (filter_logs : ℕ → List ℕ → Option (List Log)) (now : ℕ) where
    -- From `RecordBlock` on.
    unfoldable pub index_block : BlockHeader → ChainState → ChainState
    index_block header st =
        let d = record_block st.detector header in
        let (saved, s1) = process_block db header st.store in
        if saved
        then elim (filter_logs header.number (all_signatures eth)) [
          | none ↦ record { detector = d; store = s1; published = st.published }
          | some logs ↦
              let (s2, out) = handle_logs header now logs (s1, st.published) in
              record { detector = d; store = s2; published = out }
        ]
        else record { detector = d; store = s1; published = st.published }

    -- One turn of the loop; a reorganisation that the store cannot roll back ends it.
    unfoldable pub handle_header : BlockHeader → ChainState → ChainState
    handle_header header st = elim (detect_reorg st.detector header) [
      | none ↦ index_block header st
      | some fork ↦
          let (rolled, s1) = handle_reorg db header.chain_id fork st.store in
          if rolled
          then index_block header (record st { detector = rollback st.detector fork; store = s1 })
          else record st { store = s1 }
    ]

    -- A nil header is skipped.
    unfoldable pub run_chain : List (Option BlockHeader) → ChainState → ChainState
    run_chain [] st = st
    run_chain (none ∷ headers) st = run_chain headers st
    run_chain (some header ∷ headers) st = run_chain headers (handle_header header st)

  -- Where the listener starts: after the last indexed block, on uint64.
  abbrev pub start_block : ℕ → Store → ℕ
  start_block chain_id s = ((db.get_sync_status chain_id s).1 + 1) % 2 ^ 64
