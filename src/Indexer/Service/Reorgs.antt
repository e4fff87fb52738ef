-- ===== src/Indexer/Service/Reorgs.antt =====
-- internal/indexer/service.go: the stored blocks and the sync status after a header.
use defi_demo.Base.{
  ℕ, ◌-◌, ◌<◌, ◌≡◌, refl, ◌∙◌, true, false, ◌&&◌, Option, none, some, List, [], ◌∷◌, nat_eq, ◌==◌,
  leb, if◌then◌else◌, arith, inl, inr, Option-cases,
}
use defi_demo.Types.{BlockHeader, ChainEvent}
use defi_demo.Indexer.Reorg.{detect_reorg, rollback, record_block}
use defi_demo.Indexer.Parser.{Ethereum, Log, Parsed-cases, parse_log, all_signatures}
use defi_demo.Indexer.Consumer.{
  EventStore, StoreLaws, process_event, process_block, drop_blocks, handle_reorg,
}
use defi_demo.Indexer.Service.{
  Published, ChainState, handle_parsed, handle_log, handle_logs, index_block, handle_header,
}

module _ (db : EventStore) (laws : StoreLaws db) where
  open db use {Store}
  open laws use {has_block, synced}

  -- A block that was processed is stored, beside those that were there, and is the sync status.
  pub process_block_lem :
      (h : BlockHeader) (s : Store) (d n : ℕ)
      → (process_block db h s).0 ≡ true
      → (has_block (process_block db h s).1 d n
          ≡ (if h.chain_id == d && h.number == n then true else has_block s d n))
        × (synced (process_block db h s).1 d ≡ (if h.chain_id == d then h.number else synced s d))
  unfolding process_block
  process_block_lem h s d n ok =
      let (saved, s1) = db.save_block h s in
      ground (
        arith,
        laws.save_block-has_block h s d n,
        laws.save_block-synced h s d,
        laws.update-has_block h.chain_id h.number s1 d n,
        laws.update-synced h.chain_id h.number s1 d,
      )

  drop_blocks_lem :
      (c fork : ℕ) (s : Store) (d n : ℕ)
      → (drop_blocks db c fork s).0 ≡ true
      → has_block (drop_blocks db c fork s).1 d n
        ≡ (if c == d && leb fork n then false else has_block s d n)
  unfolding drop_blocks
  drop_blocks_lem c fork s d n ok =
      let (dropped, s1) = db.delete_blocks_from_block c fork s in
      ground (
        arith,
        laws.delete_blocks-has_block c fork s d n,
        laws.update-has_block c (fork - 1) s1 d n,
      )

  -- A reorganisation that the store rolled back removes exactly the chain's blocks from the fork on.
  pub handle_reorg_lem :
      (c fork : ℕ) (s : Store) (d n : ℕ)
      → (handle_reorg db c fork s).0 ≡ true
      → has_block (handle_reorg db c fork s).1 d n
        ≡ (if c == d && leb fork n then false else has_block s d n)
  unfolding handle_reorg
  handle_reorg_lem c fork s d n ok =
      let (dropped, s1) = db.delete_events_from_block c fork s in
      ground (arith, laws.delete_events-has_block c fork s d n, drop_blocks_lem c fork s1 d n)

  -- Events leave the blocks and the sync status alone.
  handle_parsed_blocks :
      (eth : Ethereum) (h : BlockHeader) (ev : ChainEvent) (st : Store × Published) (d n : ℕ)
      → (has_block (handle_parsed db eth h ev st).0 d n ≡ has_block st.0 d n)
        × (synced (handle_parsed db eth h ev st).0 d ≡ synced st.0 d)
  unfolding handle_parsed process_event
  handle_parsed_blocks eth h ev (s, out) d n =
      let ev' = record ev { timestamp = h.timestamp } in
      ground (arith, laws.save_event-has_block ev' s d n, laws.save_event-synced ev' s d)

  handle_log_blocks :
      (eth : Ethereum) (h : BlockHeader) (now : ℕ) (log : Log) (st : Store × Published) (d n : ℕ)
      → (has_block (handle_log db eth h now log st).0 d n ≡ has_block st.0 d n)
        × (synced (handle_log db eth h now log st).0 d ≡ synced st.0 d)
  handle_log_blocks eth h now log st d n = elim (Parsed-cases (parse_log eth h.chain_id now log)) [
    | inl (ev, e) ↦ unfold handle_log in rw (e, handle_log) (handle_parsed_blocks eth h ev st d n)
    | inr (x, e) ↦ unfold handle_log in rw (e, handle_log) (refl, refl)
  ]

  handle_logs_blocks :
      (eth : Ethereum) (h : BlockHeader) (now : ℕ) (logs : List Log) (st : Store × Published)
      (d n : ℕ)
      → (has_block (handle_logs db eth h now logs st).0 d n ≡ has_block st.0 d n)
        × (synced (handle_logs db eth h now logs st).0 d ≡ synced st.0 d)
  unfolding handle_logs
  handle_logs_blocks eth h now [] st d n = (refl, refl)
  handle_logs_blocks eth h now (log ∷ logs) st d n =
      let one = handle_log_blocks eth h now log st d n in
      let rest = handle_logs_blocks eth h now logs (handle_log db eth h now log st) d n in
      (rest.0 ∙ one.0, rest.1 ∙ one.1)

  module _ (eth : Ethereum) (filter_logs : ℕ → List ℕ → Option (List Log)) (now : ℕ)
      (h : BlockHeader) where
    -- Whatever becomes of the logs, the block itself is stored as ProcessBlock left it.
    index_block_lem :
        (st : ChainState db eth) (d n : ℕ)
        → (process_block db h st.store).0 ≡ true
        → let st' = index_block db eth filter_logs now h st in
          (has_block st'.store d n
            ≡ (if h.chain_id == d && h.number == n then true else has_block st.store d n))
          × (synced st'.store d ≡ (if h.chain_id == d then h.number else synced st.store d))
    unfolding index_block
    index_block_lem st d n ok =
        let p = process_block_lem h st.store d n ok in
        let s1 = (process_block db h st.store).1 in
        elim (Option-cases (filter_logs h.number (all_signatures eth))) [
          | inl e ↦ rw (ok, index_block) (rw e p)
          | inr (logs, e) ↦
              let l = handle_logs_blocks eth h now logs (s1, st.published) d n in
              rw (ok, index_block) (rw e (l.0 ∙ p.0, l.1 ∙ p.1))
        ]

    -- A header that the detector accepts and that the store can process adds its own block to the
    -- stored ones and moves the sync status of its chain to it; no other block and no other chain
    -- is touched, whatever becomes of the logs.
    pub handle_header_extends :
        (st : ChainState db eth) (d n : ℕ)
        → detect_reorg st.detector h ≡ none
        → (process_block db h st.store).0 ≡ true
        → let st' = handle_header db eth filter_logs now h st in
          (has_block st'.store d n
            ≡ (if h.chain_id == d && h.number == n then true else has_block st.store d n))
          × (synced st'.store d ≡ (if h.chain_id == d then h.number else synced st.store d))
    unfolding handle_header
    handle_header_extends st d n quiet ok = rw (quiet, handle_header) (index_block_lem st d n ok)

    -- When a header reveals a fork below its own number and every call of the store succeeds, the
    -- fork's number is left without a stored block although the sync status is that of the header:
    -- the blocks from the fork to the header are not fetched again.
    pub handle_header_gap :
        (st : ChainState db eth) (fork : ℕ)
        → detect_reorg st.detector h ≡ some fork
        → fork < h.number
        → (handle_reorg db h.chain_id fork st.store).0 ≡ true
        → (process_block db h (handle_reorg db h.chain_id fork st.store).1).0 ≡ true
        → let st' = handle_header db eth filter_logs now h st in
          (has_block st'.store h.chain_id fork ≡ false)
          × (has_block st'.store h.chain_id h.number ≡ true)
          × (synced st'.store h.chain_id ≡ h.number)
    unfolding handle_header
    handle_header_gap st fork found below rolled ok =
        let s1 = (handle_reorg db h.chain_id fork st.store).1 in
        let st1 = record st { detector = rollback st.detector fork; store = s1 } in
        let at_fork = index_block_lem st1 h.chain_id fork ok in
        let at_head = index_block_lem st1 h.chain_id h.number ok in
        let dropped = handle_reorg_lem h.chain_id fork st.store h.chain_id fork rolled in
        rw (found, handle_header)
          (rw rolled (
            at_fork.0 ∙ ground (arith, dropped),
            at_head.0 ∙ ground arith,
            at_head.1 ∙ ground arith,
          ))

    -- A rollback that the store refuses ends the turn: the block is neither recorded nor stored.
    pub handle_header_refused :
        (st : ChainState db eth) (fork : ℕ)
        → detect_reorg st.detector h ≡ some fork
        → (handle_reorg db h.chain_id fork st.store).0 ≡ false
        → handle_header db eth filter_logs now h st
          ≡ record st { store = (handle_reorg db h.chain_id fork st.store).1 }
    unfolding handle_header
    handle_header_refused st fork found refused = rw (found, handle_header) (rw refused)

    -- A block that the store refuses is lost: the detector has recorded it, so that it is not
    -- taken for a reorganisation when it comes again, and no event of it is stored or published.
    pub handle_header_lost :
        (st : ChainState db eth)
        → detect_reorg st.detector h ≡ none
        → (process_block db h st.store).0 ≡ false
        → handle_header db eth filter_logs now h st ≡ record {
          detector = record_block st.detector h;
          store = (process_block db h st.store).1;
          published = st.published;
        }
    unfolding handle_header index_block
    handle_header_lost st quiet refused = rw (quiet, handle_header) (rw (refused, index_block))
