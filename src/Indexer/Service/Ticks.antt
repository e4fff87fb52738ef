-- ===== src/Indexer/Service/Ticks.antt =====
-- internal/indexer/service.go and listener/block_listener.go together: a tick of the poll and what
-- runChain makes of its headers.
use defi_demo.Base.{
  ℕ, zero, suc, ◌+◌, ◌-◌, ◌%◌, ◌^◌, ◌≤◌, ◌<◌, ◌≡◌, refl, sym, ap, subst, ◌∙◌, true, ◌&&◌, Option,
  some, List, [], ◌∷◌, nat_eq, if◌then◌else◌, arith, leb, ltb, map, le→leb,
}
use defi_demo.Base.Assoc.{beq_refl}
use defi_demo.Types.{BlockHeader}
use defi_demo.Listener.{Node, send_up_to, poll_tick, block_count}
use defi_demo.Indexer.Reorg.Chain.{IsTip}
use defi_demo.Indexer.Parser.{Ethereum, Log}
use defi_demo.Indexer.Consumer.{EventStore, StoreLaws, process_block}
use defi_demo.Indexer.Service.{ChainState, run_chain}
use defi_demo.Indexer.Service.Follows.{Follow, newest_of, delivers, run_chain_follows}

-- The blocks of one chain, by their numbers.
pub record IsChain (chain : ℕ) (blocks : ℕ → BlockHeader) : Type 0 where
  pub numbered : (j : ℕ) → (blocks j).number ≡ j
  pub owned : (j : ℕ) → (blocks j).chain_id ≡ chain
  pub linked : (j : ℕ) → (blocks (suc j)).parent_hash ≡ (blocks j).hash

-- `f` blocks after `m`.
abbrev after : (ℕ → BlockHeader) → ℕ → ℕ → List BlockHeader
after blocks m zero = []
after blocks m (suc f) = blocks (suc m) ∷ after blocks (suc m) f

module _ (chain : ℕ) (blocks : ℕ → BlockHeader) (v : IsChain chain blocks) where
  after-Follow :
      (m f : ℕ) → m + f + 1 < 2 ^ 64 → Follow chain (blocks m) (map some (after blocks m f))
  after-Follow m zero small = tt
  after-Follow m (suc f) small = (
    (
      v.numbered (suc m) ∙ ap suc (sym (v.numbered m)),
      omega (arith, v.numbered (suc m)),
      v.linked m,
    ),
    v.owned (suc m),
    after-Follow (suc m) f (omega arith),
  )

  newest_after : (m f : ℕ) → newest_of (blocks m) (map some (after blocks m f)) ≡ blocks (m + f)
  newest_after m zero = ap blocks (omega arith)
  newest_after m (suc f) = newest_after (suc m) f ∙ ap blocks (omega arith)

  delivers-after :
      (m f j : ℕ) → delivers j (map some (after blocks m f)) ≡ (ltb m j && leb j (m + f))
  delivers-after m zero j = ground arith
  delivers-after m (suc f) j =
      ground (arith, delivers-after (suc m) f j, v.numbered (suc m), nat_eq.beq_iff (suc m) j)

  module _ (node : Node) (n : ℕ)
      (answers : (j : ℕ) (w : node.World)
        → j ≤ n
        → (node.block_by_number j w).0 ≡ some (blocks j)) where
    open node use {World, latest_block_number, block_by_number}

    send_up_to-after :
        (f m : ℕ) (w : World)
        → n + 1 < 2 ^ 64
        → m + f ≡ n
        → (let sent = send_up_to node f (suc m) n w in
            (sent.headers ≡ after blocks m f) × (sent.next ≡ n + 1))
    unfolding send_up_to
    send_up_to-after zero m w small h = (refl, omega arith)
    send_up_to-after (suc f) m w small h =
        let inside : leb (suc m) n ≡ true = le→leb (suc m) n (omega arith) in
        let counter : (suc m + 1) % 2 ^ 64 ≡ suc (suc m) = omega arith in
        let (hs, next) =
          send_up_to-after f (suc m) (block_by_number (suc m) w).1 small (omega arith) in
        rw (inside, answers (suc m) w (omega arith), counter) (ap (◌∷◌ (blocks (suc m))) hs, next)

    poll_tick-after :
        (m : ℕ) (w : World)
        → (latest_block_number w).0 ≡ some n
        → m ≤ n
        → n + 1 < 2 ^ 64
        → (let sent = poll_tick node (suc m) w in
            (sent.headers ≡ after blocks m (n - m)) × (sent.next ≡ n + 1))
    unfolding poll_tick
    poll_tick-after m w latest up small =
        let count : block_count (suc m) n ≡ n - m = omega arith in
        rw (poll_tick, latest, count)
          (send_up_to-after (n - m) m (latest_block_number w).1 small (omega arith))

    module _ (db : EventStore) (laws : StoreLaws db) (eth : Ethereum)
        (filter_logs : ℕ → List ℕ → Option (List Log)) (now : ℕ) where
      open db use {Store}
      open laws use {has_block, synced}

      -- When the node keeps to one chain and returns each block up to its latest, and the store
      -- never fails, the headers of a tick of the poll catch up: run from a detector of positive
      -- capacity at the tip m, which is the sync status, up to a latest block n that is at least m,
      -- they leave the sync status n, the blocks above m and up to n stored beside those that were,
      -- the next block after n, and the detector at the tip n, so that the next tick starts alike.
      pub run_chain-poll_tick :
          (m k : ℕ) (w : World) (st : ChainState db eth)
          → ((b : BlockHeader) (s : Store) → (process_block db b s).0 ≡ true)
          → (latest_block_number w).0 ≡ some n
          → m ≤ n
          → n + 1 < 2 ^ 64
          → 0 < k
          → k < 2 ^ 63
          → IsTip k st.detector (blocks m)
          → synced st.store chain ≡ m
          → (let sent = poll_tick node (suc m) w in
              let st' = run_chain db eth filter_logs now (map some sent.headers) st in
              (sent.next ≡ n + 1)
              × (synced st'.store chain ≡ n)
              × ((j : ℕ)
                  → has_block st'.store chain j
                    ≡ (if ltb m j && leb j n then true else has_block st.store chain j))
              × IsTip k st'.detector (blocks n))
      run_chain-poll_tick m k w st reliable latest up small room fits tip status =
          let (headers, next) = poll_tick-after m w latest up small in
          let hs : List (Option BlockHeader) = map some (after blocks m (n - m)) in
          let top : m + (n - m) ≡ n = omega arith in
          let newest : newest_of (blocks m) hs ≡ blocks n =
            newest_after m (n - m) ∙ ap blocks top in
          let (stored, last, tip1) =
            run_chain_follows db laws eth filter_logs now chain k (blocks m) hs st reliable room
              fits tip (status ∙ sym (v.numbered m)) (after-Follow m (n - m) (omega arith)) in
          rw headers (
            next,
            last ∙ ap (λ (b : BlockHeader). b.number) newest ∙ v.numbered n,
            λ j. stored chain j ∙ ground (arith, beq_refl chain, delivers-after m (n - m) j, top),
            subst (λ (b : BlockHeader). IsTip k (run_chain db eth filter_logs now hs st).detector b)
                newest tip1,
          )
