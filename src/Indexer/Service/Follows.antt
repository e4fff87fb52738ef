-- ===== src/Indexer/Service/Follows.antt =====
-- internal/indexer/service.go: runChain over headers that follow one another.
use defi_demo.Base.{
  ℕ, ◌<◌, ◌^◌, ◌≡◌, refl, sym, ap, subst, ◌∙◌, Bool, true, false, ◌&&◌, ◌||◌, Option, none, some,
  List, [], ◌∷◌, nat_eq, ◌==◌, if◌then◌else◌, arith, inl, inr, Option-cases, Bool-cases,
}
use defi_demo.Base.Assoc.{beq_refl}
use defi_demo.Types.{BlockHeader}
use defi_demo.Indexer.Reorg.{Detector, detect_reorg, record_block}
use defi_demo.Indexer.Reorg.Chain.{IsTip, Extends, detect_reorg_next, record_block-IsTip}
use defi_demo.Indexer.Parser.{Ethereum, Log, all_signatures}
use defi_demo.Indexer.Consumer.{EventStore, StoreLaws, process_block}
use defi_demo.Indexer.Service.{ChainState, index_block, handle_header, run_chain}
use defi_demo.Indexer.Service.Reorgs.{handle_header_extends}

-- What the listener delivers: headers of one chain, each the child of the one before, and nils.
abbrev pub Follow : ℕ → BlockHeader → List (Option BlockHeader) → Type 0
Follow chain h [] = Unit {0}
Follow chain h (none ∷ hs) = Follow chain h hs
Follow chain h (some next ∷ hs) = Extends h next × (next.chain_id ≡ chain) × Follow chain next hs

abbrev pub newest_of : BlockHeader → List (Option BlockHeader) → BlockHeader
newest_of h [] = h
newest_of h (none ∷ hs) = newest_of h hs
newest_of h (some next ∷ hs) = newest_of next hs

-- One of the headers has this number.
abbrev pub delivers : ℕ → List (Option BlockHeader) → Bool
delivers n [] = false
delivers n (none ∷ hs) = delivers n hs
delivers n (some next ∷ hs) = (next.number == n) || delivers n hs

Extends-quiet :
    (k : ℕ) (d : Detector) (h next : BlockHeader)
    → IsTip k d h
    → Extends h next
    → detect_reorg d next ≡ none
Extends-quiet k d h next t l = ground (arith, detect_reorg_next k d h next t l.0 l.1)

own_chain : (chain c n m : ℕ) → c ≡ chain → (if c == chain then n else m) ≡ n
own_chain chain c n m e = rw (e, beq_refl chain) refl

regroup :
    (a b x y was : Bool)
    → b ≡ a
    → (if a && y then true else if b && x then true else was)
      ≡ (if a && (x || y) then true else was)
regroup a b x y was e = ground (arith, e)

module _ (db : EventStore) (laws : StoreLaws db) (eth : Ethereum)
    (filter_logs : ℕ → List ℕ → Option (List Log)) (now : ℕ) where
  open db use {Store}
  open laws use {has_block, synced}

  index_block-detector :
      (h : BlockHeader) (st : ChainState db eth)
      → (index_block db eth filter_logs now h st).detector ≡ record_block st.detector h
  unfolding index_block
  index_block-detector h st = elim (Bool-cases (process_block db h st.store).0) [
    | inr refused ↦ rw (index_block, refused) refl
    | inl saved ↦ elim (Option-cases (filter_logs h.number (all_signatures eth))) [
      | inl e ↦ rw (index_block, saved) (rw e refl)
      | inr (logs, e) ↦ rw (index_block, saved) (rw e refl)
    ]
  ]

  handle_header-detector :
      (h : BlockHeader) (st : ChainState db eth)
      → detect_reorg st.detector h ≡ none
      → (handle_header db eth filter_logs now h st).detector ≡ record_block st.detector h
  unfolding handle_header
  handle_header-detector h st quiet = rw (quiet, handle_header) (index_block-detector h st)

  -- Run over headers that follow a tip.
  pub run_chain_follows :
      (chain k : ℕ) (h : BlockHeader) (hs : List (Option BlockHeader)) (st : ChainState db eth)
      → ((b : BlockHeader) (s : Store) → (process_block db b s).0 ≡ true)
      → 0 < k
      → k < 2 ^ 63
      → IsTip k st.detector h
      → synced st.store chain ≡ h.number
      → Follow chain h hs
      → (let st' = run_chain db eth filter_logs now hs st in
          ((d n : ℕ)
            → has_block st'.store d n
              ≡ (if (chain == d) && delivers n hs then true else has_block st.store d n))
          × (synced st'.store chain ≡ (newest_of h hs).number)
          × IsTip k st'.detector (newest_of h hs))
  unfolding run_chain
  run_chain_follows chain k h [] st reliable room small tip status l =
      (λ d n. ground arith, status, tip)
  run_chain_follows chain k h (none ∷ hs) st reliable room small tip status l =
      run_chain_follows chain k h hs st reliable room small tip status l
  run_chain_follows chain k h (some next ∷ hs) st reliable room small tip status l =
      let quiet = Extends-quiet k st.detector h next tip l.0 in
      let st1 = handle_header db eth filter_logs now next st in
      let tip1 : IsTip k st1.detector next =
        subst (λ (d : Detector). IsTip k d next) (sym (handle_header-detector next st quiet))
          (record_block-IsTip k h.number st.detector next tip.window room small
            (omega (arith, l.0.0)) l.0.1) in
      let step = λ (d n : ℕ).
        handle_header_extends db laws eth filter_logs now next st d n quiet
          (reliable next st.store) in
      let status1 : synced st1.store chain ≡ next.number =
        (step chain 0).1 ∙ own_chain chain next.chain_id next.number _ l.1 in
      let (blocks, last, tip2) =
        run_chain_follows chain k next hs st1 reliable room small tip1 status1 l.2 in
      (
        λ d n.
            blocks d n
            ∙ ap (λ (b : Bool). if (chain == d) && delivers n hs then true else b) (step d n).0
            ∙ regroup (chain == d) (next.chain_id == d) (next.number == n) (delivers n hs)
                (has_block st.store d n) (ap (λ (c : ℕ). c == d) l.1),
        last,
        tip2,
      )
