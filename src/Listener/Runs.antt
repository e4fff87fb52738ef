-- ===== src/Listener/Runs.antt =====
-- internal/indexer/listener/block_listener.go: the headers that a tick and a backfill send.
use defi_demo.Base.{
  ℕ, zero, suc, ◌+◌, ◌%◌, ◌^◌, ◌≤◌, ◌<◌, ◌≡◌, ◌⊎◌, refl, true, none, some, List, [], ◌∷◌, leb,
  arith, inl, inr, Option-cases, le→leb,
}
use defi_demo.Types.{BlockHeader}
use defi_demo.Listener.{Node, send_up_to, block_count, poll_tick, backfill, resume_block}

-- The headers are those of the blocks from `from` up to `to`, without `to`.
abbrev pub IsRun : ℕ → List BlockHeader → ℕ → Type 0
IsRun from [] to = from ≡ to
IsRun from (h ∷ hs) to = (h.number ≡ from) × IsRun (from + 1) hs to

resume_lem : (start n : ℕ) → suc n + 1 < 2 ^ 64 → resume_block start (some (suc n)) ≡ suc n + 1
unfolding resume_block
resume_lem start n small = ground arith

module _ (node : Node)
    (numbered : (n : ℕ) (w : node.World) (h : BlockHeader)
      → (node.block_by_number n w).0 ≡ some h
      → h.number ≡ n) where
  open node use {World, latest_block_number, block_by_number}

  send_up_to-IsRun :
      (f next latest : ℕ) (w : World)
      → latest + 1 < 2 ^ 64
      → next + f ≡ latest + 1
      → (let sent = send_up_to node f next latest w in
          IsRun next sent.headers sent.next
          × ((sent.next ≡ latest + 1) ⊎ ((w1 : World) × ((block_by_number sent.next w1).0 ≡ none))))
  unfolding send_up_to
  send_up_to-IsRun zero next latest w small h = (refl, inl (omega arith))
  send_up_to-IsRun (suc f) next latest w small h =
      let inside : leb next latest ≡ true = le→leb next latest (omega arith) in
      let counter : (next + 1) % 2 ^ 64 ≡ next + 1 = omega arith in
      let w1 = (block_by_number next w).1 in
      elim (Option-cases (block_by_number next w).0) [
        | inl missing ↦ rw (inside, missing) (refl, inr (w, missing))
        | inr (header, e) ↦
            let (run, stop) = send_up_to-IsRun f (next + 1) latest w1 small (omega arith) in
            rw (inside, e, counter) ((numbered next w header e, run), stop)
      ]

  -- For a node that returns headers under their own numbers, a tick whose latest block is at least
  -- the one before the next sends consecutive headers from the next block on, and either reaches
  -- the block after the latest or stops at one that the node does not return.
  pub poll_tick-IsRun :
      (next n : ℕ) (w : World)
      → (latest_block_number w).0 ≡ some n
      → next ≤ n + 1
      → n + 1 < 2 ^ 64
      → (let sent = poll_tick node next w in
          IsRun next sent.headers sent.next
          × ((sent.next ≡ n + 1) ⊎ ((w1 : World) × ((block_by_number sent.next w1).0 ≡ none))))
  unfolding poll_tick
  poll_tick-IsRun next n w e bound small =
      rw (poll_tick, e)
        (send_up_to-IsRun (block_count next n) next n (latest_block_number w).1 small (omega arith))

  -- The node does not return the next block.
  send_up_to-missing :
      (f next latest : ℕ) (w : World)
      → 0 < f
      → next ≤ latest
      → (block_by_number next w).0 ≡ none
      → ((send_up_to node f next latest w).headers ≡ [])
        × ((send_up_to node f next latest w).next ≡ next)
  unfolding send_up_to
  send_up_to-missing zero next latest w h k missing = absurd (omega arith)
  send_up_to-missing (suc f) next latest w h k missing =
      let inside : leb next latest ≡ true = le→leb next latest k in
      rw (inside, missing) (refl, refl)

  -- When the node reports a latest block above 0 but does not return the first block of the
  -- backfill, the backfill sends nothing, and polling after an error of the subscription would
  -- start after the latest block: the blocks between are sent by nobody.
  pub backfill_gap :
      (start n : ℕ) (w : World)
      → (latest_block_number w).0 ≡ some (suc n)
      → start ≤ suc n
      → suc n + 1 < 2 ^ 64
      → (block_by_number start (latest_block_number w).1).0 ≡ none
      → (let (sent, latest) = backfill node start w in
          (sent.headers ≡ [])
          × (sent.next ≡ start)
          × (start < resume_block start latest)
          × (resume_block start latest ≡ suc n + 1))
  unfolding backfill
  backfill_gap start n w e bound small missing =
      let (nothing, there) =
        send_up_to-missing (block_count start (suc n)) start (suc n) (latest_block_number w).1
          (omega arith) bound missing in
      let resume = resume_lem start n small in
      rw (backfill, e) (nothing, there, rw resume (omega arith), resume)
