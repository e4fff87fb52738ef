-- ===== src/Indexer/Reorg.antt =====
-- internal/indexer/reorg/detector.go: recent block hashes, and the test for a reorganisation.
-- Block numbers are uint64; `maxBlocks` is an int.
pub mod Window
pub mod Chain
use defi_demo.Base.{
  ℕ, ◌+◌, ◌-◌, ◌%◌, ◌^◌, Option, none, some, [], nat_eq, ◌==◌, leb, if◌then◌else◌, length,
}
use defi_demo.Base.Assoc.{Map, lookup, insert, erase_where}
use defi_demo.Base.Int.{ℤ, pos, ltb_ℤ, to_uint64}
use defi_demo.Types.{BlockHeader}

pub record Detector : Type 0 where
  pub block_hashes : Map ℕ ℕ
  pub max_blocks : ℤ

unfoldable pub new_detector : ℤ → Detector
new_detector max_blocks = record { block_hashes = []; max_blocks = max_blocks }

-- `a - b` on uint64.
abbrev pub sub64 : ℕ → ℕ → ℕ
sub64 a b = (a + 2 ^ 64 - b) % 2 ^ 64

unfoldable pub record_block : Detector → BlockHeader → Detector
record_block d header =
    let hashes = insert header.number header.hash d.block_hashes in
    let oldest = sub64 header.number (to_uint64 d.max_blocks) in
    if ltb_ℤ d.max_blocks (pos (length hashes))
    then record d { block_hashes = erase_where (λ num. leb num oldest) hashes }
    else record d { block_hashes = hashes }

-- Case 2, a block at a new height: the block before it must be its parent.
unfoldable pub detect_parent : Detector → BlockHeader → Option ℕ
detect_parent d incoming =
    let parent_num = sub64 incoming.number 1 in
    elim (lookup parent_num d.block_hashes) [
      | none ↦ none
      | some parent_hash ↦ if parent_hash == incoming.parent_hash then none else some parent_num
    ]

-- The fork's block number, or `none` for `(0, false)`.
unfoldable pub detect_reorg : Detector → BlockHeader → Option ℕ
unfolding detect_parent
detect_reorg d incoming = elim (lookup incoming.number d.block_hashes) [
  | some existing_hash ↦ if existing_hash == incoming.hash then none else some incoming.number
  | none ↦ detect_parent d incoming
]

unfoldable pub rollback : Detector → ℕ → Detector
rollback d from_block = record d {
  block_hashes = erase_where (λ num. leb from_block num) d.block_hashes;
}
