-- ===== src/Indexer/Reorg/Chain.antt =====
-- internal/indexer/reorg/detector.go: DetectReorg along a chain and where it breaks.
use defi_demo.Base.{
  ℕ, suc, ◌≤◌, ◌<◌, ◌^◌, ◌≡◌, Option, none, some, List, [], ◌∷◌, nat_eq, arith, All, ◌==◌,
  if◌then◌else◌, Option-cases, inl, inr,
}
use defi_demo.Base.Assoc.{lookup}
use defi_demo.Types.{BlockHeader}
use defi_demo.Indexer.Reorg.{Detector, sub64, record_block, detect_reorg}
use defi_demo.Indexer.Reorg.Window.{IsWindow, record_block-IsWindow}

-- `h` is the last recorded block.
pub record IsTip (k : ℕ) (d : Detector) (h : BlockHeader) : Type 0 where
  pub window : IsWindow k h.number d
  pub newest : lookup h.number d.block_hashes ≡ some h.hash

-- The block after `h` on its chain.
abbrev pub Extends : BlockHeader → BlockHeader → Type 0
Extends h next = (next.number ≡ suc h.number) × (next.number < 2 ^ 64) × (next.parent_hash ≡ h.hash)

pub record_block-IsTip :
    (k top : ℕ) (d : Detector) (h : BlockHeader)
    → IsWindow k top d
    → 0 < k
    → k < 2 ^ 63
    → top ≤ h.number
    → h.number < 2 ^ 64
    → IsTip k (record_block d h) h
record_block-IsTip k top d h v room small up fits =
    let (w, e) = record_block-IsWindow k top d h v room small up fits h.number (omega arith) in
    record { window = w; newest = ground (arith, e) }

next_unknown :
    (k : ℕ) (d : Detector) (h : BlockHeader)
    → IsTip k d h
    → lookup (suc h.number) d.block_hashes ≡ none
next_unknown k d h t = elim (Option-cases (lookup (suc h.number) d.block_hashes)) [
  | inl e ↦ e
  | inr (x, e) ↦ absurd (omega (arith, t.window.below (suc h.number) x e))
]

-- A block at the height after the tip is reported exactly if its parent is not the tip, and then
-- with the number of the tip.
pub detect_reorg_next :
    (k : ℕ) (d : Detector) (h next : BlockHeader)
    → IsTip k d h
    → next.number ≡ suc h.number
    → next.number < 2 ^ 64
    → detect_reorg d next ≡ (if next.parent_hash == h.hash then none else some h.number)
unfolding detect_reorg
detect_reorg_next k d h next t e fits =
    let before : sub64 next.number 1 ≡ h.number = omega arith in
    ground (arith, e, before, next_unknown k d h t, t.newest)

-- A known height: a report exactly if the hash is another.
pub detect_reorg_again :
    (d : Detector) (h : BlockHeader) (x : ℕ)
    → lookup h.number d.block_hashes ≡ some x
    → detect_reorg d h ≡ (if x == h.hash then none else some h.number)
unfolding detect_reorg
detect_reorg_again d h x e = rw (e, detect_reorg)

-- What the detector says of a sequence of blocks that are all recorded.
pub reports : Detector → List BlockHeader → List (Option ℕ)
reports d [] = []
reports d (h ∷ hs) = detect_reorg d h ∷ reports (record_block d h) hs

abbrev pub Linked : BlockHeader → List BlockHeader → Type 0
Linked h [] = Unit
Linked h (next ∷ hs) = Extends h next × Linked next hs

-- A detector of positive capacity that is at a tip reports no reorganisation for any blocks that
-- follow the tip, each the child of the one before, when all are recorded.
pub reports-Linked :
    (k : ℕ) (d : Detector) (h : BlockHeader) (hs : List BlockHeader)
    → 0 < k
    → k < 2 ^ 63
    → IsTip k d h
    → Linked h hs
    → All (λ r. r ≡ none) (reports d hs)
unfolding reports
reports-Linked k d h [] room small t l = tt
reports-Linked k d h (next ∷ hs) room small t l = (
  ground (arith, detect_reorg_next k d h next t l.0.0 l.0.1),
  reports-Linked k (record_block d next) next hs room small
      (record_block-IsTip k h.number d next t.window room small (omega arith) l.0.1) l.1,
)
