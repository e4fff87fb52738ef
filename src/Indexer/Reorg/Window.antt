-- ===== src/Indexer/Reorg/Window.antt =====
-- internal/indexer/reorg/detector.go: the hashes that a detector holds.
use native.Mathlib.Nat.{add-zero}
use defi_demo.Base.{
  ℕ, zero, suc, ◌+◌, ◌-◌, ◌≤◌, ◌<◌, ◌^◌, ◌≡◌, refl, none, some, [], ◌∷◌, nat_eq, ◌==◌, leb, ltb,
  if◌then◌else◌, length, arith, ltb→lt, ◌∙◌, true, false, ap, Bool-cases, inl, inr,
}
use defi_demo.Base.Assoc.{
  Map, lookup, insert, erase, erase_where, Distinct, lookup-insert, lookup-erase,
  lookup-erase_where, length-erase, length-erase_where, insert-Distinct, erase-Distinct,
  erase_where-Distinct,
}
use defi_demo.Base.Int.{ℤ, pos, to_uint64}
use defi_demo.Types.{BlockHeader}
use defi_demo.Indexer.Reorg.{Detector, new_detector, sub64, record_block, rollback}

-- Every recorded number is at most `top`.
abbrev pub Below : ℕ → Map ℕ ℕ → Type 0
Below top m = (j v : ℕ) → lookup j m ≡ some v → j ≤ top

-- Different numbers of an interval of `n` numbers are at most `n`.
pigeonhole :
    (lo n : ℕ) (m : Map ℕ ℕ)
    → Distinct m
    → ((j v : ℕ) → lookup j m ≡ some v → (lo ≤ j) × (j < lo + n))
    → length m ≤ n
unfolding lookup
pigeonhole lo zero [] d h = omega arith
pigeonhole lo zero ((j, v) ∷ m) d h = absurd (omega (arith, h j v (ground arith)))
pigeonhole lo (suc n) m d h = omega (
  arith,
  length-erase (lo + n) m d,
  pigeonhole lo n (erase (lo + n) m) (erase-Distinct (lo + n) m d)
      (λ j v e. ground (arith, lookup-erase (lo + n) j m, h j v)),
)

-- What a detector of capacity `k` holds when the blocks up to `top` have been recorded.
pub record IsWindow (k top : ℕ) (d : Detector) : Type 0 where
  pub capacity : d.max_blocks ≡ pos k
  pub distinct : Distinct d.block_hashes
  pub below : Below top d.block_hashes
  pub bounded : length d.block_hashes ≤ k

pub new_detector-IsWindow : (k : ℕ) → IsWindow k 0 (new_detector (pos k))
unfolding new_detector lookup
new_detector-IsWindow k = record {
  capacity = refl;
  distinct = tt;
  below = λ j v e. cc;
  bounded = omega arith;
}

module _ (k : ℕ) (d : Detector) (h : BlockHeader) where
  abbrev hashes : Map ℕ ℕ
  hashes = insert h.number h.hash d.block_hashes

  abbrev kept : Map ℕ ℕ
  kept = erase_where (λ num. leb num (h.number - k)) hashes

  module _ (top : ℕ) (v : IsWindow k top d) (up : top ≤ h.number) where
    hashes-Below : Below h.number hashes
    hashes-Below j w e = ground (arith, lookup-insert h.number j h.hash d.block_hashes, v.below j w)

    -- The map outgrows the capacity only at a height that the capacity does not pass.
    overflow_high : k < length hashes → k ≤ h.number
    overflow_high over =
        let n =
          pigeonhole 0 (h.number + 1) hashes
            (insert-Distinct h.number h.hash d.block_hashes v.distinct)
            (λ j w e. (omega arith, omega (arith, hashes-Below j w e))) in
        omega arith

    kept-lookup : (j : ℕ) → lookup j kept ≡ (if leb j (h.number - k) then none else lookup j hashes)
    kept-lookup j = lookup-erase_where (λ num. leb num (h.number - k)) j hashes

    kept-Distinct : Distinct kept
    kept-Distinct =
        erase_where-Distinct _ hashes (insert-Distinct h.number h.hash d.block_hashes v.distinct)

    kept-length : k ≤ h.number → length kept ≤ k
    kept-length high =
        pigeonhole (h.number - k + 1) k kept kept-Distinct
          (λ j w e. ground (arith, kept-lookup j, hashes-Below j w))

oldest_lem : (n k : ℕ) → k < 2 ^ 63 → k ≤ n → n < 2 ^ 64 → sub64 n (to_uint64 (pos k)) ≡ n - k
oldest_lem n k a b c = omega arith

holding : ℕ → Map ℕ ℕ → Detector
holding k m = record { block_hashes = m; max_blocks = pos k }

holding_lem : (k top : ℕ) (d : Detector) → IsWindow k top d → d ≡ holding k d.block_hashes
unfolding holding
holding_lem k top d v = ap (λ (c : ℤ). record d { max_blocks = c }) v.capacity

record_block_over :
    (k : ℕ) (d : Detector) (h : BlockHeader)
    → k < 2 ^ 63
    → k ≤ h.number
    → h.number < 2 ^ 64
    → ltb k (length (hashes k d h)) ≡ true
    → record_block (holding k d.block_hashes) h ≡ holding k (kept k d h)
unfolding record_block holding
record_block_over k d h a b c e = rw (add-zero, add-zero, e, oldest_lem h.number k a b c)

record_block_enough :
    (k : ℕ) (d : Detector) (h : BlockHeader)
    → ltb k (length (hashes k d h)) ≡ false
    → record_block (holding k d.block_hashes) h ≡ holding k (hashes k d h)
unfolding record_block holding
record_block_enough k d h e = rw (add-zero, add-zero, e)

-- Recording a block at or above the top keeps a detector of positive capacity a window: at most as
-- many hashes as its capacity, none above the block. The block has its hash and the other recent
-- numbers keep theirs.
pub record_block-IsWindow :
    (k top : ℕ) (d : Detector) (h : BlockHeader)
    → IsWindow k top d
    → 0 < k
    → k < 2 ^ 63
    → top ≤ h.number
    → h.number < 2 ^ 64
    → (j : ℕ) → h.number < j + k
    → IsWindow k h.number (record_block d h)
      × (lookup j (record_block d h).block_hashes
          ≡ (if h.number == j then some h.hash else lookup j d.block_hashes))
unfolding holding
record_block-IsWindow k top d h v room small up fits j recent =
    elim (Bool-cases (ltb k (length (hashes k d h)))) [
      | inl over ↦
          let high = overflow_high k d h top v up (ltb→lt _ _ over) in
          let e = start ∙ record_block_over k d h small high fits over in
          rw e (
            record {
              capacity = refl;
              distinct = kept-Distinct k d h top v up;
              below = λ j w e.
                  ground (arith, kept-lookup k d h top v up j, hashes-Below k d h top v up j w);
              bounded = kept-length k d h top v up high;
            },
            ground (
              arith,
              kept-lookup k d h top v up j,
              lookup-insert h.number j h.hash d.block_hashes,
            ),
          )
      | inr enough ↦
          let e = start ∙ record_block_enough k d h enough in
          rw e (
            record {
              capacity = refl;
              distinct = insert-Distinct h.number h.hash d.block_hashes v.distinct;
              below = hashes-Below k d h top v up;
              bounded = ground arith;
            },
            lookup-insert h.number j h.hash d.block_hashes,
          )
    ]
  where
    start : record_block d h ≡ record_block (holding k d.block_hashes) h
    start = ap (λ (x : Detector). record_block x h) (holding_lem k top d v)

-- A rollback drops exactly the blocks from the fork on, and the window shrinks to below it.
pub rollback-IsWindow :
    (k top fork : ℕ) (d : Detector) (j : ℕ)
    → IsWindow k top d
    → IsWindow k fork (rollback d fork)
      × (lookup j (rollback d fork).block_hashes
          ≡ (if leb fork j then none else lookup j d.block_hashes))
unfolding rollback
rollback-IsWindow k top fork d j v =
    let at = λ (i : ℕ). lookup-erase_where (λ num. leb fork num) i d.block_hashes in
    (
      record {
        capacity = v.capacity;
        distinct = erase_where-Distinct _ d.block_hashes v.distinct;
        below = λ i w e. ground (arith, at i);
        bounded = omega (arith, v.bounded, length-erase_where (λ num. leb fork num) d.block_hashes);
      },
      at j,
    )
