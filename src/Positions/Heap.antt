-- ===== src/Positions/Heap.antt =====
-- container/heap over the queue: sifting, and the operations that the scanner calls.
use defi_demo.Base.{
  ℕ, zero, suc, ◌+◌, ◌-◌, ◌*◌, ◌/◌, Bool, none, some, [], ◌∷◌, ◌++◌, nat_eq, if◌then◌else◌, ltb,
  leb, nat_eqb, not, ◌&&◌, ◌||◌, length, get_elem?, take,
}
use defi_demo.Positions.{Scanner, less, swap, set_index}

-- The fuel is `j + 1`: the place halves on each round. Go's `(j-1)/2` is 0 at 0.
unfoldable pub up_on : ℕ → ℕ → Scanner → Scanner
up_on zero j s = s
up_on (suc f) j s =
    let i = (j - 1) / 2 in
    let moved = up_on f i (swap i j s) in if nat_eqb i j || not (less s j i) then s else moved

unfoldable pub up : ℕ → Scanner → Scanner
up j s = up_on (suc j) j s

-- The child that comes first.
unfoldable pub smaller_child : ℕ → ℕ → Scanner → ℕ
smaller_child i n s =
    let j1 = 2 * i + 1 in if ltb (j1 + 1) n && less s (j1 + 1) j1 then j1 + 1 else j1

-- The fuel is `n`: the place grows on each round. The result is the last place.
unfoldable pub down_on : ℕ → ℕ → ℕ → Scanner → ℕ × Scanner
down_on zero i n s = (i, s)
down_on (suc f) i n s =
    let j = smaller_child i n s in
    let moved = down_on f j n (swap i j s) in
    if leb n (2 * i + 1) || not (less s j i) then (i, s) else moved

-- Whether the element went down, and the state.
unfoldable pub down : ℕ → ℕ → Scanner → Bool × Scanner
down i n s = let (last, after) = down_on n i n s in (ltb i last, after)

-- `if !down(h, i, n) { up(h, i) }`
unfoldable pub sift : ℕ → ℕ → Scanner → Scanner
sift i n s = let (moved, after) = down i n s in if moved then after else up i after

unfoldable pub fix : ℕ → Scanner → Scanner
fix i s = sift i (length s.queue) s

-- `positionHeap.Push` of a position that is in the map.
unfoldable pub push_back : ℕ → Scanner → Scanner
push_back user s = record {
  positions = set_index user (some (length s.queue)) s.positions;
  queue = s.queue ++ (user ∷ []);
}

unfoldable pub push : ℕ → Scanner → Scanner
push user s = up (length s.queue) (push_back user s)

-- `positionHeap.Pop`: the last element, which is in no queue afterwards.
unfoldable pub pop_back : Scanner → Scanner
pop_back s =
    let n = length s.queue - 1 in
    elim (get_elem? s.queue n) [
      | none ↦ s
      | some user ↦ record { positions = set_index user none s.positions; queue = take n s.queue }
    ]

unfoldable pub remove_at : ℕ → Scanner → Scanner
remove_at i s =
    let n = length s.queue - 1 in
    if nat_eqb n i then pop_back s else pop_back (sift i n (swap i n s))
