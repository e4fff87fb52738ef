-- ===== src/Listener.antt =====
-- internal/indexer/listener/block_listener.go: polling for headers, and the backfill of a subscription.
-- The node is the interface `Node`; the headers are what the loop sends on its channel. A context is
-- cancelled between two rounds, not in the middle of one.
pub mod Runs
pub mod Polling
use defi_demo.Base.{
  ℕ, zero, suc, ◌+◌, ◌-◌, ◌%◌, ◌^◌, Bool, true, false, Option, none, some, List, [], ◌∷◌, ◌++◌,
  if◌then◌else◌, leb, ltb,
}
use defi_demo.Types.{BlockHeader}

pub record Node : Type 1 where
  pub World : Type 0
  pub latest_block_number : World → Option ℕ × World
  pub block_by_number : ℕ → World → Option BlockHeader × World

abbrev pub block_count : ℕ → ℕ → ℕ
block_count next latest = latest + 1 - next

-- `latest` is 0 when the node did not return it.
unfoldable pub resume_block : ℕ → Option ℕ → ℕ
resume_block start none = start
resume_block start (some latest) = if ltb 0 latest then (latest + 1) % 2 ^ 64 else start

module _ (node : Node) where
  open node use {World, latest_block_number, block_by_number}

  -- The headers sent, the next block and the node after them.
  pub record Sent : Type 0 where
    pub headers : List BlockHeader
    pub next : ℕ
    pub world : World

  -- `for nextBlock <= latest`, left at the first block that the node does not return. The counter is a
  -- uint64. The fuel is the number of blocks up to the latest.
  unfoldable pub send_up_to : ℕ → ℕ → ℕ → World → Sent
  send_up_to zero next latest w = record { headers = []; next = next; world = w }
  send_up_to (suc f) next latest w =
      let (header, w1) = block_by_number next w in
      let rest = send_up_to f ((next + 1) % 2 ^ 64) latest w1 in
      if leb next latest
      then (elim header [
        | none ↦ record { headers = []; next = next; world = w1 }
        | some h ↦ record rest { headers = h ∷ rest.headers }
      ])
      else record { headers = []; next = next; world = w }

  -- One tick of the poll; an error of the node leaves everything for the next tick.
  unfoldable pub poll_tick : ℕ → World → Sent
  poll_tick next w =
      let (latest, w1) = latest_block_number w in
      elim latest [
        | none ↦ record { headers = []; next = next; world = w1 }
        | some n ↦ send_up_to (block_count next n) next n w1
      ]

  -- `Subscribe`: the backfill, and the block at which polling starts after an error.
  unfoldable pub backfill : ℕ → World → Sent × Option ℕ
  backfill start w =
      let (latest, w1) = latest_block_number w in
      elim latest [
        | none ↦ (record { headers = []; next = start; world = w1 }, none)
        | some n ↦ (send_up_to (block_count start n) start n w1, some n)
      ]

  -- `Poll`: its ticks until the context is cancelled.
  unfoldable pub poll : ℕ → ℕ → World → Sent
  poll zero next w = record { headers = []; next = next; world = w }
  poll (suc ticks) next w =
      let one = poll_tick next w in
      let rest = poll ticks one.next one.world in
      record rest { headers = one.headers ++ rest.headers }

  -- What the subscription delivers: a header, which may be nil, or its error.
  pub data Heard : Type 0 where
    new_head : Option BlockHeader → Heard
    dropped : Heard

  -- After the backfill, until the context is cancelled; an error ends in polling.
  unfoldable pub follow_heads : List Heard → ℕ → ℕ → World → List BlockHeader
  follow_heads [] ticks resume w = []
  follow_heads (new_head none ∷ heard) ticks resume w = follow_heads heard ticks resume w
  follow_heads (new_head (some h) ∷ heard) ticks resume w = h ∷ follow_heads heard ticks resume w
  follow_heads (dropped ∷ heard) ticks resume w = (poll ticks resume w).headers

  -- `Subscribe`, with the polling of a node that has no subscription.
  unfoldable pub subscribe : Bool → List Heard → ℕ → ℕ → World → List BlockHeader
  subscribe subscribed heard ticks start w =
      if subscribed
      then (let (sent, latest) = backfill start w in
          sent.headers ++ follow_heads heard ticks (resume_block start latest) sent.world)
      else (poll ticks start w).headers
