-- ===== src/Listener/Polling.antt =====
-- internal/indexer/listener/block_listener.go: Poll and Subscribe over many ticks.
use defi_demo.Base.{
  ℕ, zero, suc, ◌+◌, ◌^◌, ◌<◌, ◌≡◌, refl, sym, subst, some, List, [], ◌∷◌, ◌++◌, leb, arith, inl,
  inr, Option-cases, Bool-cases,
}
use defi_demo.Types.{BlockHeader}
use defi_demo.Listener.{Node, send_up_to, block_count, poll_tick, poll}
use defi_demo.Listener.Runs.{IsRun, poll_tick-IsRun}

IsRun-append :
    (from mid to : ℕ) (hs ks : List BlockHeader)
    → IsRun from hs mid
    → IsRun mid ks to
    → IsRun from (hs ++ ks) to
IsRun-append from mid to [] ks r s = subst (λ (x : ℕ). IsRun x ks to) (sym r) s
IsRun-append from mid to (h ∷ hs) ks r s = (r.0, IsRun-append (from + 1) mid to hs ks r.1 s)

module _ (node : Node)
    (numbered : (n : ℕ) (w : node.World) (h : BlockHeader)
      → (node.block_by_number n w).0 ≡ some h
      → h.number ≡ n)
    (bounded : (n : ℕ) (w : node.World)
      → (node.latest_block_number w).0 ≡ some n
      → n + 1 < 2 ^ 64) where
  open node use {World, latest_block_number, block_by_number}

  -- Nothing is sent when the node lags behind.
  poll_tick_behind :
      (next n : ℕ) (w : World)
      → (latest_block_number w).0 ≡ some n
      → n + 1 < next
      → IsRun next (poll_tick node next w).headers (poll_tick node next w).next
  unfolding poll_tick send_up_to
  poll_tick_behind next n w e behind =
      let none_left : block_count next n ≡ 0 = omega arith in rw (poll_tick, e, none_left) refl

  poll_tick_any :
      (next : ℕ) (w : World)
      → IsRun next (poll_tick node next w).headers (poll_tick node next w).next
  unfolding poll_tick
  poll_tick_any next w = elim (Option-cases (latest_block_number w).0) [
    | inl e ↦ rw (poll_tick, e) refl
    | inr (n, e) ↦ elim (Bool-cases (leb next (n + 1))) [
      | inl ahead ↦
          (poll_tick-IsRun node numbered next n w e (ground (arith, ahead)) (bounded n w e)).0
      | inr behind ↦ poll_tick_behind next n w e (ground (arith, behind))
    ]
  ]

  -- For a node that returns headers under their own numbers and whose latest blocks are below the
  -- last of a uint64, polling sends consecutive headers from the block it starts with, none twice
  -- and none left out, however many ticks there are, whichever calls fail and also when the node
  -- falls behind.
  pub poll-IsRun :
      (ticks next : ℕ) (w : World)
      → IsRun next (poll node ticks next w).headers (poll node ticks next w).next
  unfolding poll
  poll-IsRun zero next w = refl
  poll-IsRun (suc ticks) next w =
      let one = poll_tick node next w in
      let rest = poll node ticks one.next one.world in
      IsRun-append next one.next rest.next one.headers rest.headers (poll_tick_any next w)
        (poll-IsRun ticks one.next one.world)
