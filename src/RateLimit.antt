-- ===== src/RateLimit.antt =====
-- internal/api/middleware/ratelimit.go: requests counted by address and minute. The store, Redis, is a
-- parameter; the time is in seconds, and the window that the store is given is a minute.
pub mod Windows
use defi_demo.Base.{
  ℕ, ◌/◌, Bool, true, false, Option, none, some, List, [], ◌∷◌, ◌++◌, if◌then◌else◌,
}
use defi_demo.Base.Int.{ℤ, ltb_ℤ}
use defi_demo.Base.Texts.{Text, codes, decimal}

-- `none` is an error of the store.
pub record RateLimitStore : Type 1 where
  pub World : Type 0
  pub increment : Text → ℕ → World → Option ℤ × World

pub data Outcome : Type 0 where
  next too_many_requests : Outcome

unfoldable pub key_of : Text → ℕ → Text
key_of ip now = codes "ratelimit:" ++ (ip ++ (58 ∷ decimal (now / 60)))

module _ (store : RateLimitStore) (requests_per_minute : ℤ) where
  open store use {World, increment}

  -- `configured` says that the configuration has a store; without one, and at an error of the store,
  -- the request passes.
  unfoldable pub rate_limit : Bool → Text → ℕ → World → Outcome × World
  rate_limit false ip now w = (next, w)
  rate_limit true ip now w =
      let (count, w1) = increment (key_of ip now) 60 w in
      elim count [
        | none ↦ (next, w1)
        | some n ↦ if ltb_ℤ requests_per_minute n then (too_many_requests, w1) else (next, w1)
      ]
