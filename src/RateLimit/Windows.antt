-- ===== src/RateLimit/Windows.antt =====
-- internal/api/middleware/ratelimit.go: how many requests of a window are served.
use defi_demo.Base.{
  ℕ, ◌+◌, ◌-◌, ◌≡◌, refl, ◌∙◌, Bool, true, false, some, List, [], ◌∷◌, arith, inl, inr, Bool-cases,
  if◌then◌else◌, ltb, ◌==◌,
}
use defi_demo.Base.Int.{pos}
use defi_demo.Base.Texts.{Text, text_eq, text_beq_iff}
use defi_demo.RateLimit.{RateLimitStore, Outcome, next, too_many_requests, key_of, rate_limit}

-- What Redis documents of its counters: an increment answers with the new count, and leaves the other
-- counters.
pub record IsCounter (store : RateLimitStore) : Type 0 where
  pub count : Text → store.World → ℕ
  pub counts :
      (key : Text) (window : ℕ) (w : store.World)
      → (store.increment key window w).0 ≡ some (pos (count key w + 1))
  pub counted :
      (key other : Text) (window : ℕ) (w : store.World)
      → count other (store.increment key window w).1
        ≡ (if key == other then count other w + 1 else count other w)

abbrev pub one_if : Bool → ℕ
one_if true = 1
one_if false = 0

abbrev pub is_next : Outcome → Bool
is_next next = true
is_next too_many_requests = false

abbrev pub min : ℕ → ℕ → ℕ
min a b = if ltb a b then a else b

window_step :
    (limit c r : ℕ)
    → one_if (is_next (if ltb limit (c + 1) then too_many_requests else next))
        + min (limit - (c + 1)) r
      ≡ min (limit - c) (1 + r)
window_step limit c r = ground arith

other_step : (limit c r : ℕ) → 0 + min (limit - c) r ≡ min (limit - c) (0 + r)
other_step limit c r = ground arith

-- The requests, by address and time, that fall under this key.
unfoldable pub requests_for : Text → List (Text × ℕ) → ℕ
requests_for key [] = 0
requests_for key ((ip, now) ∷ requests) = one_if (key_of ip now == key) + requests_for key requests

module _ (store : RateLimitStore) (limit : ℕ) where
  -- Those of them that are served, one request after the other.
  unfoldable pub served_for : Text → List (Text × ℕ) → store.World → ℕ
  served_for key [] w = 0
  served_for key ((ip, now) ∷ requests) w =
      let (outcome, w1) = rate_limit store (pos limit) true ip now w in
      one_if (if key_of ip now == key then is_next outcome else false) + served_for key requests w1

  module _ (laws : IsCounter store) where
    rate_limit_counted :
        (ip : Text) (now : ℕ) (w : store.World)
        → rate_limit store (pos limit) true ip now w ≡ (
          (if ltb limit (laws.count (key_of ip now) w + 1) then too_many_requests else next),
          (store.increment (key_of ip now) 60 w).1,
        )
    unfolding rate_limit
    rate_limit_counted ip now w =
        let c = laws.counts (key_of ip now) 60 w in
        elim (Bool-cases (ltb limit (laws.count (key_of ip now) w + 1))) [
          | inl over ↦ rw (rate_limit, c) (ground arith)
          | inr under ↦ rw (rate_limit, c) (ground arith)
        ]

    -- Of the requests that fall under one key, that is one address in one minute of the clock, the
    -- first are served until the limit is reached by the store's count, and no more.
    pub served_for_lem :
        (key : Text) (requests : List (Text × ℕ)) (w : store.World)
        → served_for key requests w ≡ min (limit - laws.count key w) (requests_for key requests)
    unfolding served_for requests_for
    served_for_lem key [] w = ground arith
    served_for_lem key ((ip, now) ∷ requests) w =
        let w1 = (store.increment (key_of ip now) 60 w).1 in
        elim (Bool-cases (key_of ip now == key)) [
          | inl same ↦
              let now_key = (text_beq_iff (key_of ip now) key).0 same in
              let count : laws.count key w1 ≡ laws.count key w + 1 =
                laws.counted (key_of ip now) key 60 w ∙ rw same refl in
              let later = served_for_lem key requests w1 in
              rw (same, rate_limit_counted ip now w, later, count, now_key)
                (window_step limit (laws.count key w) (requests_for key requests))
          | inr other ↦
              let count : laws.count key w1 ≡ laws.count key w =
                laws.counted (key_of ip now) key 60 w ∙ rw other refl in
              let later = served_for_lem key requests w1 in
              rw (other, rate_limit_counted ip now w, later, count)
                (other_step limit (laws.count key w) (requests_for key requests))
        ]
