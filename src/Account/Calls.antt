-- ===== src/Account/Calls.antt =====
-- internal/account/service.go, BuildTransaction: the calldata of an action.
use mathlib.Core.List.{append-nil}
use defi_demo.Base.{
  ℕ, ◌+◌, ◌-◌, ◌^◌, ◌<◌, ◌≡◌, refl, ap, sym, ◌∙◌, false, some, List, [], ◌++◌, length, replicate,
  arith, ltb,
}
use defi_demo.Base.Bytes.{bytes, to_word, copy_at, bytes-to_word}
use defi_demo.Base.Int.{pos}
use defi_demo.Executor.Calldata.{zeros, address_word, amount_word, word1, after_word, not_ltb}
use defi_demo.Account.{action_calldata}

action_selector :
    (selector : List ℕ)
    → length selector ≡ 4
    → copy_at (replicate 68 0) 0 selector ≡ selector ++ (zeros ++ zeros)
unfolding copy_at
action_selector selector h = rw h refl

last_word : (n : ℕ) → n < 256 ^ 32 → copy_at zeros (32 - length (bytes n)) (bytes n) ≡ to_word 32 n
last_word n h =
    ap (λ (z : List ℕ). copy_at z (32 - length (bytes n)) (bytes n)) (sym (append-nil zeros))
    ∙ amount_word n [] h
    ∙ append-nil (to_word 32 n)

-- For a selector of 4 bytes, an address of 20 bytes and an amount that is not negative and below
-- 2^256, the calldata of an action is the selector and the words of the asset and the amount.
pub action_calldata_lem :
    (selector : List ℕ) (asset amount : ℕ)
    → length selector ≡ 4
    → asset < 256 ^ 20
    → amount < 256 ^ 32
    → action_calldata selector asset (pos amount)
      ≡ some (selector ++ (to_word 32 asset ++ to_word 32 amount))
unfolding action_calldata
action_calldata_lem selector asset amount hs ha hn =
    let (fits, _) = bytes-to_word 32 amount hn in
    let l = length (bytes amount) in
    let same : amount + 0 ≡ amount = omega arith in
    let small : ltb 68 l ≡ false = not_ltb 68 l (omega arith) in
    let at : 68 - l ≡ 4 + (32 + (32 - l)) = omega arith in
    rw
      (
        action_calldata,
        same,
        small,
        at,
        action_selector selector hs,
        word1 selector hs (zeros ++ zeros) (to_word 20 asset) 12,
        address_word asset zeros ha,
        word1 selector hs (to_word 32 asset ++ zeros) (bytes amount) (32 + (32 - l)),
        after_word selector hs asset zeros (bytes amount) (32 - l) (32 + (32 - l)) refl,
        last_word amount hn,
      )
      refl
