-- ===== src/Oracle/Decode.antt =====
-- internal/oracle/chainlink.go: the decoding of an answer.
use defi_demo.Base.{
  ℕ, ◌+◌, ◌^◌, ◌<◌, ◌≡◌, refl, ap, ◌∙◌, true, false, List, [], ◌++◌, if◌then◌else◌, arith, length,
  take, ltb, nat_eqb, length-append, drop-skip, take-append,
}
use defi_demo.Base.Bytes.{from_bytes, to_word, length-to_word, from_bytes-to_word}
use defi_demo.Base.Int.{pos, to_int64}
use defi_demo.Oracle.{round, refused, too_short, invalid_price, word_of, decode_latest_round_data}

-- A word of 32 bytes behind a prefix.
word_of-skip :
    (front rest : List ℕ) (from n : ℕ)
    → length front ≡ from
    → n < 256 ^ 32
    → word_of from (front ++ (to_word 32 n ++ rest)) ≡ n
unfolding word_of
word_of-skip front rest from n size small =
    rw
      (
        word_of,
        drop-skip front (to_word 32 n ++ rest) 0 from (omega (arith, size)),
        take-append 32 (to_word 32 n) rest (length-to_word 32 n),
      )
      (from_bytes-to_word 32 n small)

word_of-after :
    (a k m : ℕ) (xs : List ℕ) → m ≡ 32 + k → word_of m (to_word 32 a ++ xs) ≡ word_of k xs
unfolding word_of
word_of-after a k m xs h =
    ap (λ (z : List ℕ). from_bytes (take 32 z))
      (drop-skip (to_word 32 a) xs k m (omega (arith, h, length-to_word 32 a)))

not_short : (bs : List ℕ) → length bs ≡ 160 → ltb (length bs) 160 ≡ false
not_short bs h = rw h refl

-- The five words of an answer.
abbrev pub round_words : ℕ → ℕ → ℕ → ℕ → ℕ → List ℕ
round_words id answer started updated in_round =
    to_word 32 id
    ++ (to_word 32 answer ++ (to_word 32 started ++ (to_word 32 updated ++ to_word 32 in_round)))

round_words-length : (a b c d e : ℕ) → length (round_words a b c d e) ≡ 160
round_words-length a b c d e = omega (
  arith,
  length-append (to_word 32 a) (to_word 32 b ++ (to_word 32 c ++ (to_word 32 d ++ to_word 32 e))),
  length-append (to_word 32 b) (to_word 32 c ++ (to_word 32 d ++ to_word 32 e)),
  length-append (to_word 32 c) (to_word 32 d ++ to_word 32 e),
  length-append (to_word 32 d) (to_word 32 e),
  length-to_word 32 a,
  length-to_word 32 b,
  length-to_word 32 c,
  length-to_word 32 d,
  length-to_word 32 e,
)

-- An answer of five words is decoded into the round of the first, the price of the second and the
-- int64 of the fourth, and is refused exactly if the price word is 0, also when that word is
-- negative as an int256.
pub decode_latest_round_data-words :
    (id answer started updated in_round : ℕ)
    → id < 256 ^ 32
    → answer < 256 ^ 32
    → updated < 256 ^ 32
    → decode_latest_round_data (round_words id answer started updated in_round) ≡ (
        if nat_eqb answer 0
        then refused invalid_price
        else round id answer (to_int64 (pos updated)))
unfolding decode_latest_round_data
decode_latest_round_data-words id answer started updated in_round hi ha hu =
    let words = round_words id answer started updated in_round in
    let first : word_of 0 words ≡ id = word_of-skip [] _ 0 id refl hi in
    let second : word_of 32 words ≡ answer =
      word_of-after id 0 32 _ refl ∙ word_of-skip [] _ 0 answer refl ha in
    let fourth : word_of 96 words ≡ updated =
      word_of-after id 64 96 _ refl
      ∙ word_of-after answer 32 64 _ refl
      ∙ word_of-after started 0 32 _ refl
      ∙ word_of-skip [] (to_word 32 in_round) 0 updated refl hu in
    let long : ltb (length words) 160 ≡ false =
      not_short words (round_words-length id answer started updated in_round) in
    rw (decode_latest_round_data, long, first, second, fourth) refl

short : (bs : List ℕ) → length bs < 160 → ltb (length bs) 160 ≡ true
short bs h = ground arith

pub decode_latest_round_data-short :
    (bs : List ℕ) → length bs < 160 → decode_latest_round_data bs ≡ refused too_short
unfolding decode_latest_round_data
decode_latest_round_data-short bs h = rw (decode_latest_round_data, short bs h) refl
