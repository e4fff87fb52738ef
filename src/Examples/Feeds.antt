-- ===== src/Examples/Feeds.antt =====
-- A price feed's answer and a polling node, on concrete values.
use defi_demo.Base.{
  ℕ, Option, zero, suc, ap, ◌+◌, ◌-◌, ◌^◌, ◌<◌, ◌≡◌, ◌⊎◌, refl, subst, Bool, true, false, none,
  some, [], arith, if◌then◌else◌, nat_eqb, ◌∷◌, String, nat_eq,
}
use defi_demo.Base.Assoc.{Map, lookup, insert, lookup-insert}
use defi_demo.Base.Texts.{Text, text_eq}
use defi_demo.Base.Floats.{Floats}
use defi_demo.Base.Int.{ℤ, pos, negsuc, to_int64}
use defi_demo.Types.{BlockHeader}
use defi_demo.Oracle.Rounds.{latest}
use defi_demo.Oracle.Stored.{RedisLaws, price_in}
use defi_demo.Oracle.Reads.{get_prices-fetch_and_update}
use defi_demo.Oracle.{
  PriceSource, chainlink, fallback, PriceData, PriceFeedConfig, Outside, fetch_and_update,
  get_prices, round, refused, invalid_price, decode_latest_round_data,
}
use defi_demo.Oracle.Decode.{round_words, decode_latest_round_data-words}
use mathlib.Core.Option.{some-injective}
use defi_demo.Listener.Polling.{poll-IsRun}
use defi_demo.Listener.{Node, poll, poll_tick, backfill, resume_block}
use defi_demo.Listener.Runs.{IsRun, poll_tick-IsRun, backfill_gap}

-- The answer is -1, as a signed number; the code reads 2^256 - 1.
decode_latest_round_data-words_example :
    decode_latest_round_data (round_words 7 (256 ^ 32 - 1) 0 1700000000 7) ≡ (
      if nat_eqb (256 ^ 32 - 1) 0
      then refused invalid_price
      else round 7 (256 ^ 32 - 1) (to_int64 (pos 1700000000)))
decode_latest_round_data-words_example =
    decode_latest_round_data-words 7 (256 ^ 32 - 1) 0 1700000000 7 (omega arith) (omega arith)
      (omega arith)

abbrev header : ℕ → BlockHeader
header n = record { chain_id = 1; number = n; hash = n; parent_hash = n - 1; timestamp = n }

-- A node with the blocks up to 12, whose world is the number of a block that it lacks.
abbrev node : Node
node = record {
  World = ℕ;
  latest_block_number = λ (w : ℕ). (some 12, w);
  block_by_number = λ (n w : ℕ). (if nat_eqb n w then none else some (header n), w);
}

header-number :
    (n : ℕ) (b : Bool) (h : BlockHeader)
    → (if b then none else some (header n)) ≡ some h
    → h.number ≡ n
header-number n true h e = ground arith
header-number n false h e = ground arith

node-numbered : (n w : ℕ) (h : BlockHeader) → (node.block_by_number n w).0 ≡ some h → h.number ≡ n
node-numbered n w h e = header-number n (nat_eqb n w) h e

poll_tick-IsRun_example :
    (let sent = poll_tick node 10 99 in
      IsRun 10 sent.headers sent.next
      × ((sent.next ≡ 12 + 1) ⊎ ((w1 : ℕ) × ((node.block_by_number sent.next w1).0 ≡ none))))
poll_tick-IsRun_example =
    poll_tick-IsRun node node-numbered 10 12 99 refl (omega arith) (omega arith)

node-bounded : (n w : ℕ) → (node.latest_block_number w).0 ≡ some n → n + 1 < 2 ^ 64
node-bounded n w e = subst (λ (x : ℕ). x + 1 < 2 ^ 64) (some-injective 12 n e) (omega arith)

poll-IsRun_example : (let sent = poll node 2 10 99 in IsRun 10 sent.headers sent.next)
poll-IsRun_example = poll-IsRun node node-numbered node-bounded 2 10 99

backfill_gap_example :
    (let (sent, latest) = backfill node 10 10 in
      (sent.headers ≡ [])
      × (sent.next ≡ 10)
      × (10 < resume_block 10 latest)
      × (resume_block 10 latest ≡ 12 + 1))
backfill_gap_example =
    backfill_gap node node-numbered 10 11 10 refl (omega arith) (omega arith) refl

-- Whole numbers in place of floats.
abbrev whole : Floats
whole = record {
  Float = ℤ;
  of_int = λ (a : ℤ). a;
  quo = λ (a b : ℤ). a;
  mul = λ (a b : ℤ). a;
  abs_float = λ (a : ℤ). a;
  ge = λ (a b : ℤ). false;
  gt = λ (a b : ℤ). false;
  parse_float = λ (t : String). none;
  to_fixed = λ (a : ℤ). "";
}

abbrev Entries : Type 0
Entries = Map Text Text

-- A text for a price: the numbers of its fields, each integer with its sign before it.
abbrev sign_of : ℤ → ℕ
sign_of (pos n) = 0
sign_of (negsuc n) = 1

abbrev size_of : ℤ → ℕ
size_of (pos n) = n
size_of (negsuc n) = n

abbrev integer : ℕ → ℕ → ℤ
integer zero n = pos n
integer (suc s) n = negsuc n

integer-sign_of : (a : ℤ) → integer (sign_of a) (size_of a) ≡ a
integer-sign_of (pos n) = refl
integer-sign_of (negsuc n) = refl

abbrev source_number : PriceSource → ℕ
source_number chainlink = 0
source_number fallback = 1

abbrev numbered_source : ℕ → PriceSource
numbered_source zero = chainlink
numbered_source (suc n) = fallback

numbered_source-source_number : (s : PriceSource) → numbered_source (source_number s) ≡ s
numbered_source-source_number chainlink = refl
numbered_source-source_number fallback = refl

abbrev encode : PriceData → Text
encode p =
    p.asset_address
    ∷ sign_of p.price_usd
    ∷ size_of p.price_usd
    ∷ p.decimals
    ∷ source_number p.source
    ∷ sign_of p.round_id
    ∷ size_of p.round_id
    ∷ sign_of p.updated_at
    ∷ size_of p.updated_at
    ∷ []

abbrev decode : Text → Option PriceData
decode (asset ∷ s1 ∷ price ∷ decimals ∷ source ∷ s2 ∷ id ∷ s3 ∷ updated ∷ rest) = some (record {
  asset_address = asset;
  price_usd = integer s1 price;
  decimals = decimals;
  source = numbered_source source;
  round_id = integer s2 id;
  updated_at = integer s3 updated;
})
decode text = none

decode-encode : (p : PriceData) → decode (encode p) ≡ some p
decode-encode p =
    rw
      (
        integer-sign_of p.price_usd,
        numbered_source-source_number p.source,
        integer-sign_of p.round_id,
        integer-sign_of p.updated_at,
      )
      refl

-- The world is what Redis stores; the feed at 7 answers, any other does not.
abbrev redis : Outside whole
redis = record {
  World = Entries;
  call_contract = λ (feed : ℕ) (w : Entries).
      (if nat_eqb feed 7 then some (round_words 1 5 0 9 1) else none, w);
  hex = λ (a : ℕ). a ∷ [];
  marshal = λ (p : PriceData). some (encode p);
  unmarshal = decode;
  redis_get = λ (key : Text) (w : Entries). (lookup key w, w);
  redis_set = λ (key text : Text) (ttl : ℤ) (w : Entries). (true, insert key text w);
  publish_price = λ (p : PriceData) (w : Entries). (false, w);
  save_price = λ (c : ℕ) (p : PriceData) (w : Entries). (true, w);
  is_stale = λ (updated heartbeat : ℤ) (w : Entries). false;
}

abbrev first_code : Text → ℕ
first_code [] = 0
first_code (a ∷ text) = a

abbrev redis_laws : RedisLaws whole redis
redis_laws = record {
  stored = λ (w : Entries) (key : Text). lookup key w;
  hex-injective = λ a b e. ap first_code e;
  encoded = λ p. (encode p, refl, decode-encode p);
  get-value = λ key w. refl;
  get-stored = λ key other w. refl;
  set-stored = λ key text other ttl w. lookup-insert key other text w;
  call-stored = λ feed key w. refl;
  publish-stored = λ p key w. refl;
  save-stored = λ c p key w. refl;
}

abbrev feed_at : ℕ → ℕ → PriceFeedConfig whole
feed_at asset address = record {
  asset_address = asset;
  asset_symbol = "WETH";
  feed_address = address;
  decimals = 8;
  heartbeat_sec = pos 60;
  deviation_pct = pos 1;
}

abbrev nothing_stored : Entries
nothing_stored = []

get_prices-fetch_and_update_example :
    (let feeds = feed_at 20 8 ∷ feed_at 21 7 ∷ [] in
      let (results, w1) = fetch_and_update whole redis 1 feeds nothing_stored in
      lookup 21 (get_prices whole redis 1 (20 ∷ 21 ∷ []) w1).0
      ≡ latest whole redis 1 21 feeds results (price_in whole redis redis_laws nothing_stored 21))
get_prices-fetch_and_update_example =
    get_prices-fetch_and_update whole redis redis_laws 1 (feed_at 20 8 ∷ feed_at 21 7 ∷ [])
      (20 ∷ 21 ∷ []) nothing_stored 21
