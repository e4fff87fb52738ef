-- ===== src/Indexer/Parser/Layout.antt =====
-- internal/indexer/parser/event_parser.go: the layout of logs.
use defi_demo.Base.{
  ℕ, ◌+◌, ◌≤◌, ◌<◌, ◌^◌, ◌≡◌, refl, ◌∙◌, none, some, List, [], ◌∷◌, ◌++◌, Bool, true, false, String,
  map, string_eq, nat_eq, leb, length, arith, All, length-append, take-append, drop-append,
  drop-skip, suc, le→leb, Option-cases, List-cases, inl, inr,
}
use defi_demo.Base.Assoc.{Map, lookup, insert, Distinct, lookup-insert, lookup-insert_self}
use defi_demo.Base.Bytes.{to_word, length-to_word, from_bytes-to_word}
use defi_demo.Types.{
  EventType, deposit, withdraw, borrow, repay, liquidation, reserve_data_updated, accrue_interest,
  ChainEvent,
}
use defi_demo.Indexer.Parser.{
  Ethereum, Log, Parsed, event, failed, event_defs, word_at, register, sig_to_type, blank_event,
  parse_body, parse_simple_event, parse_liquidation_event, parse_reserve_data_updated,
  parse_accrue_interest, topic_address, parse_log,
}

abbrev pub accepts : Parsed → Bool
accepts (event e) = true
accepts (failed e) = false

-- The topics that an event of each type has to carry, its signature included.
abbrev pub required : EventType → ℕ
required liquidation = 4
required reserve_data_updated = 2
required accrue_interest = 1
required _ = 3

parse_body-accepts :
    (eth : Ethereum) (ty : EventType) (log : Log) (ev : ChainEvent)
    → 1 ≤ length log.topics
    → accepts (parse_body eth ty log ev) ≡ leb (required ty) (length log.topics)
unfolding parse_body parse_simple_event parse_liquidation_event parse_reserve_data_updated
    parse_accrue_interest
parse_body-accepts eth deposit log ev h = ground arith
parse_body-accepts eth ty log ev h = ground arith

-- A log is accepted exactly if its first topic is a known signature and it carries the topics that
-- this type of event requires.
pub parse_log-accepts :
    (eth : Ethereum) (chain_id now : ℕ) (log : Log)
    → accepts (parse_log eth chain_id now log) ≡ elim log.topics [
      | [] ↦ false
      | topic ∷ _ ↦ elim (lookup topic (sig_to_type eth)) [
        | none ↦ false
        | some ty ↦ leb (required ty) (length log.topics)
      ]
    ]
unfolding parse_log
parse_log-accepts eth chain_id now log = elim (List-cases log.topics) [
  | inl e ↦ rw (e, parse_log)
  | inr (t, ts, e) ↦ elim (Option-cases (lookup t (sig_to_type eth))) [
    | inl unknown ↦ rw (e, parse_log) (rw unknown)
    | inr (ty, known) ↦
        rw (e, parse_log)
          (rw known (
            parse_body-accepts eth ty log (blank_event eth chain_id now log ty)
              (rw e (omega arith))))
  ]
]

-- The word at a place of a concatenation.
word_at-append :
    (n : ℕ) (front bs : List ℕ) (v : ℕ)
    → length front ≡ n
    → v < 256 ^ 32
    → word_at n (front ++ (to_word 32 v ++ bs)) ≡ v
word_at-append n front bs v h fits =
    rw
      (
        drop-append n front (to_word 32 v ++ bs) h,
        take-append 32 (to_word 32 v) bs (length-to_word 32 v),
      )
      (from_bytes-to_word 32 v fits)

word_at-skip :
    (n m v : ℕ) (bs : List ℕ) → m ≡ 32 + n → word_at m (to_word 32 v ++ bs) ≡ word_at n bs
word_at-skip n m v bs e =
    rw (drop-skip (to_word 32 v) bs n m (omega (arith, e, length-to_word 32 v)))

word_at-first : (v : ℕ) (bs : List ℕ) → v < 256 ^ 32 → word_at 0 (to_word 32 v ++ bs) ≡ v
word_at-first v bs fits = word_at-append 0 [] bs v refl fits

abbrev pub IsTransfer : EventType → Type 0
IsTransfer ty = required ty ≡ 3

parse_simple_lem :
    (eth : Ethereum) (sig market user amount : ℕ) (log : Log) (ev : ChainEvent) (more rest : List ℕ)
    → log.topics ≡ sig ∷ market ∷ user ∷ more
    → log.bytes ≡ to_word 32 amount ++ rest
    → amount < 256 ^ 32
    → parse_simple_event eth log ev
      ≡ event (record ev {
        user_address = eth.hex_to_address user;
        market_address = eth.hex_to_address market;
        amount = some amount;
      })
unfolding parse_simple_event topic_address
parse_simple_lem eth sig market user amount log ev more rest topics bytes fits =
    let word = word_at-append 0 [] rest amount refl fits in
    let size = length-append (to_word 32 amount) rest in
    let long : 32 ≤ length (to_word 32 amount ++ rest) =
      omega (arith, size, length-to_word 32 amount) in
    rw (topics, bytes) (ground (arith, word, long))

transfer_body :
    (eth : Ethereum) (ty : EventType) (log : Log) (ev : ChainEvent)
    → IsTransfer ty
    → parse_body eth ty log ev ≡ parse_simple_event eth log ev
unfolding parse_body
transfer_body eth deposit log ev t = refl
transfer_body eth withdraw log ev t = refl
transfer_body eth borrow log ev t = refl
transfer_body eth repay log ev t = refl
transfer_body eth liquidation log ev t = absurd (omega arith)
transfer_body eth reserve_data_updated log ev t = absurd (omega arith)
transfer_body eth accrue_interest log ev t = absurd (omega arith)

-- A deposit, withdrawal, borrow or repayment that is laid out by the ABI is read back in full.
pub parse_log-transfer :
    (eth : Ethereum) (chain_id now sig market user amount : ℕ) (ty : EventType) (log : Log)
    (more : List ℕ) (rest : List ℕ)
    → IsTransfer ty
    → lookup sig (sig_to_type eth) ≡ some ty
    → log.topics ≡ sig ∷ market ∷ user ∷ more
    → log.bytes ≡ to_word 32 amount ++ rest
    → amount < 256 ^ 32
    → parse_log eth chain_id now log
      ≡ event (record (blank_event eth chain_id now log ty) {
        user_address = eth.hex_to_address user;
        market_address = eth.hex_to_address market;
        amount = some amount;
      })
unfolding parse_log
parse_log-transfer eth chain_id now sig market user amount ty log more rest t known topics bytes
      fits =
    rw (topics, parse_log)
      (rw known (
        transfer_body eth ty log (blank_event eth chain_id now log ty) t
        ∙ parse_simple_lem eth sig market user amount log _ more rest topics bytes fits))

reserve_payload : ℕ → ℕ → ℕ → ℕ → Map String ℕ
reserve_payload a b c d =
    insert "liquidity_index" d (
      insert "variable_borrow_rate" c
        (insert "stable_borrow_rate" b (insert "liquidity_rate" a [])))

reserve_payload_lem :
    (a b c d : ℕ)
    → (lookup "liquidity_rate" (reserve_payload a b c d) ≡ some a)
      × (lookup "stable_borrow_rate" (reserve_payload a b c d) ≡ some b)
      × (lookup "variable_borrow_rate" (reserve_payload a b c d) ≡ some c)
      × (lookup "liquidity_index" (reserve_payload a b c d) ≡ some d)
unfolding reserve_payload lookup insert
reserve_payload_lem a b c d = (refl, refl, refl, refl)

parse_reserve_lem :
    (eth : Ethereum) (sig market a b c d : ℕ) (log : Log) (ev : ChainEvent) (more bs : List ℕ)
    → log.topics ≡ sig ∷ market ∷ more
    → log.bytes ≡ bs
    → 128 ≤ length bs
    → ev.payload ≡ []
    → word_at 0 bs ≡ a
    → word_at 32 bs ≡ b
    → word_at 64 bs ≡ c
    → word_at 96 bs ≡ d
    → parse_body eth reserve_data_updated log ev
      ≡ event (record ev {
        market_address = eth.hex_to_address market;
        payload = reserve_payload a b c d;
      })
unfolding parse_body parse_reserve_data_updated topic_address reserve_payload
parse_reserve_lem eth sig market a b c d log ev more bs topics bytes long blank wa wb wc wd =
    let enough : leb 2 (suc (suc (length more))) ≡ true = le→leb _ _ (omega arith) in
    rw (topics, bytes, blank, wa, wb, wc, wd, enough, le→leb _ _ long)

-- A log whose first topic is known as ReserveDataUpdated and whose data starts with four words of
-- 32 bytes is parsed into an event with the market of the second topic and the four numbers under
-- their own names.
pub parse_log-reserve :
    (eth : Ethereum) (chain_id now sig market a b c d : ℕ) (log : Log) (more rest : List ℕ)
    → lookup sig (sig_to_type eth) ≡ some reserve_data_updated
    → log.topics ≡ sig ∷ market ∷ more
    → log.bytes ≡ to_word 32 a ++ (to_word 32 b ++ (to_word 32 c ++ (to_word 32 d ++ rest)))
    → a < 256 ^ 32
    → b < 256 ^ 32
    → c < 256 ^ 32
    → d < 256 ^ 32
    → (ev : ChainEvent) × (parse_log eth chain_id now log ≡ event ev)
      × (ev.market_address ≡ eth.hex_to_address market)
      × (lookup "liquidity_rate" ev.payload ≡ some a)
      × (lookup "stable_borrow_rate" ev.payload ≡ some b)
      × (lookup "variable_borrow_rate" ev.payload ≡ some c)
      × (lookup "liquidity_index" ev.payload ≡ some d)
unfolding parse_log
parse_log-reserve eth chain_id now sig market a b c d log more rest known topics bytes ha hb hc hd =
    let ev0 = blank_event eth chain_id now log reserve_data_updated in
    let bs = to_word 32 a ++ (to_word 32 b ++ (to_word 32 c ++ (to_word 32 d ++ rest))) in
    let wa : word_at 0 bs ≡ a = word_at-first a _ ha in
    let wb : word_at 32 bs ≡ b = word_at-skip 0 32 a _ refl ∙ word_at-first b _ hb in
    let wc : word_at 64 bs ≡ c =
      word_at-skip 32 64 a _ refl ∙ word_at-skip 0 32 b _ refl ∙ word_at-first c _ hc in
    let wd : word_at 96 bs ≡ d =
      word_at-skip 64 96 a _ refl
      ∙ word_at-skip 32 64 b _ refl
      ∙ word_at-skip 0 32 c _ refl
      ∙ word_at-first d _ hd in
    let size : length bs ≡ 128 + length rest = omega (arith, length-append {0}, length-to_word) in
    let l = reserve_payload_lem a b c d in
    (
      record ev0 { market_address = eth.hex_to_address market; payload = reserve_payload a b c d },
      rw (topics, parse_log)
          (rw known (
            parse_reserve_lem eth sig market a b c d log ev0 more bs topics bytes
              (omega (arith, size)) refl wa wb wc wd)),
      refl,
      l.0,
      l.1,
      l.2,
      l.3,
    )

-- Where the seven signatures hash to different topics, the parser knows each of them, by its type.
register-absent :
    (eth : Ethereum) (k : ℕ) (defs : List (EventType × String)) (m : Map ℕ EventType)
    → lookup k (map (λ e. (eth.keccak256_hash e.1, e.0)) defs) ≡ none
    → lookup k (register eth defs m) ≡ lookup k m
unfolding register lookup
register-absent eth k [] m h = refl
register-absent eth k ((ty, sig) ∷ defs) m h = ground (
  arith,
  lookup-insert (eth.keccak256_hash sig) k ty m,
  register-absent eth k defs (insert (eth.keccak256_hash sig) ty m),
)

register-known :
    (eth : Ethereum) (defs : List (EventType × String)) (m : Map ℕ EventType)
    → Distinct (map (λ e. (eth.keccak256_hash e.1, e.0)) defs)
    → All (λ e. lookup (eth.keccak256_hash e.1) (register eth defs m) ≡ some e.0) defs
unfolding register
register-known eth [] m d = tt
register-known eth ((ty, sig) ∷ defs) m d = (
  register-absent eth (eth.keccak256_hash sig) defs (insert (eth.keccak256_hash sig) ty m) d.0
      ∙ lookup-insert_self (eth.keccak256_hash sig) ty m,
  register-known eth defs (insert (eth.keccak256_hash sig) ty m) d.1,
)

pub sig_to_type-known :
    (eth : Ethereum)
    → Distinct (map (λ e. (eth.keccak256_hash e.1, e.0)) event_defs)
    → All (λ e. lookup (eth.keccak256_hash e.1) (sig_to_type eth) ≡ some e.0) event_defs
unfolding sig_to_type
sig_to_type-known eth d = register-known eth event_defs [] d
