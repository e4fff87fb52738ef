-- ===== src/Risk.antt =====
-- internal/risk/engine.go: the rules and the events that the three checks raise. The stores, the alert
-- sink and the parsers of numbers are parameters; the texts of the descriptions are not modelled.
pub mod Flash
use defi_demo.Base.{
  ℕ, Bool, true, false, Option, none, some, List, [], ◌∷◌, ◌++◌, String, string_eq, if◌then◌else◌,
  ◌&&◌,
}
use defi_demo.Base.Assoc.{Map, lookup}
use defi_demo.Base.Floats.{Floats}
use defi_demo.Base.Int.{ℤ, pos, leb_ℤ, is_zero}

pub data Severity : Type 0 where
  info warning critical : Severity

pub data RuleType : Type 0 where
  large_transaction high_utilization price_deviation flash_loan protocol_health : RuleType

pub record Rule : Type 0 where
  pub id : ℕ
  pub rule_type : RuleType
  pub name : String
  pub enabled : Bool
  pub severity : Severity
  pub params : Map String String

-- What an event says, in place of its description and data.
pub data Subject : Type 0 where
  transaction : String → ℤ → ℤ → Subject
  utilization : Subject
  operations : String → ℕ → ℤ → Subject

pub record Event : Type 0 where
  pub rule_id : ℕ
  pub rule_type : RuleType
  pub severity : Severity
  pub chain_id : ℕ
  pub market_id : ℕ
  pub subject : Subject

abbrev pub same_type : RuleType → RuleType → Bool
same_type large_transaction large_transaction = true
same_type high_utilization high_utilization = true
same_type price_deviation price_deviation = true
same_type flash_loan flash_loan = true
same_type protocol_health protocol_health = true
same_type a b = false

-- The parameter of an enabled rule of this type.
unfoldable pub threshold_text : RuleType → String → Rule → Option String
threshold_text kind key rule =
    if same_type rule.rule_type kind && rule.enabled then lookup key rule.params else none

-- Saving may fail, which is logged; the alert is raised all the same.
pub record Sinks : Type 1 where
  pub World : Type 0
  pub save_event : Event → World → Bool × World
  pub handle_alert : Option (Event → World → World)

module _ (sinks : Sinks) where
  open sinks use {World, save_event, handle_alert}

  unfoldable pub emit_event : Event → World → World
  emit_event event w =
      let (saved, w1) = save_event event w in
      elim handle_alert [ none ↦ w1 | some alert ↦ alert event w1 ]

  unfoldable pub emit_all : List Event → World → World
  emit_all [] w = w
  emit_all (event ∷ events) w = emit_all events (emit_event event w)

abbrev pub busy_event : Rule → ℕ → ℕ → String → ℤ → Event
busy_event rule chain_id block user count = record {
  rule_id = rule.id;
  rule_type = flash_loan;
  severity = rule.severity;
  chain_id = chain_id;
  market_id = 0;
  subject = operations user block count;
}

module _ (atoi : String → Option ℤ) where
  -- The users of the block's counts that reach the limit, in the order of the range.
  unfoldable pub busy_users : Rule → ℕ → ℕ → ℤ → Map String ℤ → List Event
  busy_users rule chain_id block min_ops [] = []
  busy_users rule chain_id block min_ops ((user, count) ∷ counts) =
      let rest = busy_users rule chain_id block min_ops counts in
      if leb_ℤ min_ops count then busy_event rule chain_id block user count ∷ rest else rest

  unfoldable pub flash_loan_of : ℕ → ℕ → Map String ℤ → Rule → List Event
  flash_loan_of chain_id block counts rule =
      elim (threshold_text flash_loan "min_ops_per_block" rule) [
        | none ↦ []
        | some text ↦ elim (atoi text) [
          | none ↦ []
          | some min_ops ↦ busy_users rule chain_id block min_ops counts
        ]
      ]

  unfoldable pub flash_loan_events : ℕ → ℕ → Map String ℤ → List Rule → List Event
  flash_loan_events chain_id block counts [] = []
  flash_loan_events chain_id block counts (rule ∷ rules) =
      flash_loan_of chain_id block counts rule ++ flash_loan_events chain_id block counts rules

  unfoldable pub check_flash_loan :
      (sinks : Sinks) → List Rule → ℕ → ℕ → Map String ℤ → sinks.World → sinks.World
  check_flash_loan sinks rules chain_id block counts =
      emit_all sinks (flash_loan_events chain_id block counts rules)

module _ (floats : Floats) where
  open floats use {Float, of_int, quo, mul, ge, parse_float}

  unfoldable pub large_transaction_of : ℕ → ℕ → String → ℤ → ℤ → Rule → List Event
  large_transaction_of chain_id market_id tx_hash amount pool_tvl rule =
      elim (threshold_text large_transaction "threshold_pct" rule) [
        | none ↦ []
        | some text ↦ elim (parse_float text) [
          | none ↦ []
          | some threshold ↦
              if is_zero pool_tvl
              then []
              else if ge (mul (quo amount pool_tvl) (of_int (pos 100))) threshold
              then record {
                rule_id = rule.id;
                rule_type = large_transaction;
                severity = rule.severity;
                chain_id = chain_id;
                market_id = market_id;
                subject = transaction tx_hash amount pool_tvl;
              }
                ∷ []
              else []
        ]
      ]

  unfoldable pub large_transaction_events : ℕ → ℕ → String → ℤ → ℤ → List Rule → List Event
  large_transaction_events chain_id market_id tx_hash amount pool_tvl [] = []
  large_transaction_events chain_id market_id tx_hash amount pool_tvl (rule ∷ rules) =
      large_transaction_of chain_id market_id tx_hash amount pool_tvl rule
      ++ large_transaction_events chain_id market_id tx_hash amount pool_tvl rules

  unfoldable pub check_large_transaction :
      (sinks : Sinks) → List Rule → ℕ → ℕ → String → ℤ → ℤ → sinks.World → sinks.World
  check_large_transaction sinks rules chain_id market_id tx_hash amount pool_tvl =
      emit_all sinks (large_transaction_events chain_id market_id tx_hash amount pool_tvl rules)

  unfoldable pub utilization_of : ℕ → ℕ → Float → Rule → List Event
  utilization_of chain_id market_id pct rule =
      elim (threshold_text high_utilization "threshold_pct" rule) [
        | none ↦ []
        | some text ↦ elim (parse_float text) [
          | none ↦ []
          | some threshold ↦
              if ge pct threshold
              then record {
                rule_id = rule.id;
                rule_type = high_utilization;
                severity = rule.severity;
                chain_id = chain_id;
                market_id = market_id;
                subject = utilization;
              }
                ∷ []
              else []
        ]
      ]

  unfoldable pub utilization_events : ℕ → ℕ → Float → List Rule → List Event
  utilization_events chain_id market_id pct [] = []
  utilization_events chain_id market_id pct (rule ∷ rules) =
      utilization_of chain_id market_id pct rule ++ utilization_events chain_id market_id pct rules

  unfoldable pub check_utilization :
      (sinks : Sinks) → List Rule → ℕ → ℕ → Float → sinks.World → sinks.World
  check_utilization sinks rules chain_id market_id pct =
      emit_all sinks (utilization_events chain_id market_id pct rules)

-- `ReloadRules`: the enabled rules of the store, the old ones when it fails.
unfoldable pub reload_rules : Option (List Rule) → List Rule → List Rule
reload_rules none rules = rules
reload_rules (some loaded) rules = loaded
