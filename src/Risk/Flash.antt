-- ===== src/Risk/Flash.antt =====
-- internal/risk/engine.go: the events of the flash-loan check.
use defi_demo.Base.{
  ℕ, arith, Bool, none, ◌&&◌, if◌then◌else◌, ◌≡◌, refl, sym, ap, subst, ◌∙◌, true, Option, some,
  List, [], ◌∷◌, String, string_eq, inl, inr, Bool-cases, Option-cases, All, All-append, All-map,
}
use mathlib.Core.List.{Memᴰ}
use mathlib.Core.List.{Mem, mem-cons_of_mem, mem-cons_self, mem-append_left, mem-append_right}
use defi_demo.Base.Assoc.{Map, lookup}
use defi_demo.Base.Int.{ℤ, leb_ℤ, ◌≤ℤ◌}
use defi_demo.Risk.{
  Rule, RuleType, large_transaction, high_utilization, price_deviation, protocol_health, same_type,
  Event, operations, flash_loan, threshold_text, busy_users, busy_event, flash_loan_of,
  flash_loan_events,
}

same_type_inv : (kind : RuleType) → same_type kind flash_loan ≡ true → kind ≡ flash_loan
same_type_inv large_transaction e = ground arith
same_type_inv high_utilization e = ground arith
same_type_inv price_deviation e = ground arith
same_type_inv flash_loan e = refl
same_type_inv protocol_health e = ground arith

guarded :
    (a b : Bool) (o : Option String) (t : String)
    → (if a && b then o else none) ≡ some t
    → (a ≡ true) × (b ≡ true) × (o ≡ some t)
guarded a b o t e = ground arith

threshold_text_inv :
    (key text : String) (rule : Rule)
    → threshold_text flash_loan key rule ≡ some text
    → (rule.enabled ≡ true) × (rule.rule_type ≡ flash_loan) × (lookup key rule.params ≡ some text)
unfolding threshold_text
threshold_text_inv key text rule e =
    let (kind, on, given) =
      guarded (same_type rule.rule_type flash_loan) rule.enabled (lookup key rule.params) text e in
    (on, same_type_inv rule.rule_type kind, given)

module _ (atoi : String → Option ℤ) (block : ℕ) where
  -- The event is of this rule, which is an enabled flash-loan rule with a number as its limit, and of
  -- a user of the block's counts whose count reaches the limit.
  pub record Exceeds (chain_id : ℕ) (counts : Map String ℤ) (rule : Rule) (event : Event)
      : Type 0 where
    pub text : String
    pub min_ops : ℤ
    pub user : String
    pub count : ℤ
    pub enabled : rule.enabled ≡ true
    pub of_type : rule.rule_type ≡ flash_loan
    pub given : lookup "min_ops_per_block" rule.params ≡ some text
    pub number : atoi text ≡ some min_ops
    pub counted : Mem (user, count) counts
    pub reached : min_ops ≤ℤ count
    pub subject : event.subject ≡ operations user block count
    pub rule_id : event.rule_id ≡ rule.id
    pub rule_type : event.rule_type ≡ flash_loan
    pub severity : event.severity ≡ rule.severity
    pub chain : event.chain_id ≡ chain_id

  -- A later user of the counts.
  Exceeds-later :
      (chain_id : ℕ) (entry : String × ℤ) (counts : Map String ℤ) (rule : Rule) (event : Event)
      → Exceeds chain_id counts rule event
      → Exceeds chain_id (entry ∷ counts) rule event
  Exceeds-later chain_id entry counts rule event x = record {
    text = x.text;
    min_ops = x.min_ops;
    user = x.user;
    count = x.count;
    enabled = x.enabled;
    of_type = x.of_type;
    given = x.given;
    number = x.number;
    counted = mem-cons_of_mem entry x.counted;
    reached = x.reached;
    subject = x.subject;
    rule_id = x.rule_id;
    rule_type = x.rule_type;
    severity = x.severity;
    chain = x.chain;
  }

  busy_users_sound :
      (rule : Rule) (chain_id : ℕ) (text : String) (min_ops : ℤ) (counts : Map String ℤ)
      → threshold_text flash_loan "min_ops_per_block" rule ≡ some text
      → atoi text ≡ some min_ops
      → All (Exceeds chain_id counts rule) (busy_users atoi rule chain_id block min_ops counts)
  unfolding busy_users
  busy_users_sound rule chain_id text min_ops [] e f = tt
  busy_users_sound rule chain_id text min_ops ((user, count) ∷ counts) e f =
      let (on, kind, given) = threshold_text_inv "min_ops_per_block" text rule e in
      let later =
        All-map (Exceeds chain_id counts rule) (Exceeds chain_id ((user, count) ∷ counts) rule)
          (Exceeds-later chain_id (user, count) counts rule) _
          (busy_users_sound rule chain_id text min_ops counts e f) in
      elim (Bool-cases (leb_ℤ min_ops count)) [
        | inl busy ↦ rw busy (
          record {
            text = text;
            min_ops = min_ops;
            user = user;
            count = count;
            enabled = on;
            of_type = kind;
            given = given;
            number = f;
            counted = mem-cons_self;
            reached = ground (arith, busy);
            subject = refl;
            rule_id = refl;
            rule_type = refl;
            severity = refl;
            chain = refl;
          },
          later,
        )
        | inr calm ↦ rw calm later
      ]

  flash_loan_of_sound :
      (rule : Rule) (chain_id : ℕ) (counts : Map String ℤ)
      → All (Exceeds chain_id counts rule) (flash_loan_of atoi chain_id block counts rule)
  unfolding flash_loan_of
  flash_loan_of_sound rule chain_id counts =
      elim (Option-cases (threshold_text flash_loan "min_ops_per_block" rule)) [
        | inl absent ↦ rw (flash_loan_of, absent) tt
        | inr (text, e) ↦ elim (Option-cases (atoi text)) [
          | inl no_number ↦ rw (flash_loan_of, e, no_number) tt
          | inr (min_ops, f) ↦
              rw (flash_loan_of, e, f) (busy_users_sound rule chain_id text min_ops counts e f)
        ]
      ]

  -- An event of one of the rules, that exceeds its limit.
  abbrev pub RaisedBy : ℕ → Map String ℤ → List Rule → Event → Type 0
  RaisedBy chain_id counts rules event =
      (rule : Rule) × Mem rule rules × Exceeds chain_id counts rule event

  -- Every event of the flash-loan check is of one of the rules, and that rule is enabled, is a
  -- flash-loan rule and has a number under min_ops_per_block; the event carries the id and the
  -- severity of the rule and the chain, and names the block and a user of the counts with the count
  -- that stands there, which reaches the number.
  pub flash_loan_events_sound :
      (chain_id : ℕ) (counts : Map String ℤ) (rules : List Rule)
      → All (RaisedBy chain_id counts rules) (flash_loan_events atoi chain_id block counts rules)
  unfolding flash_loan_events
  flash_loan_events_sound chain_id counts [] = tt
  flash_loan_events_sound chain_id counts (rule ∷ rules) =
      All-append (RaisedBy chain_id counts (rule ∷ rules))
        (flash_loan_of atoi chain_id block counts rule) _
        (All-map (Exceeds chain_id counts rule) (RaisedBy chain_id counts (rule ∷ rules))
          (λ event over. (rule, mem-cons_self, over)) _ (flash_loan_of_sound rule chain_id counts))
        (All-map (RaisedBy chain_id counts rules) (RaisedBy chain_id counts (rule ∷ rules))
          (λ event (raiser, known, over). (raiser, mem-cons_of_mem rule known, over)) _
          (flash_loan_events_sound chain_id counts rules))

  busy_users_complete :
      (rule : Rule) (chain_id : ℕ) (min_ops : ℤ) (counts : Map String ℤ) (user : String) (count : ℤ)
      → Memᴰ (user, count) counts
      → leb_ℤ min_ops count ≡ true
      → Memᴰ
          (busy_event rule chain_id block user count)
          (busy_users atoi rule chain_id block min_ops counts)
  unfolding busy_users
  busy_users_complete rule chain_id min_ops [] user count m busy = elim m [ ]
  busy_users_complete rule chain_id min_ops ((v, c) ∷ counts) user count (Memᴰ.head e) busy =
      let same = ap (λ (z : String × ℤ). leb_ℤ min_ops z.1) e in
      let event = ap (λ (z : String × ℤ). busy_event rule chain_id block z.0 z.1) e in
      rw (sym same ∙ busy) (Memᴰ.head event)
  busy_users_complete rule chain_id min_ops ((v, c) ∷ counts) user count (Memᴰ.tail m) busy =
      let later = busy_users_complete rule chain_id min_ops counts user count m busy in
      elim (Bool-cases (leb_ℤ min_ops c)) [
        | inl over ↦ rw over (Memᴰ.tail later)
        | inr calm ↦ rw calm later
      ]

  rule_complete :
      (chain_id : ℕ) (counts : Map String ℤ) (rule : Rule) (rules : List Rule) (event : Event)
      → Memᴰ rule rules
      → Memᴰ event (flash_loan_of atoi chain_id block counts rule)
      → Mem event (flash_loan_events atoi chain_id block counts rules)
  unfolding flash_loan_events
  rule_complete chain_id counts rule [] event k m = elim k [ ]
  rule_complete chain_id counts rule (other ∷ rules) event (Memᴰ.head e) m =
      mem-append_left _
        (subst (λ (r : Rule). Mem event (flash_loan_of atoi chain_id block counts r)) e ∣ m ∣₁)
  rule_complete chain_id counts rule (other ∷ rules) event (Memᴰ.tail k) m =
      mem-append_right (flash_loan_of atoi chain_id block counts other)
        (rule_complete chain_id counts rule rules event k m)

  -- For each rule that is an enabled flash-loan rule with a number as its limit, and each user
  -- whose count of the block reaches the number, the flash-loan check raises the event of both.
  pub flash_loan_events_complete :
      (chain_id : ℕ) (counts : Map String ℤ) (rules : List Rule) (rule : Rule) (text : String)
      (min_ops : ℤ) (user : String) (count : ℤ)
      → Memᴰ rule rules
      → threshold_text flash_loan "min_ops_per_block" rule ≡ some text
      → atoi text ≡ some min_ops
      → Memᴰ (user, count) counts
      → leb_ℤ min_ops count ≡ true
      → Mem
          (busy_event rule chain_id block user count)
          (flash_loan_events atoi chain_id block counts rules)
  unfolding flash_loan_of
  flash_loan_events_complete chain_id counts rules rule text min_ops user count known e f m busy =
      rule_complete chain_id counts rule rules _ known (
        rw (flash_loan_of, e, f)
          (busy_users_complete rule chain_id min_ops counts user count m busy))
