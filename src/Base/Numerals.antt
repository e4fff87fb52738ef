-- ===== src/Base/Numerals.antt =====
-- Go's decimal texts: what `%d` writes, `strconv.ParseInt` reads back.
use defi_demo.Base.{
  ℕ, zero, suc, ◌+◌, ◌-◌, ◌*◌, ◌/◌, ◌%◌, ◌^◌, ◌<◌, ◌≤◌, ◌≡◌, refl, ap, sym, ◌∙◌, Bool, true, false,
  [], ◌∷◌, ◌++◌, arith, inl, inr, Bool-cases, List-cases, nat_eqb, ltb, lt→ltb, ltb→lt,
}
use defi_demo.Base.Int.{ℤ, pos, negsuc}
use defi_demo.Base.Texts.{
  Text, decimal, digits_on, value, syntax, range, is_digit, parse_digits, parse_uint, signed,
  parse_int,
}

value_injective : (a b : ℕ) → value a ≡ value b → a ≡ b
value_injective a b h = ground arith

syntax_value : (m : ℕ) → syntax ≡ value m → ⊥
syntax_value m h = ground arith

range_value : (m : ℕ) → range ≡ value m → ⊥
range_value m h = ground arith

le_refl : (n : ℕ) → n ≤ n
le_refl n = omega arith

last_digit : (n : ℕ) → is_digit (48 + n % 10) ≡ true
last_digit n = ground arith

append_full : (s : Text) (d : ℕ) → s ++ (d ∷ []) ≡ [] → ⊥
append_full [] d h = ground arith
append_full (c ∷ s) d h = ground arith

digits_on_full : (f n : ℕ) → digits_on f n ≡ [] → ⊥
unfolding digits_on
digits_on_full zero n h = ground arith
digits_on_full (suc f) n h = elim (Bool-cases (ltb n 10)) [
  | inl single ↦ let bad : ((48 + n) ∷ []) ≡ [] = rw single at h in ground arith
  | inr more ↦ append_full (digits_on f (n / 10)) (48 + n % 10) (rw more at h)
]

first_digit : (c : ℕ) (s : Text) (n : ℕ) → parse_digits 0 (c ∷ s) ≡ value n → is_digit c ≡ true
unfolding parse_digits
first_digit c s n h = elim (Bool-cases (is_digit c)) [
  | inl digit ↦ digit
  | inr letter ↦ absurd (syntax_value n (rw letter at h))
]

-- A text that starts with a digit has no sign.
unsigned :
    (c : ℕ) (s : Text) (n : ℕ)
    → n < 2 ^ 63
    → parse_digits 0 (c ∷ s) ≡ value n
    → parse_int (c ∷ s) ≡ (pos n, true)
unfolding parse_int parse_uint
unsigned c s n small h =
    let digit = first_digit c s n h in
    let no_minus : nat_eqb c 45 ≡ false = ground arith in
    let no_plus : nat_eqb c 43 ≡ false = ground arith in
    rw (no_minus, no_plus, h) (rw (lt→ltb n (2 ^ 63) small) refl)

parse_digits-snoc :
    (a m d : ℕ) (s : Text)
    → parse_digits a s ≡ value m
    → is_digit d ≡ true
    → m * 10 + (d - 48) < 2 ^ 64
    → parse_digits a (s ++ (d ∷ [])) ≡ value (m * 10 + (d - 48))
unfolding parse_digits
parse_digits-snoc a m d [] h digit small =
    let e : a ≡ m = value_injective a m h in rw (digit, e) (rw (lt→ltb _ _ small) refl)
parse_digits-snoc a m d (c ∷ s) h digit small = elim (Bool-cases (is_digit c)) [
  | inr letter ↦ absurd (syntax_value m (rw letter at h))
  | inl number ↦ elim (Bool-cases (ltb (a * 10 + (c - 48)) (2 ^ 64))) [
    | inr large ↦ absurd (range_value m (rw (number, large) at h))
    | inl fits ↦
        rw (number, fits)
          (parse_digits-snoc (a * 10 + (c - 48)) m d s (rw (number, fits) at h) digit small)
  ]
]

parse_digit : (n : ℕ) → n < 10 → parse_digits 0 ((48 + n) ∷ []) ≡ value n
unfolding parse_digits
parse_digit n small = ground arith

pub parse_digits-digits_on :
    (f n : ℕ) → n ≤ f → n < 2 ^ 64 → parse_digits 0 (digits_on f n) ≡ value n
unfolding digits_on
parse_digits-digits_on zero n h small = parse_digit n (omega arith)
parse_digits-digits_on (suc f) n h small = elim (Bool-cases (ltb n 10)) [
  | inl single ↦ rw single (parse_digit n (ltb→lt n 10 single))
  | inr more ↦
      let ten : 10 ≤ n = ground arith in
      let value_of : n / 10 * 10 + (48 + n % 10 - 48) ≡ n = omega arith in
      rw more (
        parse_digits-snoc 0 (n / 10) (48 + n % 10) (digits_on f (n / 10))
          (parse_digits-digits_on f (n / 10) (omega arith) (omega arith)) (last_digit n)
          (omega (arith, value_of, small))
        ∙ ap value value_of)
]

-- A number in range starts with a digit.
parse_uint-decimal : (n : ℕ) → n < 2 ^ 64 → parse_uint (decimal n) ≡ value n
unfolding decimal parse_uint
parse_uint-decimal n small =
    let read = parse_digits-digits_on n n (le_refl n) small in
    elim (List-cases (digits_on n n)) [
      | inl empty ↦ absurd (digits_on_full n n empty)
      | inr (c, s, e) ↦ rw e (rw e at read)
    ]

pub parse_int-decimal : (n : ℕ) → n < 2 ^ 63 → parse_int (decimal n) ≡ (pos n, true)
unfolding decimal parse_int
parse_int-decimal n small =
    let read = parse_digits-digits_on n n (le_refl n) (omega arith) in
    elim (List-cases (digits_on n n)) [
      | inl empty ↦ absurd (digits_on_full n n empty)
      | inr (c, s, e) ↦ rw e (unsigned c s n small (rw e at read))
    ]

-- `%d` of an int64.
abbrev pub signed_decimal : ℤ → Text
signed_decimal (pos n) = decimal n
signed_decimal (negsuc n) = 45 ∷ decimal (suc n)

abbrev pub IsInt64 : ℤ → Type 0
IsInt64 (pos n) = n < 2 ^ 63
IsInt64 (negsuc n) = n < 2 ^ 63

negated : (n : ℕ) → n < 2 ^ 63 → signed true (value (suc n)) ≡ (negsuc n, true)
negated n small = ground arith

pub parse_int-signed_decimal : (a : ℤ) → IsInt64 a → parse_int (signed_decimal a) ≡ (a, true)
unfolding parse_int
parse_int-signed_decimal (pos n) small = parse_int-decimal n small
parse_int-signed_decimal (negsuc n) small =
    rw (parse_uint-decimal (suc n) (omega arith)) (negated n small)

-- Two int64 with the same text are equal.
pub signed_decimal-injective :
    (a b : ℤ) → IsInt64 a → IsInt64 b → signed_decimal a ≡ signed_decimal b → a ≡ b
signed_decimal-injective a b h k e =
    ap (λ (r : ℤ × Bool). r.0)
      (sym (parse_int-signed_decimal a h) ∙ ap parse_int e ∙ parse_int-signed_decimal b k)
