-- ===== src/Base/Texts.antt =====
-- Go strings as lists of bytes, and what the code uses of strings and strconv.
use Prim.Native.Char.{code}
use defi_demo.Base.{
  ℕ, zero, suc, ◌+◌, ◌-◌, ◌*◌, ◌/◌, ◌%◌, ◌^◌, ◌≡◌, refl, ◌↔◌, Bool, true, false, Option, none, some,
  List, [], ◌∷◌, ◌++◌, map, String, arith, Eq, nat_eqb, ltb, leb, ◌&&◌, ◌||◌, if◌then◌else◌,
}
use defi_demo.Base.Int.{ℤ, pos, negsuc, sub_ℕ}

abbrev pub Text : Type 0
Text = List ℕ

-- A literal, whose characters are ASCII.
abbrev pub codes : String → Text
codes String.[] = []
codes (String.◌∷◌ c s) = code c ∷ codes s

abbrev pub text_beq : Text → Text → Bool
text_beq [] [] = true
text_beq [] (y ∷ ys) = false
text_beq (x ∷ xs) [] = false
text_beq (x ∷ xs) (y ∷ ys) = nat_eqb x y && text_beq xs ys

text_beq_refl : (xs : Text) → text_beq xs xs ≡ true
text_beq_refl [] = refl
text_beq_refl (x ∷ xs) = ground (arith, text_beq_refl xs)

text_beq_sound : (xs ys : Text) → text_beq xs ys ≡ true → xs ≡ ys
text_beq_sound [] [] h = refl
text_beq_sound [] (y ∷ ys) h = ground arith
text_beq_sound (x ∷ xs) [] h = ground arith
text_beq_sound (x ∷ xs) (y ∷ ys) h = ground (arith, text_beq_sound xs ys)

pub text_beq_iff : (xs ys : Text) → (text_beq xs ys ≡ true) ↔ (xs ≡ ys)
text_beq_iff xs ys = (text_beq_sound xs ys, λ e. rw e (text_beq_refl ys))

instance abbrev pub text_eq : Eq Text
text_eq = record { beq = text_beq; beq_iff = text_beq_iff }

-- `strings.ToLower`, on ASCII; other bytes stay.
abbrev pub lower : ℕ → ℕ
lower c = if leb 65 c && leb c 90 then c + 32 else c

abbrev pub to_lower : Text → Text
to_lower s = map lower s

-- `strings.SplitN(s, sep, 2)` for a separator of one byte: two parts, or `none` for a single one.
unfoldable pub cut : ℕ → Text → Option (Text × Text)
cut sep [] = none
cut sep (c ∷ s) =
    if nat_eqb c sep
    then some ([], s)
    else (elim (cut sep s) [ none ↦ none | some (before, after) ↦ some (c ∷ before, after) ])

-- `strings.Split` for a separator of one byte: at least one part.
unfoldable pub split : ℕ → Text → List Text
split sep [] = [] ∷ []
split sep (c ∷ s) = elim (split sep s) [
  | [] ↦ (c ∷ []) ∷ []
  | part ∷ parts ↦ if nat_eqb c sep then [] ∷ (part ∷ parts) else (c ∷ part) ∷ parts
]

-- `strings.TrimSpace`, on ASCII.
abbrev pub is_space : ℕ → Bool
is_space c = nat_eqb c 32 || leb 9 c && leb c 13

unfoldable pub trim_left : Text → Text
trim_left [] = []
trim_left (c ∷ s) = let rest = trim_left s in if is_space c then rest else c ∷ s

unfoldable pub trim_right : Text → Text
trim_right [] = []
trim_right (c ∷ s) = elim (trim_right s) [
  | [] ↦ if is_space c then [] else c ∷ []
  | d ∷ rest ↦ c ∷ (d ∷ rest)
]

unfoldable pub trim_space : Text → Text
trim_space s = trim_right (trim_left s)

-- `%d` of a number. The fuel `n` is enough, since each round divides by 10.
unfoldable pub digits_on : ℕ → ℕ → Text
digits_on zero n = (48 + n) ∷ []
digits_on (suc f) n =
    let front = digits_on f (n / 10) in
    if ltb n 10 then (48 + n) ∷ [] else front ++ ((48 + n % 10) ∷ [])

unfoldable pub decimal : ℕ → Text
unfolding digits_on
decimal n = digits_on n n

-- `strconv.ParseUint(s, 10, 64)`: the loop stops at the first byte that is no digit, and as soon as
-- the number is too large.
pub data Digits : Type 0 where
  value : ℕ → Digits
  syntax range : Digits

abbrev pub is_digit : ℕ → Bool
is_digit c = leb 48 c && leb c 57

unfoldable pub parse_digits : ℕ → Text → Digits
parse_digits n [] = value n
parse_digits n (c ∷ s) =
    let next = n * 10 + (c - 48) in
    let rest = parse_digits next s in
    if is_digit c then (if ltb next (2 ^ 64) then rest else range) else syntax

unfoldable pub parse_uint : Text → Digits
parse_uint [] = syntax
parse_uint (c ∷ s) = parse_digits 0 (c ∷ s)

abbrev pub signed : Bool → Digits → ℤ × Bool
signed negative syntax = (pos 0, false)
signed true (value n) = if leb n (2 ^ 63) then (sub_ℕ 0 n, true) else (negsuc (2 ^ 63 - 1), false)
signed false (value n) = if ltb n (2 ^ 63) then (pos n, true) else (pos (2 ^ 63 - 1), false)
signed true range = (negsuc (2 ^ 63 - 1), false)
signed false range = (pos (2 ^ 63 - 1), false)

-- `strconv.ParseInt(s, 10, 64)`: the number, and whether there is no error. The number of a text that
-- is no number is 0, that of one out of range the nearest in range.
unfoldable pub parse_int : Text → ℤ × Bool
parse_int [] = (pos 0, false)
parse_int (c ∷ s) =
    if nat_eqb c 45
    then signed true (parse_uint s)
    else if nat_eqb c 43
    then signed false (parse_uint s)
    else signed false (parse_uint (c ∷ s))
