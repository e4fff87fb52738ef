-- ===== src/Base/Bytes.antt =====
-- Byte strings as lists of numbers below 256, big-endian, as `math/big` reads and writes them, and
-- the `copy` of slices.
use native.Mathlib.Nat.{pow-suc, suc-add}
use mathlib.Core.Path.{ap₂}
use mathlib.Core.List.{append-nil, append_assoc}
use defi_demo.Base.{
  ℕ, zero, suc, ◌+◌, ◌-◌, ◌*◌, ◌/◌, ◌%◌, ◌^◌, ◌≤◌, ◌<◌, ◌≡◌, refl, ap, ◌∙◌, List, [], ◌∷◌, ◌++◌,
  arith, if◌then◌else◌, nat_eqb, length, replicate, take, drop, length-append, length-replicate,
  take-append, drop-append, drop-skip, replicate-add, false, sym,
}

-- `new(big.Int).SetBytes(bs)`
from_bytes_after : ℕ → List ℕ → ℕ
from_bytes_after acc [] = acc
from_bytes_after acc (b ∷ bs) = from_bytes_after (acc * 256 + b) bs

unfoldable pub from_bytes : List ℕ → ℕ
unfolding from_bytes_after
from_bytes bs = from_bytes_after 0 bs

-- The `w` bytes of a number, leading zeros included.
unfoldable pub to_word : ℕ → ℕ → List ℕ
to_word zero n = []
to_word (suc w) n = to_word w (n / 256) ++ (n % 256 ∷ [])

-- `n.Bytes()`: no leading zeros. The fuel `n` is enough, since each round divides by 256.
bytes_on : ℕ → ℕ → List ℕ
bytes_on zero n = []
bytes_on (suc f) n =
    let front = bytes_on f (n / 256) in if nat_eqb n 0 then [] else front ++ (n % 256 ∷ [])

unfoldable pub bytes : ℕ → List ℕ
unfolding bytes_on
bytes n = bytes_on n n

-- `copy(dst[offset:], src)`, for a source that fits.
unfoldable pub copy_at : List ℕ → ℕ → List ℕ → List ℕ
copy_at dst offset src = take offset dst ++ (src ++ drop (offset + length src) dst)

from_bytes_after-append :
    (acc : ℕ) (xs ys : List ℕ)
    → from_bytes_after acc (xs ++ ys) ≡ from_bytes_after (from_bytes_after acc xs) ys
unfolding from_bytes_after
from_bytes_after-append acc [] ys = refl
from_bytes_after-append acc (x ∷ xs) ys = from_bytes_after-append (acc * 256 + x) xs ys

pub length-to_word : (w n : ℕ) → length (to_word w n) ≡ w
unfolding to_word
length-to_word zero n = refl
length-to_word (suc w) n =
    omega (arith, length-append (to_word w (n / 256)) (n % 256 ∷ []), length-to_word w (n / 256))

div_pow : (w n : ℕ) → n < 256 ^ suc w → n / 256 < 256 ^ w
div_pow w n h = omega (arith, pow-suc 256 w)

-- A number that fits is read back from its bytes.
pub from_bytes-to_word : (w n : ℕ) → n < 256 ^ w → from_bytes (to_word w n) ≡ n
unfolding from_bytes to_word
from_bytes-to_word zero n h = omega arith
from_bytes-to_word (suc w) n h =
    from_bytes_after-append 0 (to_word w (n / 256)) (n % 256 ∷ [])
    ∙ omega (arith, from_bytes-to_word w (n / 256) (div_pow w n h))

replicate_snoc : (n b : ℕ) → replicate n b ++ (b ∷ []) ≡ b ∷ replicate n b
replicate_snoc zero b = refl
replicate_snoc (suc n) b = ap (◌∷◌ b) (replicate_snoc n b)

to_word-zero : (w : ℕ) → to_word w 0 ≡ replicate w 0
unfolding to_word
to_word-zero zero = refl
to_word-zero (suc w) = rw (to_word-zero w) (replicate_snoc w 0)

-- A list of bytes is the word of width `w`, less the leading zeros.
abbrev Pads : ℕ → ℕ → List ℕ → Type 0
Pads w n bs = (length bs ≤ w) × (replicate (w - length bs) 0 ++ bs ≡ to_word w n)

pad_zero : (w : ℕ) → Pads w 0 []
pad_zero w =
    let whole : w - 0 ≡ w = omega arith in
    (omega arith, rw (append-nil, whole) (sym (to_word-zero w)))

pad_snoc :
    (w n d : ℕ) (bs : List ℕ) → Pads w (n / 256) bs → n % 256 ≡ d → Pads (suc w) n (bs ++ (d ∷ []))
unfolding to_word
pad_snoc w n d bs (fits, e) last =
    let size = length-append bs (d ∷ []) in
    let room : suc w - length (bs ++ (d ∷ [])) ≡ w - length bs = omega (arith, size) in
    (
      omega (arith, size),
      rw room (
          sym (append_assoc (replicate (w - length bs) 0) bs (d ∷ []))
          ∙ ap₂ (λ (xs : List ℕ) (x : ℕ). xs ++ (x ∷ [])) e (sym last)),
    )

-- Padded on the left, the minimal bytes are the word.
pad_on : (w f n : ℕ) → n < 256 ^ w → n ≤ f → Pads w n (bytes_on f n)
unfolding bytes_on
pad_on w zero zero h k = pad_zero w
pad_on w zero (suc n) h k = absurd (omega arith)
pad_on w (suc f) zero h k = pad_zero w
pad_on zero (suc f) (suc n) h k = absurd (omega arith)
pad_on (suc w) (suc f) (suc n) h k =
    let more : nat_eqb (suc n) 0 ≡ false = ground arith in
    rw more (
      pad_snoc w (suc n) (suc n % 256) (bytes_on f (suc n / 256))
        (pad_on w f (suc n / 256) (div_pow w (suc n) h) (omega arith)) refl)

pub bytes-to_word :
    (w n : ℕ)
    → n < 256 ^ w
    → (length (bytes n) ≤ w) × (replicate (w - length (bytes n)) 0 ++ bytes n ≡ to_word w n)
unfolding bytes
bytes-to_word w n h = pad_on w n n h (omega arith)

-- A copy behind a prefix leaves the prefix.
pub copy_at-skip :
    (front xs src : List ℕ) (n m : ℕ)
    → m ≡ length front + n
    → copy_at (front ++ xs) m src ≡ front ++ copy_at xs n src
unfolding copy_at
copy_at-skip [] xs src n m h =
    rw h (ap (λ (k : ℕ). take k xs ++ (src ++ drop (k + length src) xs)) (omega arith))
copy_at-skip (x ∷ front) xs src n zero h = absurd (omega arith)
copy_at-skip (x ∷ front) xs src n (suc m) h =
    rw (suc-add m (length src)) (ap (◌∷◌ x) (copy_at-skip front xs src n m (omega arith)))

-- A copy that ends where a blank word ends fills the word from the right.
pub copy_at-word :
    (src rest : List ℕ) (n : ℕ)
    → length src ≤ 32
    → n ≡ 32 - length src
    → copy_at (replicate 32 0 ++ rest) n src ≡ replicate n 0 ++ (src ++ rest)
unfolding copy_at
copy_at-word src rest n fits h =
    let l = length src in
    let blank = replicate-add {A = ℕ} 0 n l 32 (omega arith) in
    let front = take-append n (replicate n 0) (replicate l 0 ++ rest) (length-replicate n 0) in
    let back =
      drop-skip (replicate n 0) (replicate l 0 ++ rest) l (n + l)
        (omega (arith, length-replicate {A = ℕ} n 0))
      ∙ drop-append l (replicate l 0) rest (length-replicate l 0) in
    let whole : replicate 32 0 ++ rest ≡ replicate n 0 ++ (replicate l 0 ++ rest) =
      ap (λ (z : List ℕ). z ++ rest) blank ∙ append_assoc (replicate n 0) (replicate l 0) rest in
    rw whole (rw (front, back))

-- A short word, padded, is the long word.
pub to_word-pad :
    (p w k n : ℕ)
    → k ≡ p + w
    → n < 256 ^ w
    → n < 256 ^ k
    → replicate p 0 ++ to_word w n ≡ to_word k n
to_word-pad p w k n h short long =
    let (a, e) = bytes-to_word w n short in
    let (b, f) = bytes-to_word k n long in
    let split =
      replicate-add {A = ℕ} 0 p (w - length (bytes n)) (k - length (bytes n)) (omega arith) in
    ap (λ (z : List ℕ). replicate p 0 ++ z) (sym e)
    ∙ sym (append_assoc (replicate p 0) (replicate (w - length (bytes n)) 0) (bytes n))
    ∙ ap (λ (z : List ℕ). z ++ bytes n) (sym split)
    ∙ f
