-- ===== src/Prelude/Decimal.antt =====
-- Go's `%d` and `strconv.ParseInt(s, 10, 64)` on texts.
use Prim.Native.Nat.{ℕ, zero, suc, ◌+◌, ◌-◌, ◌*◌, ◌/◌, ◌%◌, ◌^◌, ◌≤◌, ◌<◌}
use mathlib.Core.Path.{◌≡◌, refl, ap, ◌∙◌}
use mathlib.Core.Logic.{inl, inr}
use mathlib.Core.Bool.{Bool, true, false, ◌&&◌}
use mathlib.Core.List.{[], ◌∷◌}
use mathlib.Core.Option.{Option, none, some}
use native.Mathlib.Omega.{arith}
use orxies.Prelude.Tests.{leb, ◌==◌, if◌then◌else◌, Bool-cases}
use orxies.Prelude.Keys.{Text}
use orxies.Prelude.Bytes.{has_byte, is_empty}
use orxies.Prelude.Int.{ℤ, pos, sub_ℕ}

-- The digits of a number in front of a text. Each round takes the last digit.
unfoldable pub print_digits : ℕ → ℕ → Text → Text
print_digits zero n rest = rest
print_digits (suc rounds) n rest =
    let more = print_digits rounds (n / 10) ((48 + n % 10) ∷ rest) in
    if n / 10 == 0 then (48 + n % 10) ∷ rest else more

-- 20 rounds are enough for an int64.
unfoldable pub print_int : ℕ → Text
unfolding print_digits
print_int n = print_digits 20 n []

abbrev pub is_digit : ℕ → Bool
is_digit c = leb 48 c && leb c 57

unfoldable pub parse_digits : Text → ℕ → Option ℕ
parse_digits [] n = some n
parse_digits (c ∷ s) n =
    let rest = parse_digits s (n * 10 + (c - 48)) in if is_digit c then rest else none

-- At least one digit.
abbrev pub parse_nat : Text → Option ℕ
parse_nat [] = none
parse_nat (c ∷ s) = parse_digits (c ∷ s) 0

abbrev pub at_most : ℕ → Option ℕ → Option ℕ
at_most m none = none
at_most m (some n) = if leb n m then some n else none

abbrev pub signed : (ℕ → ℤ) → Option ℕ → Option ℤ
signed f none = none
signed f (some n) = some (f n)

abbrev pub max_int64 : ℕ
max_int64 = 2 ^ 63 - 1

-- A sign may stand in front. `none` for an error, also of range.
unfoldable pub parse_int : Text → Option ℤ
unfolding parse_digits
parse_int [] = none
parse_int (c ∷ s) =
    if c == 43
    then signed pos (at_most max_int64 (parse_nat s))
    else if c == 45
    then signed (λ n. sub_ℕ 0 n) (at_most (2 ^ 63) (parse_nat s))
    else signed pos (at_most max_int64 (parse_digits (c ∷ s) 0))

parse_digits-digit :
    (n q : ℕ) (rest : Text)
    → q ≡ n / 10
    → parse_digits ((48 + n % 10) ∷ rest) q ≡ parse_digits rest n
unfolding parse_digits
parse_digits-digit n q rest e =
    let digit : is_digit (48 + n % 10) ≡ true = ground arith in
    let value : q * 10 + (48 + n % 10 - 48) ≡ n = omega (arith, e) in rw (digit, value) refl

parse_digits-print_digits :
    (rounds n : ℕ) (rest : Text)
    → n < 10 ^ rounds
    → parse_digits (print_digits rounds n rest) 0 ≡ parse_digits rest n
unfolding print_digits
parse_digits-print_digits zero n rest h =
    let none_left : 0 ≡ n = omega arith in ap (parse_digits rest) none_left
parse_digits-print_digits (suc rounds) n rest h = elim (Bool-cases (n / 10 == 0)) [
  | inl last ↦
      let none_left : 0 ≡ n / 10 = ground arith in rw last (parse_digits-digit n 0 rest none_left)
  | inr more ↦ rw more (
      parse_digits-print_digits rounds (n / 10) ((48 + n % 10) ∷ rest) (omega arith)
      ∙ parse_digits-digit n (n / 10) rest refl)
]

print_digits-has_byte :
    (rounds n c : ℕ) (rest : Text)
    → is_digit c ≡ false
    → has_byte (print_digits rounds n rest) c ≡ has_byte rest c
unfolding print_digits
print_digits-has_byte zero n c rest h = refl
print_digits-has_byte (suc rounds) n c rest h =
    ground (arith, print_digits-has_byte rounds (n / 10) c ((48 + n % 10) ∷ rest) h)

-- No byte but digits.
pub print_int-has_byte : (n c : ℕ) → is_digit c ≡ false → has_byte (print_int n) c ≡ false
unfolding print_int
print_int-has_byte n c h = print_digits-has_byte 20 n c [] h

print_int_digits : (n : ℕ) → n ≤ max_int64 → parse_digits (print_int n) 0 ≡ some n
unfolding print_int parse_digits
print_int_digits n h = parse_digits-print_digits 20 n [] (omega arith)

digit_first :
    (s : Text)
    → has_byte s 43 ≡ false
    → has_byte s 45 ≡ false
    → (n : ℕ) → parse_digits s 0 ≡ some n
    → n ≤ max_int64
    → is_empty s ≡ false
    → parse_int s ≡ some (pos n)
unfolding parse_int
digit_first [] p m n e h full = ground arith
digit_first (c ∷ s) p m n e h full = ground (arith, e)

print_digits-full :
    (rounds n a : ℕ) (rest : Text) → is_empty (print_digits rounds n (a ∷ rest)) ≡ false
unfolding print_digits
print_digits-full zero n a rest = refl
print_digits-full (suc rounds) n a rest =
    ground (arith, print_digits-full rounds (n / 10) (48 + n % 10) (a ∷ rest))

print_int-full : (n : ℕ) → is_empty (print_int n) ≡ false
unfolding print_int print_digits
print_int-full n = ground (arith, print_digits-full 19 (n / 10) (48 + n % 10) [])

-- A time is read back as it was printed.
pub parse_int-print_int : (n : ℕ) → n ≤ max_int64 → parse_int (print_int n) ≡ some (pos n)
parse_int-print_int n h =
    digit_first (print_int n) (print_int-has_byte n 43 refl) (print_int-has_byte n 45 refl) n
      (print_int_digits n h) h (print_int-full n)
