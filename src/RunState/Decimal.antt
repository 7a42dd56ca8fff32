-- ===== src/RunState/Decimal.antt =====
-- Numbers in decimal, as `String(n)` prints and `Number(digits)` reads them.
use lark_remote.Common.{
  ℕ, zero, suc, ◌+◌, ◌-◌, ◌*◌, ◌/◌, ◌%◌, ◌≤◌, ◌<◌, ◌≡◌, refl, Text, [], ◌∷◌, ◌++◌, length, ltb,
  within, if◌then◌else◌, arith, ◌∙◌, ap, inl, inr, Bool-cases, true, false, Bool, leb, ◌&&◌, leb,
  ◌&&◌,
}

print_from : ℕ → ℕ → Text → Text
print_from zero n rest = rest
print_from (suc f) n rest =
    let longer = print_from f (n / 10) ((48 + n % 10) ∷ rest) in
    if ltb n 10 then (48 + n) ∷ rest else longer

-- `String(n)`; the fuel is one for each unit, and a number has fewer digits.
unfoldable pub print : ℕ → Text
unfolding print_from
print n = print_from (suc n) n []

is_digit : ℕ → Bool
is_digit c = within 48 57 c

-- The number read so far, and what follows the digits.
unfoldable pub read_from : ℕ → Text → ℕ × Text
unfolding is_digit
read_from a [] = (a, [])
read_from a (c ∷ s) =
    let longer = read_from (a * 10 + (c - 48)) s in if is_digit c then longer else (a, c ∷ s)

count : ℕ → ℕ → ℕ
count zero n = 0
count (suc f) n = let more = suc (count f (n / 10)) in if ltb n 10 then 1 else more

-- How many digits the print has.
unfoldable pub digits : ℕ → ℕ
unfolding count
digits n = count (suc n) n

length-print_from : (f n : ℕ) (rest : Text) → length (print_from f n rest) ≡ count f n + length rest
unfolding print_from count
length-print_from zero n rest = omega arith
length-print_from (suc f) n rest =
    ground (arith, length-print_from f (n / 10) ((48 + n % 10) ∷ rest))

pub length-print : (n : ℕ) → length (print n) ≡ digits n
unfolding print digits
length-print n = omega (arith, length-print_from (suc n) n [])

count_fuel : (f g n : ℕ) → n < f → n < g → count f n ≡ count g n
unfolding count
count_fuel zero g n h k = elim h [ ]
count_fuel (suc f) zero n h k = elim k [ ]
count_fuel (suc f) (suc g) n h k = ground (arith, count_fuel f g (n / 10))

count_mono : (f m n : ℕ) → m ≤ n → n < f → count f m ≤ count f n
unfolding count
count_mono zero m n h k = elim k [ ]
count_mono (suc f) m n h k = ground (arith, count_mono f (m / 10) (n / 10))

pub digits_mono : (m n : ℕ) → m ≤ n → digits m ≤ digits n
unfolding digits
digits_mono m n h = omega (arith, count_mono (suc n) m n h, count_fuel (suc m) (suc n) m)

count-le : (f n : ℕ) → count f n ≤ n / 2 + 1
unfolding count
count-le zero n = omega arith
count-le (suc f) n = ground (arith, count-le f (n / 10))

pub digits-le : (n : ℕ) → digits n ≤ n / 2 + 1
unfolding digits
digits-le n = count-le (suc n) n

read-print_from :
    (f n : ℕ) (rest : Text) → n < f → read_from 0 (print_from f n rest) ≡ read_from n rest
unfolding print_from read_from
read-print_from zero n rest h = elim h [ ]
read-print_from (suc f) n rest h = elim (Bool-cases (ltb n 10)) [
  | inl small ↦ rw small (ground arith)
  | inr large ↦
      rw large (read-print_from f (n / 10) ((48 + n % 10) ∷ rest) (ground arith) ∙ ground arith)
]

print_from-append :
    (f n : ℕ) (rest more : Text) → print_from f n rest ++ more ≡ print_from f n (rest ++ more)
unfolding print_from
print_from-append zero n rest more = refl
print_from-append (suc f) n rest more =
    ground (arith, print_from-append f (n / 10) ((48 + n % 10) ∷ rest) more)

-- Reading a printed number gives it back, with what follows.
pub read-print : (n : ℕ) (rest : Text) → read_from 0 (print n ++ rest) ≡ read_from n rest
unfolding print
read-print n rest =
    ap (read_from 0) (print_from-append (suc n) n [] rest)
    ∙ read-print_from (suc n) n rest (omega arith)

abbrev pub starts_with_digit : Text → Bool
starts_with_digit [] = false
starts_with_digit (c ∷ s) = leb 48 c && leb c 57

starts-print_from :
    (f n : ℕ) (c : ℕ) (rest more : Text)
    → 48 ≤ c
    → c ≤ 57
    → starts_with_digit (print_from f n (c ∷ rest) ++ more) ≡ true
unfolding print_from
starts-print_from zero n c rest more h k = ground arith
starts-print_from (suc f) n c rest more h k =
    ground (arith, starts-print_from f (n / 10) (48 + n % 10) (c ∷ rest) more)

pub starts-print : (n : ℕ) (more : Text) → starts_with_digit (print n ++ more) ≡ true
unfolding print print_from
starts-print n more = ground (arith, starts-print_from n (n / 10) (48 + n % 10) [] more)
