-- ===== src/Url/Decimal.antt =====
-- Numbers as texts and back: `std::stoi` reads what `std::to_string` has written.
use slicksocket.Base.{
  ℕ, zero, suc, ◌+◌, ◌-◌, ◌*◌, ◌/◌, ◌%◌, ◌^◌, ◌<◌, ◌≡◌, refl, ap, ◌∙◌, inl, inr, true, false, some,
  Option, List, [], ◌∷◌, ◌++◌, arith, leb, ltb, ◌==◌, Bool-cases,
}
use slicksocket.Url.{
  is_digit, is_space, digits_from, starts_with_digit, signed, stoi, decimal, to_string,
}

abbrev pub AllDigits : List ℕ → Type 0
AllDigits [] = Unit {0}
AllDigits (c ∷ cs) = (is_digit c ≡ true) × AllDigits cs

digit-is_digit : (d : ℕ) → d < 10 → is_digit (48 + d) ≡ true
digit-is_digit d h = ground arith

snoc-AllDigits : (xs : List ℕ) (d : ℕ) → AllDigits xs → d < 10 → AllDigits (xs ++ (48 + d) ∷ [])
snoc-AllDigits [] d h lt = (digit-is_digit d lt, tt)
snoc-AllDigits (x ∷ xs) d (h, hs) lt = (h, snoc-AllDigits xs d hs lt)

digits_from-snoc :
    (v : ℕ) (xs : List ℕ) (d : ℕ)
    → AllDigits xs
    → d < 10
    → digits_from v (xs ++ (48 + d) ∷ []) ≡ digits_from v xs * 10 + d
digits_from-snoc v [] d h lt = rw (digit-is_digit d lt) (omega arith)
digits_from-snoc v (x ∷ xs) d (h, hs) lt = rw h (digits_from-snoc (v * 10 + (x - 48)) xs d hs lt)

-- How many numbers have so many digits.
abbrev pub power_of_ten : ℕ → ℕ
power_of_ten zero = 1
power_of_ten (suc f) = 10 * power_of_ten f

decimal-digits :
    (f n : ℕ) → n < power_of_ten f → AllDigits (decimal f n) × (digits_from 0 (decimal f n) ≡ n)
unfolding decimal
decimal-digits zero n h = (tt, omega arith)
decimal-digits (suc f) n h = elim (Bool-cases (ltb n 10)) [
  | inl one ↦
      let lt : n < 10 = ground (arith, one) in
      rw (one, digit-is_digit n lt) ((refl, tt), omega arith)
  | inr more ↦
      let (all, value) = decimal-digits f (n / 10) (omega arith) in
      let last : n % 10 < 10 = omega arith in
      rw more (
        snoc-AllDigits (decimal f (n / 10)) (n % 10) all last,
        digits_from-snoc 0 (decimal f (n / 10)) (n % 10) all last ∙ omega (arith, value),
      )
]

starts-append : (xs ys : List ℕ) → starts_with_digit xs ≡ true → starts_with_digit (xs ++ ys) ≡ true
starts-append [] ys h = cc
starts-append (x ∷ xs) ys h = h

starts-decimal : (f n : ℕ) → 0 < f → n < power_of_ten f → starts_with_digit (decimal f n) ≡ true
unfolding decimal
starts-decimal zero n pos h = absurd (omega arith)
starts-decimal (suc zero) n pos h =
    let one : ltb n 10 ≡ true = ground arith in rw one (digit-is_digit n (omega arith))
starts-decimal (suc (suc f)) n pos h = elim (Bool-cases (ltb n 10)) [
  | inl one ↦ let lt : n < 10 = ground (arith, one) in rw one (digit-is_digit n lt)
  | inr more ↦ rw more (
      starts-append (decimal (suc f) (n / 10)) ((48 + n % 10) ∷ [])
        (starts-decimal (suc f) (n / 10) (omega arith) (omega arith)))
]

signed-digits :
    (t : List ℕ)
    → starts_with_digit t ≡ true
    → digits_from 0 t < 2 ^ 31
    → signed false t ≡ some (digits_from 0 t)
signed-digits t h lt =
    let small : ltb (digits_from 0 t) (2 ^ 31) ≡ true = ground arith in rw (h, small) refl

-- A text that starts with a digit is read from there on.
stoi-digits :
    (t : List ℕ)
    → starts_with_digit t ≡ true
    → digits_from 0 t < 2 ^ 31
    → stoi t ≡ some (digits_from 0 t)
stoi-digits [] h lt = cc
stoi-digits (c ∷ cs) h lt =
    let lo : leb 48 c ≡ true = ground (arith, h) in
    let space : is_space c ≡ false = ground (arith, lo) in
    let minus : (c == 45) ≡ false = ground (arith, lo) in
    let plus : (c == 43) ≡ false = ground (arith, lo) in
    rw (space, minus, plus) (signed-digits (c ∷ cs) h lt)

pub record IsDecimal (t : List ℕ) (n : ℕ) : Type 0 where
  pub digits : AllDigits t
  pub value : digits_from 0 t ≡ n
  pub starts : starts_with_digit t ≡ true

pub to_string-IsDecimal : (n : ℕ) → n < 2 ^ 64 → IsDecimal (to_string n) n
unfolding to_string
to_string-IsDecimal n h =
    let (digits, value) = decimal-digits 20 n (omega arith) in
    record {
      digits = digits;
      value = value;
      starts = starts-decimal 20 n (omega arith) (omega arith);
    }

stoi-IsDecimal : (t : List ℕ) {n : ℕ} → IsDecimal t n → n < 2 ^ 31 → stoi t ≡ some n
stoi-IsDecimal t d h =
    stoi-digits t d.starts (omega (arith, d.value)) ∙ ap {B = Option ℕ} some d.value

-- `std::stoi` reads the number that `std::to_string` has written.
pub stoi-to_string : (n : ℕ) → n < 2 ^ 31 → stoi (to_string n) ≡ some n
stoi-to_string n h = stoi-IsDecimal (to_string n) (to_string-IsDecimal n (omega arith)) h
