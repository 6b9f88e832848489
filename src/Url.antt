-- ===== src/Url.antt =====
-- Texts and numbers of addresses: what the clients' constructors use of `std::string`, and of
-- `std::stoi` for decimal numbers. An `int` is its 32 bits, an `int16_t` its 16 bits.
pub mod Decimal
pub mod Search
use mathlib.Core.Option
use slicksocket.Base.{
  zero, ◌/◌, ◌++◌, ℕ, suc, ◌+◌, ◌-◌, ◌*◌, ◌%◌, ◌^◌, Bool, true, false, not, ◌&&◌, ◌||◌, Option,
  none, some, List, [], ◌∷◌, leb, ltb, ◌==◌, if◌then◌else◌, take, drop,
}

-- `find` of a character; `none` is `npos`.
abbrev pub find_char : ℕ → List ℕ → Option ℕ
find_char c [] = none
find_char c (x ∷ xs) = if x == c then some 0 else Option.map suc (find_char c xs)

abbrev pub starts_with : List ℕ → List ℕ → Bool
starts_with [] t = true
starts_with (c ∷ cs) [] = false
starts_with (c ∷ cs) (x ∷ xs) = x == c && starts_with cs xs

-- `find` of a text.
abbrev pub find_text : List ℕ → List ℕ → Option ℕ
find_text t [] = if starts_with t [] then some 0 else none
find_text t (x ∷ xs) = if starts_with t (x ∷ xs) then some 0 else Option.map suc (find_text t xs)

-- `substr(pos, n)`, for a `pos` that is not behind the end.
abbrev pub substr : List ℕ → ℕ → ℕ → List ℕ
substr t pos n = take n (drop pos t)

abbrev pub is_space : ℕ → Bool
is_space c = c == 32 || leb 9 c && leb c 13

abbrev pub is_digit : ℕ → Bool
is_digit c = leb 48 c && leb c 57

abbrev pub skip_space : List ℕ → List ℕ
skip_space [] = []
skip_space (c ∷ cs) = if is_space c then skip_space cs else c ∷ cs

-- The number that the digits in front make, behind those read before.
abbrev pub digits_from : ℕ → List ℕ → ℕ
digits_from v [] = v
digits_from v (c ∷ cs) = if is_digit c then digits_from (v * 10 + (c - 48)) cs else v

abbrev pub starts_with_digit : List ℕ → Bool
starts_with_digit [] = false
starts_with_digit (c ∷ cs) = is_digit c

-- Of a number with its sign, the bits; `none` where `std::stoi` throws.
abbrev pub signed : Bool → List ℕ → Option ℕ
signed negative t =
    if not (starts_with_digit t)
    then none
    else if negative
    then if leb (digits_from 0 t) (2 ^ 31) then some ((2 ^ 32 - digits_from 0 t) % 2 ^ 32) else none
    else if ltb (digits_from 0 t) (2 ^ 31)
    then some (digits_from 0 t)
    else none

abbrev pub after_space : List ℕ → Option ℕ
after_space [] = none
after_space (c ∷ cs) =
    if c == 45 then signed true cs else if c == 43 then signed false cs else signed false (c ∷ cs)

abbrev pub stoi : List ℕ → Option ℕ
stoi t = after_space (skip_space t)

-- An `int` kept in an `int16_t`, and back.
abbrev pub int16_of : ℕ → ℕ
int16_of n = n % 2 ^ 16

abbrev pub int_of : ℕ → ℕ
int_of p = if ltb p (2 ^ 15) then p else p + (2 ^ 32 - 2 ^ 16)

-- -1 as an `int16_t`, the port that is not set.
abbrev pub no_port : ℕ
no_port = 65535

abbrev pub colon : ℕ
colon = 58

abbrev pub slash : ℕ
slash = 47

abbrev pub same_text : List ℕ → List ℕ → Bool
same_text [] [] = true
same_text [] (y ∷ ys) = false
same_text (x ∷ xs) [] = false
same_text (x ∷ xs) (y ∷ ys) = x == y && same_text xs ys

-- The decimal digits of a number that has no more than `fuel` of them.
pub decimal : ℕ → ℕ → List ℕ
decimal zero n = []
decimal (suc fuel) n =
    let before = decimal fuel (n / 10) in
    if ltb n 10 then (48 + n) ∷ [] else before ++ (48 + n % 10) ∷ []

-- `std::to_string` of a `size_t`: below 2 ^ 64 there are no more than 20 digits.
pub to_string : ℕ → List ℕ
unfolding decimal
to_string n = decimal 20 n
