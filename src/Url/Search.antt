-- ===== src/Url/Search.antt =====
-- Searching and cutting texts.
use mathlib.Core.Option
use slicksocket.Base.{
  ℕ, suc, ◌+◌, ◌≡◌, refl, ap, ◌∙◌, inl, inr, Bool, true, false, none, some, Option, List, [], ◌∷◌,
  ◌++◌, arith, ◌==◌, ==_iff, ◌&&◌, ap₂, Bool-cases, length, take, drop,
}
use slicksocket.Url.{find_char, is_digit, same_text}
use slicksocket.Url.Decimal.{AllDigits}

Option-map-map :
    (n : ℕ) (o : Option ℕ)
    → Option.map suc (Option.map (λ i. n + i) o) ≡ Option.map (λ i. suc n + i) o
Option-map-map n none = refl
Option-map-map n (some i) = ap {B = Option ℕ} some (omega arith)

Option-map_zero : (o : Option ℕ) → o ≡ Option.map (λ i. 0 + i) o
Option-map_zero none = refl
Option-map_zero (some i) = ap {B = Option ℕ} some (omega arith)

map-suc-none : (o : Option ℕ) → Option.map suc o ≡ none → o ≡ none
map-suc-none none e = refl
map-suc-none (some i) e = cc

-- A text without the character is passed over.
pub find_char-append :
    (c : ℕ) (xs ys : List ℕ)
    → find_char c xs ≡ none
    → find_char c (xs ++ ys) ≡ Option.map (λ i. length xs + i) (find_char c ys)
find_char-append c [] ys absent = Option-map_zero (find_char c ys)
find_char-append c (x ∷ xs) ys absent = elim (Bool-cases (x == c)) [
  | inl here ↦ let found = rw here at absent in cc
  | inr other ↦
      let rest = map-suc-none (find_char c xs) (rw other at absent) in
      rw other (
        ap (Option.map suc) (find_char-append c xs ys rest)
        ∙ Option-map-map (length xs) (find_char c ys))
]

pub find_char-here : (c : ℕ) (xs : List ℕ) → find_char c (c ∷ xs) ≡ some 0
find_char-here c xs = ground arith

-- What comes behind a text without the character.
pub find_char-behind :
    (c : ℕ) (xs ys : List ℕ) → find_char c xs ≡ none → find_char c (xs ++ c ∷ ys) ≡ some (length xs)
find_char-behind c xs ys absent =
    find_char-append c xs (c ∷ ys) absent
    ∙ ap (Option.map (λ i. length xs + i)) (find_char-here c ys)
    ∙ ap {B = Option ℕ} some (omega arith)

pub find_char-digits :
    (c : ℕ) (xs : List ℕ) → is_digit c ≡ false → AllDigits xs → find_char c xs ≡ none
find_char-digits c [] other all = refl
find_char-digits c (x ∷ xs) other (digit, all) =
    let apart : (x == c) ≡ false = ground (arith, other, digit) in
    rw (apart, find_char-digits c xs other all) refl

pub take-append : (xs ys : List ℕ) → take (length xs) (xs ++ ys) ≡ xs
take-append [] ys = refl
take-append (x ∷ xs) ys = ap (λ l. x ∷ l) (take-append xs ys)

pub drop-append : (xs ys : List ℕ) → drop (length xs) (xs ++ ys) ≡ ys
drop-append [] ys = refl
drop-append (x ∷ xs) ys = drop-append xs ys

pub drop-behind : (xs : List ℕ) (c : ℕ) (ys : List ℕ) → drop (suc (length xs)) (xs ++ c ∷ ys) ≡ ys
drop-behind [] c ys = refl
drop-behind (x ∷ xs) c ys = drop-behind xs c ys

pub same_text_refl : (l : List ℕ) → same_text l l ≡ true
same_text_refl [] = refl
same_text_refl (x ∷ xs) = rw ((==_iff x x).1 refl) (same_text_refl xs)

&&-left : (b c : Bool) → (b && c) ≡ true → b ≡ true
&&-left true c e = refl
&&-left false c e = e

&&-right : (b c : Bool) → (b && c) ≡ true → c ≡ true
&&-right true c e = e
&&-right false c e = absurd (ground arith)

pub same_text-eq : (l m : List ℕ) → same_text l m ≡ true → l ≡ m
same_text-eq [] [] e = refl
same_text-eq [] (y ∷ ys) e = absurd (ground arith)
same_text-eq (x ∷ xs) [] e = absurd (ground arith)
same_text-eq (x ∷ xs) (y ∷ ys) e =
    ap₂ (λ z zs. z ∷ zs) ((==_iff x y).0 (&&-left (x == y) (same_text xs ys) e))
      (same_text-eq xs ys (&&-right (x == y) (same_text xs ys) e))
