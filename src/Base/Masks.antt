-- ===== src/Base/Masks.antt =====
-- A bit mask of k ones is the remainder by 2 ^ k, for every k.
use Prim.Native.Nat.{
  ℕ, zero, suc, ◌+◌, ◌-◌, ◌*◌, ◌/◌, ◌%◌, ◌^◌, ◌≤◌, ◌<◌, min, bit_and, digits, bit_and-bitwise,
}
use mathlib.Core.Path.{◌≡◌, refl, sym, ap, ◌∙◌}
use native.Mathlib.Nat.{pow-suc, one-le-pow, div-add-mod', mod-lt, add-mod_right}
use native.Mathlib.Omega.{arith}

abbrev and_digits : ℕ → ℕ → ℕ → ℕ
and_digits n a b = digits (λ b. zero) min n a b

-- More digits to go than the number has do not matter.
and_digits-fuel : (n m a b : ℕ) → a ≤ n → a ≤ m → and_digits n a b ≡ and_digits m a b
and_digits-fuel zero zero a b p q = refl
and_digits-fuel zero (suc m) zero b p q = refl
and_digits-fuel zero (suc m) (suc a) b p q = absurd (omega arith)
and_digits-fuel (suc n) zero zero b p q = refl
and_digits-fuel (suc n) zero (suc a) b p q = absurd (omega arith)
and_digits-fuel (suc n) (suc m) zero b p q = refl
and_digits-fuel (suc n) (suc m) (suc a) b p q =
    omega (arith, and_digits-fuel n m (suc a / 2) (b / 2) (omega arith) (omega arith))

zero-bit_and : (b : ℕ) → bit_and 0 b ≡ 0
zero-bit_and b = bit_and-bitwise 0 b

bit_and-step : (a b : ℕ) → bit_and a b ≡ bit_and (a / 2) (b / 2) * 2 + min (a % 2) (b % 2)
bit_and-step zero b = omega (arith, zero-bit_and b, zero-bit_and (b / 2))
bit_and-step (suc a) b = omega (
  arith,
  bit_and-bitwise (suc a) b,
  bit_and-bitwise (suc a / 2) (b / 2),
  and_digits-fuel a (suc a / 2) (suc a / 2) (b / 2) (omega arith) (omega arith),
)

bit_and-zero_below : (n a : ℕ) → a ≤ n → bit_and a 0 ≡ 0
bit_and-zero_below n zero h = refl
bit_and-zero_below zero (suc a) h = absurd (omega arith)
bit_and-zero_below (suc n) (suc a) h =
    omega (arith, bit_and-step (suc a) 0, bit_and-zero_below n (suc a / 2) (omega arith))

bit_and-split : (k q r : ℕ) → r < 2 ^ k → bit_and (q * 2 ^ k + r) (2 ^ k - 1) ≡ r
bit_and-split zero q r h = omega (arith, bit_and-zero_below (q * 1 + r) (q * 1 + r) (omega arith))
bit_and-split (suc k) q r h =
    let e : 2 ^ suc k ≡ 2 ^ k * 2 = pow-suc 2 k in
    let half : (q * 2 ^ suc k + r) / 2 ≡ q * 2 ^ k + r / 2 =
      omega (arith, e, ap (λ (t : ℕ). q * t) e) in
    let odd : (q * 2 ^ suc k + r) % 2 ≡ r % 2 = omega (arith, e, ap (λ (t : ℕ). q * t) e) in
    let ones : (2 ^ suc k - 1) / 2 ≡ 2 ^ k - 1 = omega (arith, e) in
    let one : (2 ^ suc k - 1) % 2 ≡ 1 = omega (arith, e, one-le-pow k 2) in
    bit_and-step (q * 2 ^ suc k + r) (2 ^ suc k - 1)
    ∙ rw (half, odd, ones, one, bit_and-split k q (r / 2) (omega (arith, e))) (omega arith)

pub record IsPowerOfTwo (n : ℕ) : Type 0 where
  pub exponent : ℕ
  pub is_power : n ≡ 2 ^ exponent

-- `x & (n - 1)` for a power of two n.
pub bit_and-mask : (n a : ℕ) → IsPowerOfTwo n → bit_and a (n - 1) ≡ a % n
bit_and-mask n a p =
    let e = p.is_power in
    let k = p.exponent in
    let small : a % 2 ^ k < 2 ^ k = mod-lt a (one-le-pow k 2 (omega arith)) in
    let whole : a / 2 ^ k * 2 ^ k + a % 2 ^ k ≡ a = div-add-mod' a (2 ^ k) in
    rw e
      (ap (λ t. bit_and t (2 ^ k - 1)) (sym whole) ∙ bit_and-split k (a / 2 ^ k) (a % 2 ^ k) small)

pub pow-pos : (n : ℕ) → IsPowerOfTwo n → 0 < n
pow-pos n p = rw p.is_power (one-le-pow p.exponent 2 (omega arith))

-- The test of the constructors' assertion.
pub bit_and-self_mask : (n : ℕ) → IsPowerOfTwo n → bit_and n (n - 1) ≡ 0
bit_and-self_mask n p = bit_and-mask n n p ∙ ground (arith, add-mod_right 0 n)
