-- ===== src/Base/Modular.antt =====
-- Positions on a ring: two positions less than one round apart, seen as indices.
use Prim.Native.Nat.{ℕ, ◌+◌, ◌-◌, ◌%◌, ◌≤◌, ◌<◌}
use mathlib.Core.Path.{◌≡◌, ap, ◌∙◌}
use mathlib.Core.Logic.{◌≢◌, ◌⊎◌, inl, inr}
use native.Mathlib.Decide.{dec_lt}
use native.Mathlib.Nat.{mod-eq_of_lt, mod-eq-sub-mod, mod-add-mod, mod-lt, add-mod_right, sub-zero}
use native.Mathlib.Omega.{arith}

-- The index of a position that is less than a round ahead of another: it is ahead by as much, or
-- has gone round once.
pub mod-ahead :
    (p d n : ℕ)
    → 0 < n
    → d < n
    → ((p % n + d < n) × ((p + d) % n ≡ p % n + d))
      ⊎ ((n ≤ p % n + d) × ((p + d) % n + n ≡ p % n + d))
mod-ahead p d n hn hd = elim (dec_lt (p % n + d) n) [
  | yes lt ↦ inl (lt, omega (arith, mod-add-mod p n d, mod-eq_of_lt lt))
  | no ge ↦ inr (
    omega arith,
    omega (
      arith,
      mod-add-mod p n d,
      mod-eq-sub-mod {n = p % n + d} {m = n} (omega arith),
      mod-eq_of_lt {n = p % n + d - n} {m = n} (omega arith),
    ),
  )
]

pub mod-between :
    (p q n : ℕ) → p ≤ q → q < p + n → (q % n ≡ p % n + (q - p)) ⊎ (q % n + n ≡ p % n + (q - p))
mod-between p q n le lt =
    let sum : p + (q - p) ≡ q = omega arith in
    omega (arith, ap (λ t. t % n) sum, mod-ahead p (q - p) n (omega arith) (omega arith))

-- Two positions less than a round apart have different indices.
pub mod-apart : (p q n : ℕ) → p < q → q < p + n → q % n ≢ p % n
mod-apart p q n lt near = omega (arith, mod-between p q n (omega arith) near)

-- From a position to the start of the next round.
pub mod-round : (p n : ℕ) → 0 < n → (p + (n - p % n)) % n ≡ 0
mod-round p n pos = elim (dec_lt 0 (p % n)) [
  | yes some_left ↦
      omega (arith, mod-lt p pos, mod-ahead p (n - p % n) n pos (omega (arith, mod-lt p pos)))
  | no none_left ↦ let e : p % n ≡ 0 = omega arith in rw (e, sub-zero) (add-mod_right p n ∙ e)
]
