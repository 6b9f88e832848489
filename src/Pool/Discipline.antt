-- ===== src/Pool/Discipline.antt =====
-- Callers that give back each object once: the pool never hands one object to two of them.
pub mod Held
pub mod Sound
pub mod Exhausted
use native.Mathlib.Decide.{dec_lt}
use slicksocket.Base.{
  ℕ, zero, suc, ◌+◌, ◌-◌, ◌%◌, ◌^◌, ◌≤◌, ◌<◌, ◌≡◌, ◌≢◌, refl, sym, ap, subst, subst₂, ◌∙◌, ◌⊎◌, inl,
  inr, Option, none, some, List, [], ◌∷◌, arith, length, get_or, set, length-set, get_or-set_ne,
  ltb, leb, if◌then◌else◌, bit_and, bit_and-mask, mod-eq_of_lt, mod-lt, IsPowerOfTwo, pow-pos,
  add64, ◌&&◌, ◌==◌, ==_iff, Bool-cases, Bool, true, false,
}
use slicksocket.Pool.{Pool, create, count_up, mask, object, get_obj, release_obj}

-- The objects that callers have, newest first.
abbrev pub Live : Type 0
Live = List ℕ

-- The test of `release_obj`.
abbrev pub owned : ℕ → ℕ → ℕ → Bool
owned base size a = leb base a && ltb a (base + size)

-- How many of them are the pool's own.
abbrev pub pooled : ℕ → ℕ → Live → ℕ
pooled base size [] = 0
pooled base size (a ∷ l) = (if owned base size a then 1 else 0) + pooled base size l

abbrev pub Absent : ℕ → Live → Type 0
Absent a [] = Unit {0}
Absent a (b ∷ l) = (a ≢ b) × Absent a l

abbrev pub Distinct : Live → Type 0
Distinct [] = Unit {0}
Distinct (a ∷ l) = Absent a l × Distinct l

-- No live object of the pool is one that the pool will still give out.
abbrev pub Below : ℕ → ℕ → ℕ → Live → Type 0
Below base size n [] = Unit {0}
Below base size n (a ∷ l) = (owned base size a ≡ true → a < base + n) × Below base size n l

abbrev pub IsLive : ℕ → Live → Type 0
IsLive a [] = ⊥
IsLive a (b ∷ l) = (a ≡ b) ⊎ IsLive a l

abbrev pub remove : ℕ → Live → Live
remove a [] = []
remove a (b ∷ l) = if a == b then l else b ∷ remove a l

pub record IsSound (p : Pool) (l : Live) : Type 0 where
  pub power : IsPowerOfTwo p.size
  pub small : p.size ≤ 2 ^ 63
  pub allocated : length p.index ≡ p.size
  pub reading : p.read_cursor < p.size
  pub balance : p.write_cursor + pooled p.base p.size l ≡ p.read_cursor
  pub distinct : Distinct l
  pub below : Below p.base p.size p.read_cursor l
  pub untouched : (j : ℕ) → p.read_cursor ≤ j → j < p.size → get_or p.index j 0 ≡ j

-- The calls of a client that releases only what it has, and what `new` may return to it: an object
-- outside the pool that nobody has.
pub data Step (p : Pool) (l : Live) : Pool → Live → Type 0 where
  gets :
      (heap : ℕ)
      → owned p.base p.size heap ≡ false
      → Absent heap l
      → {a : ℕ} {q : Pool} → get_obj p (some heap) ≡ (some a, q)
      → Step p l q (a ∷ l)
  fails : {q : Pool} → get_obj p none ≡ (none, q) → Step p l q l
  releases : (a : ℕ) → IsLive a l → Step p l (release_obj p a) (remove a l)

pub data Reach (p : Pool) (l : Live) : Pool → Live → Type 0 where
  start : Reach p l p l
  later : {q r : Pool} {m n : Live} → Reach p l q m → Step q m r n → Reach p l r n
