-- ===== src/Pool/Discipline/Held.antt =====
-- The list of the held objects, when one is taken out of it or the pool gives out the next.
use slicksocket.Base.{
  ℕ, ◌+◌, ◌<◌, ◌≡◌, refl, inl, inr, [], ◌∷◌, arith, if◌then◌else◌, ◌==◌, ==_iff, Bool-cases,
}
use slicksocket.Pool.Discipline.{Live, owned, pooled, Absent, Distinct, Below, IsLive, remove}

pub Absent-remove : (a b : ℕ) (l : Live) → Absent b l → Absent b (remove a l)
Absent-remove a b [] h = tt
Absent-remove a b (c ∷ l) h = ground (arith, Absent-remove a b l h.1)

pub Distinct-remove : (a : ℕ) (l : Live) → Distinct l → Distinct (remove a l)
Distinct-remove a [] h = tt
Distinct-remove a (c ∷ l) h = ground (arith, Distinct-remove a l h.1, Absent-remove a c l h.0)

module _ (base size : ℕ) where
  pub Below-remove : (n a : ℕ) (l : Live) → Below base size n l → Below base size n (remove a l)
  Below-remove n a [] h = tt
  Below-remove n a (c ∷ l) h = ground (arith, Below-remove n a l h.1)

  pub pooled-remove :
      (a : ℕ) (l : Live)
      → IsLive a l
      → pooled base size l ≡ (if owned base size a then 1 else 0) + pooled base size (remove a l)
  pooled-remove a [] h = absurd h
  pooled-remove a (c ∷ l) (inl e) = rw (e, (==_iff c c).1 refl)
  pooled-remove a (c ∷ l) (inr h) = elim (Bool-cases (a == c)) [
    | inl same ↦ rw (same, (==_iff a c).0 same)
    | inr other ↦ rw other (omega (arith, pooled-remove a l h))
  ]

  -- The next object of the pool is nobody's.
  pub Below-Absent : (n : ℕ) (l : Live) → n < size → Below base size n l → Absent (base + n) l
  Below-Absent n [] lt h = tt
  Below-Absent n (c ∷ l) lt h = (ground arith, Below-Absent n l lt h.1)

  pub Below-next : (n : ℕ) (l : Live) → Below base size n l → Below base size (n + 1) l
  Below-next n [] h = tt
  Below-next n (c ∷ l) h = (λ e. omega (arith, h.0 e), Below-next n l h.1)
