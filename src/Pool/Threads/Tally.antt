-- ===== src/Pool/Threads/Tally.antt =====
-- How often an object is in a list.
use slicksocket.Base.{
  ℕ, ◌+◌, ◌-◌, ◌≤◌, ◌<◌, ◌≡◌, refl, inl, inr, sym, ◌∙◌, true, List, [], ◌∷◌, ◌==◌, ==_iff,
  Bool-cases, arith, if◌then◌else◌, bit_and, get_or-set_self, get_or-set_ne, length, IsPowerOfTwo,
  bit_and-mask, mod-eq_of_lt, ◌++◌,
}
use slicksocket.Pool.{Pool, mask, object}
use slicksocket.Pool.Discipline.{IsLive, remove, Absent, Distinct, owned}
use slicksocket.Pool.Threads.{tally, objects, returning, store_index}

pub tally-remove :
    (a b : ℕ) (l : List ℕ)
    → IsLive b l
    → tally a l ≡ (if a == b then 1 else 0) + tally a (remove b l)
tally-remove a b [] h = absurd h
tally-remove a b (c ∷ l) (inl e) = rw (e, (==_iff c c).1 refl)
tally-remove a b (c ∷ l) (inr h) = elim (Bool-cases (b == c)) [
  | inl same ↦ rw (same, (==_iff b c).0 same)
  | inr other ↦ rw other (omega (arith, tally-remove a b l h))
]

pub objects-remove :
    (p : Pool) (a i : ℕ) (l : List ℕ)
    → IsLive i l
    → tally a (objects p l) ≡ (if a == object p i then 1 else 0) + tally a (objects p (remove i l))
objects-remove p a i [] h = absurd h
objects-remove p a i (c ∷ l) (inl e) = rw (e, (==_iff c c).1 refl)
objects-remove p a i (c ∷ l) (inr h) = elim (Bool-cases (i == c)) [
  | inl same ↦ rw (same, (==_iff i c).0 same)
  | inr other ↦ rw other (omega (arith, objects-remove p a i l h))
]

pub tally-none_Absent : (a : ℕ) (l : List ℕ) → tally a l ≡ 0 → Absent a l
tally-none_Absent a [] h = tt
tally-none_Absent a (b ∷ l) h = (ground (arith, h), tally-none_Absent a l (omega (arith, h)))

pub tally-Distinct : (l : List ℕ) → ((a : ℕ) → tally a l ≤ 1) → Distinct l
tally-Distinct [] h = tt
tally-Distinct (b ∷ l) h =
    (tally-none_Absent b l (ground (arith, h b)), tally-Distinct l (λ a. omega (arith, h a)))

pub returning-middle :
    (b target a : ℕ) (before after : List (ℕ × ℕ))
    → tally b (returning (before ++ (target, a) ∷ after))
      ≡ (if b == a then 1 else 0) + tally b (returning (before ++ after))
returning-middle b target a [] after = refl
returning-middle b target a ((t, c) ∷ before) after =
    omega (arith, returning-middle b target a before after)

-- The places are numbered below w, and what comes back is the pool's own.
abbrev pub Targets : ℕ → ℕ → ℕ → List (ℕ × ℕ) → Type 0
Targets base size w [] = Unit {0}
Targets base size w ((t, a) ∷ l) = (t < w) × (owned base size a ≡ true) × Targets base size w l

pub Targets-le :
    (base size w w' : ℕ) (l : List (ℕ × ℕ))
    → w ≤ w'
    → Targets base size w l
    → Targets base size w' l
Targets-le base size w w' [] le h = tt
Targets-le base size w w' ((t, a) ∷ l) le (lt, own, h) =
    (omega (arith, lt, le), own, Targets-le base size w w' l le h)

pub Targets-middle :
    (base size w target a : ℕ) (before after : List (ℕ × ℕ))
    → Targets base size w (before ++ (target, a) ∷ after)
    → (target < w) × (owned base size a ≡ true) × Targets base size w (before ++ after)
Targets-middle base size w target a [] after h = h
Targets-middle base size w target a ((t, c) ∷ before) after (lt, own, h) =
    let (at, ours, rest) = Targets-middle base size w target a before after h in
    (at, ours, (lt, own, rest))

object-store :
    (p : Pool) (target a c : ℕ)
    → IsPowerOfTwo p.size
    → length p.index ≡ p.size
    → target < p.size
    → p.base ≤ a
    → c < p.size
    → object (store_index p target a) c ≡ (if target == c then a else object p c)
object-store p target a c power len lt own inside =
    let i : bit_and target (mask p) ≡ target = bit_and-mask p.size target power ∙ mod-eq_of_lt lt in
    let j : bit_and c (mask p) ≡ c = bit_and-mask p.size c power ∙ mod-eq_of_lt inside in
    elim (Bool-cases (target == c)) [
      | inl same ↦
          let e = (==_iff target c).0 same in
          rw
            (
              same,
              i,
              j,
              sym e,
              get_or-set_self p.index target (a - p.base) 0 (omega (arith, len, lt)),
            )
            (omega (arith, own))
      | inr other ↦
          rw
            (
              other,
              i,
              j,
              get_or-set_ne p.index {i = target} {j = c} (a - p.base) 0 (ground (arith, other)),
            )
            refl
    ]

-- A store changes the object at one place.
pub objects-store :
    (p : Pool) (target a b : ℕ) (l : List ℕ)
    → IsPowerOfTwo p.size
    → length p.index ≡ p.size
    → target < p.size
    → p.base ≤ a
    → ((i : ℕ) → p.size ≤ i → tally i l ≡ 0)
    → tally b (objects (store_index p target a) l)
      ≤ tally b (objects p l) + (if b == a then tally target l else 0)
objects-store p target a b [] power len lt own below = omega arith
objects-store p target a b (c ∷ l) power len lt own below =
    let rest = objects-store p target a b l power len lt own (λ i h. ground (arith, below i h)) in
    let inside : c < p.size = ground (arith, below c) in
    ground (arith, rest, object-store p target a c power len lt own inside)
