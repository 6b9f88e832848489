-- ===== src/Pool/Discipline/Sound.antt =====
-- Each call of `object_pool` keeps the pool sound, so no object is held twice.
use native.Mathlib.Decide.{dec_lt}
use slicksocket.Base.{
  bit_and-self_mask, ℕ, zero, suc, ◌+◌, ◌-◌, ◌^◌, ◌≤◌, ◌<◌, ◌≡◌, refl, ap, subst, subst₂, ◌∙◌, inl,
  inr, Option, none, some, [], ◌∷◌, arith, length, get_or, set, length-set, get_or-set_ne, ltb,
  if◌then◌else◌, bit_and, bit_and-mask, mod-eq_of_lt, IsPowerOfTwo, pow-pos, add64, Bool-cases,
  Bool, true, false,
}
use slicksocket.Pool.{Pool, create, count_up, mask, get_obj, release_obj}
use slicksocket.Pool.Discipline.{
  Live, owned, pooled, Absent, Distinct, IsLive, remove, IsSound, Step, gets, fails, releases,
  Reach, start, later,
}
use slicksocket.Pool.Discipline.Held.{
  Distinct-remove, Below-remove, pooled-remove, Below-Absent, Below-next,
}

pub get-eq :
    {p : Pool} {l : Live} (v : IsSound p l) (heap : Option ℕ)
    → get_obj p heap ≡ (
        if ltb p.read_cursor (p.size - 1)
        then (some (p.base + p.read_cursor), record p { read_cursor = p.read_cursor + 1 })
        else (heap, p))
unfolding get_obj
get-eq {p} v heap = ground (
  arith,
  bit_and-mask p.size p.read_cursor v.power,
  mod-eq_of_lt v.reading,
  v.untouched p.read_cursor (omega arith) v.reading,
  v.reading,
  v.small,
)

module _ {p : Pool} {l : Live} (v : IsSound p l) where
  taken :
      p.read_cursor < p.size - 1
      → IsSound (record p { read_cursor = p.read_cursor + 1 }) ((p.base + p.read_cursor) ∷ l)
  taken lt = record {
    power = v.power;
    small = v.small;
    allocated = v.allocated;
    reading = omega arith;
    balance = ground (arith, v.balance);
    distinct = (Below-Absent p.base p.size p.read_cursor l v.reading v.below, v.distinct);
    below = (λ _. omega arith, Below-next p.base p.size p.read_cursor l v.below);
    untouched = λ j lo hi. v.untouched j (omega arith) hi;
  }

  from_heap : (heap : ℕ) → owned p.base p.size heap ≡ false → Absent heap l → IsSound p (heap ∷ l)
  from_heap heap outside fresh = record {
    power = v.power;
    small = v.small;
    allocated = v.allocated;
    reading = v.reading;
    balance = ground (arith, v.balance, outside);
    distinct = (fresh, v.distinct);
    below = (λ e. ground (arith, e, outside), v.below);
    untouched = v.untouched;
  }

  get-IsSound :
      (heap : ℕ) {a : ℕ} {q : Pool}
      → owned p.base p.size heap ≡ false
      → Absent heap l
      → get_obj p (some heap) ≡ (some a, q)
      → IsSound q (a ∷ l)
  get-IsSound heap {a} {q} outside fresh e = elim (dec_lt p.read_cursor (p.size - 1)) [
    | yes lt ↦ let (ea, eq) = found lt in subst₂ IsSound eq (ap (λ t. t ∷ l) ea) (taken lt)
    | no ge ↦
        let (ea, eq) = missed ge in
        subst₂ IsSound eq (ap (λ t. t ∷ l) ea) (from_heap heap outside fresh)
  ]
    where
      found :
          p.read_cursor < p.size - 1
          → (p.base + p.read_cursor ≡ a) × (record p { read_cursor = p.read_cursor + 1 } ≡ q)
      found lt = ground (arith, get-eq v (some heap))

      missed : ¬ (p.read_cursor < p.size - 1) → (heap ≡ a) × (p ≡ q)
      missed ge = ground (arith, get-eq v (some heap))

  fail-IsSound : {q : Pool} → get_obj p none ≡ (none, q) → IsSound q l
  fail-IsSound {q} e = subst (λ r. IsSound r l) same v
    where
      same : p ≡ q
      same = ground (arith, get-eq v none)

  deleted : (a : ℕ) → IsLive a l → owned p.base p.size a ≡ false → IsSound p (remove a l)
  deleted a live other = record {
    power = v.power;
    small = v.small;
    allocated = v.allocated;
    reading = v.reading;
    balance = ground (arith, v.balance, pooled-remove p.base p.size a l live, other);
    distinct = Distinct-remove a l v.distinct;
    below = Below-remove p.base p.size p.read_cursor a l v.below;
    untouched = v.untouched;
  }

  given_back :
      (a : ℕ)
      → IsLive a l
      → owned p.base p.size a ≡ true
      → IsSound
          (record p {
            index = set p.index (bit_and p.write_cursor (mask p)) (a - p.base);
            write_cursor = add64 p.write_cursor 1;
          })
          (remove a l)
  given_back a live ours =
      let fewer : pooled p.base p.size l ≡ 1 + pooled p.base p.size (remove a l) =
        ground (arith, pooled-remove p.base p.size a l live, ours) in
      let place : bit_and p.write_cursor (mask p) ≡ p.write_cursor =
        bit_and-mask p.size p.write_cursor v.power
        ∙ mod-eq_of_lt (omega (arith, v.balance, v.reading)) in
      rw place (record {
        power = v.power;
        small = v.small;
        allocated = length-set p.index p.write_cursor (a - p.base) ∙ v.allocated;
        reading = v.reading;
        balance = omega (arith, v.balance, v.reading, v.small);
        distinct = Distinct-remove a l v.distinct;
        below = Below-remove p.base p.size p.read_cursor a l v.below;
        untouched = λ j lo hi.
            get_or-set_ne p.index (a - p.base) 0 (omega (arith, v.balance)) ∙ v.untouched j lo hi;
      })

  release-IsSound : (a : ℕ) → IsLive a l → IsSound (release_obj p a) (remove a l)
  unfolding release_obj
  release-IsSound a live = elim (Bool-cases (owned p.base p.size a)) [
    | inl ours ↦ rw ours (given_back a live ours)
    | inr other ↦ rw other (deleted a live other)
  ]

Step-IsSound :
    {p : Pool} {l : Live} {q : Pool} {m : Live} → IsSound p l → Step p l q m → IsSound q m
Step-IsSound v (gets heap outside fresh e) = get-IsSound v heap outside fresh e
Step-IsSound v (fails e) = fail-IsSound v e
Step-IsSound v (releases a live) = release-IsSound v a live

pub Reach-IsSound :
    {p : Pool} {l : Live} {q : Pool} {m : Live} → IsSound p l → Reach p l q m → IsSound q m
Reach-IsSound v start = v
Reach-IsSound v (later r st) = Step-IsSound (Reach-IsSound v r) st

count_up-get_or : (n i j : ℕ) → j < n → get_or (count_up n i) j 0 ≡ i + j
unfolding count_up
count_up-get_or zero i j h = absurd (omega arith)
count_up-get_or (suc n) i zero h = omega arith
count_up-get_or (suc n) i (suc j) h = omega (arith, count_up-get_or n (suc i) j (omega arith))

length-count_up : (n i : ℕ) → length (count_up n i) ≡ n
unfolding count_up
length-count_up zero i = refl
length-count_up (suc n) i = ap suc (length-count_up n (suc i))

pub create-IsSound :
    (debug : Bool) (base size : ℕ) {p : Pool}
    → IsPowerOfTwo size
    → size ≤ 2 ^ 63
    → create debug base size ≡ some p
    → IsSound p []
unfolding create
create-IsSound debug base size {p} power small e =
    subst (λ q. IsSound q []) made
      (record {
        power = power;
        small = small;
        allocated = length-count_up size 0;
        reading = pow-pos size power;
        balance = refl;
        distinct = tt;
        below = tt;
        untouched = λ j _ hi. count_up-get_or size 0 j hi ∙ omega arith;
      })
  where
    made :
        record {
          base = base;
          index = count_up size 0;
          read_cursor = 0;
          write_cursor = 0;
          size = size;
        }
        ≡ p
    made = ground (arith, e)

-- The constructor gives a pool of which nothing is taken.
pub create-some_IsSound :
    (debug : Bool) (base size : ℕ)
    → IsPowerOfTwo size
    → size ≤ 2 ^ 63
    → (p : Pool) × (create debug base size ≡ some p) × IsSound p []
unfolding create
create-some_IsSound debug base size power small =
    let (p, e) = made in (p, e, create-IsSound debug base size power small e)
  where
    made : (p : Pool) × (create debug base size ≡ some p)
    made = (
      record {
        base = base;
        index = count_up size 0;
        read_cursor = 0;
        write_cursor = 0;
        size = size;
      },
      ground (arith, bit_and-self_mask size power, pow-pos size power),
    )

-- From a new pool on, whatever callers take and give back: no object is held twice, as long as each
-- is given back once and `new` returns addresses outside the pool that nobody holds.
pub Reach-Distinct :
    (debug : Bool) (base size : ℕ) {p q : Pool} {l : Live}
    → IsPowerOfTwo size
    → size ≤ 2 ^ 63
    → create debug base size ≡ some p
    → Reach p [] q l
    → Distinct l
Reach-Distinct debug base size power small e r =
    (Reach-IsSound (create-IsSound debug base size power small e) r).distinct
