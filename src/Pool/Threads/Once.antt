-- ===== src/Pool/Threads/Once.antt =====
-- In every interleaving no object of an `object_pool` is in two hands.
use slicksocket.Base.{ℕ, ◌^◌, ◌≤◌, ◌≡◌, refl, Bool, [], arith, IsPowerOfTwo, some}
use slicksocket.Pool.{Pool, create}
use slicksocket.Pool.Discipline.{IsSound}
use slicksocket.Pool.Discipline.Sound.{create-IsSound}
use slicksocket.Pool.Threads.{
  Hands, times_held, Step, tests, allocates, claims, takes, gives_up, counts, stores, deletes,
  Reach, start, later,
}
use slicksocket.Pool.Threads.Safe.{
  IsSafe, test-IsSafe, allocate-IsSafe, claim-IsSafe, take-IsSafe, always_good,
}
use slicksocket.Pool.Threads.Giving.{count-IsSafe, delete-IsSafe, store-IsSafe}

Step-IsSafe : {s t : Hands} → Step s t → IsSafe s → IsSafe t
Step-IsSafe (tests few room) v = test-IsSafe v few room
Step-IsSafe (allocates heap full outside free) v = allocate-IsSafe v heap outside free
Step-IsSafe (claims n some_one) v = claim-IsSafe v n some_one
Step-IsSafe (takes i live good) v = take-IsSafe v i live
Step-IsSafe (gives_up i heap live bad outside free) v =
    absurd (ground (arith, always_good v i live, bad))
Step-IsSafe (counts a live ours) v = count-IsSafe v a live ours
Step-IsSafe (stores target a before after at) v = store-IsSafe v target a before after at
Step-IsSafe (deletes a live other) v = delete-IsSafe v a live other

pub Reach-IsSafe : {s t : Hands} → Reach s t → IsSafe s → IsSafe t
Reach-IsSafe start v = v
Reach-IsSafe (later run step) v = Step-IsSafe step (Reach-IsSafe run v)

-- A pool that nobody uses.
abbrev pub unused : Pool → Hands
unused p = record { pool = p; passed = 0; claimed = []; releasing = []; live = [] }

unused-IsSafe : (p : Pool) → IsSound p [] → p.size ≤ 2 ^ 62 → IsSafe (unused p)
unused-IsSafe p v small = record {
  power = v.power;
  small = small;
  allocated = v.allocated;
  ahead = omega (arith, v.reading);
  balance = omega (arith, v.balance);
  one_claim = λ i. omega arith;
  below_claim = λ i lo. refl;
  once = λ a. omega arith;
  ungiven = λ j lo hi. refl;
  targets = tt;
  untouched = v.untouched;
}

-- A new pool, with a size that is a power of two up to 2 ^ 62, and any number of threads that take and give back objects, in any interleaving of their
-- accesses to its cursors and its index, where at most two at once stand between the test of
-- `read_cursor_` and its increment: no object is held twice, by those who have one, those about to
-- take one and those giving one back, as long as each gives back only what it has, once, and `new`
-- returns addresses outside the pool that nobody holds.
pub Reach-held_once :
    (debug : Bool) (base size : ℕ) {p : Pool} (t : Hands)
    → IsPowerOfTwo size
    → size ≤ 2 ^ 62
    → create debug base size ≡ some p
    → Reach (unused p) t
    → (a : ℕ) → times_held t a ≤ 1
unfolding create
Reach-held_once debug base size {p} t power small e run a =
    let same : p.size ≡ size = ground (arith, e) in
    let sound = create-IsSound debug base size power (omega (arith, small)) e in
    (Reach-IsSafe run (unused-IsSafe p sound (omega (arith, same, small)))).once a
