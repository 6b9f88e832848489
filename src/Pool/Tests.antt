-- ===== src/Pool/Tests.antt =====
-- A pool of two objects at address 100.
use slicksocket.Base.{
  ℕ, zero, suc, ◌≤◌, ◌<◌, get_or, ◌≡◌, refl, inl, inr, true, some, [], ◌∷◌, arith, IsPowerOfTwo,
}
use slicksocket.Pool.{Pool, create, count_up, get_obj, release_obj}
use slicksocket.Pool.Discipline.{Distinct, Reach, start, later, gets, releases, IsSound}
use slicksocket.Pool.Discipline.Sound.{Reach-Distinct}
use slicksocket.Pool.Threads as Threads
use slicksocket.Pool.Threads.{times_held}
use slicksocket.Pool.Threads.Once.{unused, Reach-held_once}
use slicksocket.Pool.Discipline.Exhausted.{exhausted_for_ever}

abbrev new : Pool
new = record { base = 100; index = 0 ∷ 1 ∷ []; read_cursor = 0; write_cursor = 0; size = 2 }

abbrev used : Pool
used = record new { read_cursor = 1 }

abbrev returned : Pool
returned = record used { write_cursor = 1 }

two : IsPowerOfTwo 2
two = record { exponent = 1; is_power = refl }

create-fresh : create true 100 2 ≡ some new
unfolding create count_up
create-fresh = refl

-- The first object comes from the pool, the second from the heap.
both : Reach new [] used (7 ∷ 100 ∷ [])
unfolding get_obj
both = later (later start (gets 5 refl tt refl)) (gets 7 refl (omega arith, tt) refl)

Reach-Distinct_example : Distinct (7 ∷ 100 ∷ [])
Reach-Distinct_example = Reach-Distinct true 100 2 two (omega arith) create-fresh both

used-IsSound : IsSound used (100 ∷ [])
used-IsSound = record {
  power = two;
  small = omega arith;
  allocated = refl;
  reading = omega arith;
  balance = refl;
  distinct = (tt, tt);
  below = (λ e. omega arith, tt);
  untouched = λ j lo hi. one j lo hi;
}
  where
    one : (j : ℕ) → 1 ≤ j → j < 2 → get_or (0 ∷ 1 ∷ []) j 0 ≡ j
    one zero lo hi = absurd (omega arith)
    one (suc zero) lo hi = refl
    one (suc (suc j)) lo hi = absurd (omega arith)

-- All is given back, and nothing is left.
emptied : Reach used (100 ∷ []) returned []
unfolding release_obj
emptied = later start (releases 100 (inl refl))

exhausted_for_ever_example : get_obj returned (some 9) ≡ (some 9, returned)
exhausted_for_ever_example = exhausted_for_ever (some 9) used-IsSound refl emptied

abbrev half_given : Threads.Hands
half_given = record {
  pool = record new { read_cursor = 2; write_cursor = 1 };
  passed = 0;
  claimed = [];
  releasing = (0, 100) ∷ [];
  live = 101 ∷ [];
}

-- Two threads pass the test of `read_cursor_` before one of them counts it up. The first object is
-- given back, and not stored yet.
hands : Threads.Reach (unused new) half_given
hands =
    Threads.later
      (Threads.later
        (Threads.later
          (Threads.later
            (Threads.later
              (Threads.later (Threads.later Threads.start (Threads.tests (omega arith) refl))
                (Threads.tests (omega arith) refl))
              (Threads.claims 1 refl))
            (Threads.claims 0 refl))
          (Threads.takes 0 (inr (inl refl)) refl))
        (Threads.takes 1 (inl refl) refl))
      (Threads.counts 100 (inr (inl refl)) refl)

Reach-held_once_example : times_held half_given 100 ≤ 1
Reach-held_once_example =
    Reach-held_once true 100 2 half_given two (omega arith) create-fresh hands 100
