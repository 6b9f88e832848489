-- ===== src/Pool/Discipline/Exhausted.antt =====
-- `get_obj` compares `read_cursor_`, which never comes back, with `mask_`: the pool runs out for good.
use slicksocket.Base.{ℕ, ◌≡◌, Option, none, some, arith}
use slicksocket.Pool.{Pool, mask, get_obj, release_obj}
use slicksocket.Pool.Discipline.{Live, IsSound, Step, gets, fails, releases, Reach, start, later}
use slicksocket.Pool.Discipline.Sound.{get-eq, Reach-IsSound}

exhausted-Step :
    {p : Pool} {l : Live} {q : Pool} {m : Live}
    → IsSound p l
    → p.read_cursor ≡ mask p
    → Step p l q m
    → q.read_cursor ≡ mask q
unfolding release_obj
exhausted-Step v full (gets heap outside fresh e) = ground (arith, get-eq v (some heap))
exhausted-Step v full (fails e) = ground (arith, get-eq v none)
exhausted-Step v full (releases a live) = ground arith

exhausted-Reach :
    {p : Pool} {l : Live} {q : Pool} {m : Live}
    → IsSound p l
    → p.read_cursor ≡ mask p
    → Reach p l q m
    → q.read_cursor ≡ mask q
exhausted-Reach v full start = full
exhausted-Reach v full (later r st) =
    exhausted-Step (Reach-IsSound v r) (exhausted-Reach v full r) st

-- A pool that has given out one object less than its size gives out none of them ever again,
-- however many are given back: each call of `get_obj` returns what `new` does.
pub exhausted_for_ever :
    {p : Pool} {l : Live} {q : Pool} {m : Live} (heap : Option ℕ)
    → IsSound p l
    → p.read_cursor ≡ mask p
    → Reach p l q m
    → get_obj q heap ≡ (heap, q)
exhausted_for_ever {q = q} heap v full r =
    let last = exhausted-Reach v full r in ground (arith, get-eq (Reach-IsSound v r) heap, last)
