-- ===== src/Pool/Threads.antt =====
-- `object_pool` with its atomic accesses in any interleaving of any number of threads, of which at
-- most two at once are in `get_obj` between the test of `read_cursor_` and its increment. What the
-- threads hold stands in lists, whichever thread it is.
pub mod Tally
pub mod Safe
mod Giving
pub mod Once
use slicksocket.Base.{
  ℕ, suc, ◌+◌, ◌-◌, ◌<◌, ◌≡◌, ◌≢◌, Bool, true, false, List, [], ◌∷◌, ◌++◌, bit_and, ltb, ◌==◌, ◌||◌,
  if◌then◌else◌, get_or, set, add64, sub64,
}
use slicksocket.Pool.{Pool, mask, object}
use slicksocket.Pool.Discipline.{owned, IsLive, remove}

pub record Hands : Type 0 where
  pub pool : Pool
  -- Threads that have passed the test of `read_cursor_`.
  pub passed : ℕ
  -- What `fetch_add` gave to threads that have not taken their object yet.
  pub claimed : List ℕ
  -- Places for objects that are given back and not stored yet, each with its object.
  pub releasing : List (ℕ × ℕ)
  pub live : List ℕ

abbrev pub test : Pool → Bool
test p = ltb p.read_cursor (mask p)

abbrev pub is_good : Pool → ℕ → Bool
is_good p i = ltb i p.size || ltb (bit_and i (mask p)) (bit_and p.write_cursor (mask p))

abbrev pub store_index : Pool → ℕ → ℕ → Pool
store_index p target a = record p { index = set p.index (bit_and target (mask p)) (a - p.base) }

abbrev pub tally : ℕ → List ℕ → ℕ
tally a [] = 0
tally a (b ∷ l) = (if a == b then 1 else 0) + tally a l

abbrev pub objects : Pool → List ℕ → List ℕ
objects p [] = []
objects p (i ∷ l) = object p i ∷ objects p l

abbrev pub returning : List (ℕ × ℕ) → List ℕ
returning [] = []
returning ((t, a) ∷ l) = a ∷ returning l

-- How often an object is in somebody's hands.
abbrev pub times_held : Hands → ℕ → ℕ
times_held s a =
    tally a (objects s.pool s.claimed) + tally a (returning s.releasing) + tally a s.live

pub data Step (s : Hands) : Hands → Type 0 where
  tests : s.passed < 2 → test s.pool ≡ true → Step s (record s { passed = suc s.passed })
  allocates :
      (heap : ℕ)
      → test s.pool ≡ false
      → owned s.pool.base s.pool.size heap ≡ false
      → times_held s heap ≡ 0
      → Step s (record s { live = heap ∷ s.live })
  claims :
      (n : ℕ)
      → s.passed ≡ suc n
      → Step s (record s {
        passed = n;
        claimed = s.pool.read_cursor ∷ s.claimed;
        pool = record s.pool { read_cursor = add64 s.pool.read_cursor 1 };
      })
  takes :
      (i : ℕ)
      → IsLive i s.claimed
      → is_good s.pool i ≡ true
      → Step s (record s { claimed = remove i s.claimed; live = object s.pool i ∷ s.live })
  gives_up :
      (i heap : ℕ)
      → IsLive i s.claimed
      → is_good s.pool i ≡ false
      → owned s.pool.base s.pool.size heap ≡ false
      → times_held s heap ≡ 0
      → Step s (record s {
        claimed = remove i s.claimed;
        pool = record s.pool { read_cursor = sub64 s.pool.read_cursor 1 };
        live = heap ∷ s.live;
      })
  counts :
      (a : ℕ)
      → IsLive a s.live
      → owned s.pool.base s.pool.size a ≡ true
      → Step s (record s {
        live = remove a s.live;
        releasing = (s.pool.write_cursor, a) ∷ s.releasing;
        pool = record s.pool { write_cursor = add64 s.pool.write_cursor 1 };
      })
  stores :
      (target a : ℕ) (before after : List (ℕ × ℕ))
      → s.releasing ≡ before ++ (target, a) ∷ after
      → Step s (record s { releasing = before ++ after; pool = store_index s.pool target a })
  deletes :
      (a : ℕ)
      → IsLive a s.live
      → owned s.pool.base s.pool.size a ≡ false
      → Step s (record s { live = remove a s.live })

pub data Reach (s : Hands) : Hands → Type 0 where
  start : Reach s s
  later : {t u : Hands} → Reach s t → Step t u → Reach s u
