-- ===== src/Pool.antt =====
-- `object_pool` of src/ring_buffer.h. An object is its address, counted in objects: the pool's own
-- lie from `base` on. Here calls run one after another; Threads has their accesses in any order.
pub mod Discipline
pub mod Threads
mod Tests
use slicksocket.Base.{
  ℕ, zero, suc, ◌+◌, ◌-◌, Bool, true, false, not, ◌&&◌, ◌||◌, Option, none, some, List, [], ◌∷◌,
  bit_and, ltb, leb, ◌==◌, if◌then◌else◌, get_or, set, add64, sub64,
}

pub record Pool : Type 0 where
  pub base : ℕ
  pub index : List ℕ
  pub read_cursor : ℕ
  pub write_cursor : ℕ
  pub size : ℕ

-- `std::generate` with a counter.
pub count_up : ℕ → ℕ → List ℕ
count_up zero i = []
count_up (suc n) i = i ∷ count_up n (suc i)

-- The constructor, where `new T[size]` returns `base`; `none` is a failed assertion.
pub create : Bool → ℕ → ℕ → Option Pool
unfolding count_up
create debug base size =
    if debug && not (not (size == 0) && bit_and size (size - 1) == 0)
    then none
    else some (record {
      base = base;
      index = count_up size 0;
      read_cursor = 0;
      write_cursor = 0;
      size = size;
    })

abbrev pub mask : Pool → ℕ
mask p = p.size - 1

-- `data_ + index_[i & mask_]`.
abbrev pub object : Pool → ℕ → ℕ
object p i = p.base + get_or p.index (bit_and i (mask p)) 0

-- `get_obj`. `heap` is what `new (std::nothrow) T` gives, should it be called.
pub get_obj : Pool → Option ℕ → Option ℕ × Pool
get_obj p heap =
    if ltb p.read_cursor (mask p)
    then if ltb i p.size || ltb (bit_and i (mask p)) (bit_and p.write_cursor (mask p))
      then (some (object p i), record p { read_cursor = add64 i 1 })
      else (heap, record p { read_cursor = sub64 (add64 i 1) 1 })
    else (heap, p)
  where
    i : ℕ
    i = p.read_cursor

-- `release_obj`; an object from elsewhere is deleted.
pub release_obj : Pool → ℕ → Pool
release_obj p obj =
    if leb p.base obj && ltb obj (p.base + p.size)
    then record p {
      index = set p.index (bit_and p.write_cursor (mask p)) (obj - p.base);
      write_cursor = add64 p.write_cursor 1;
    }
    else p
