-- ===== src/StringRing/Lifecycle.antt =====
-- The constructor and `reset` of `ring_string_buffer`.
use slicksocket.Base.{
  bit_and-self_mask, ℕ, ◌^◌, ◌≤◌, ◌≡◌, refl, sym, Bool, some, List, [], arith, length, bit_and-mask,
  mod-eq_of_lt, IsPowerOfTwo, pow-pos,
}
use slicksocket.StringRing.{StringRing, create, fresh, reset, reset_begin, reset_end}
use slicksocket.StringRing.View.{IsReady}

-- For a size that is a power of two the constructor passes its assertion in any build, and the
-- buffer is empty.
pub create-IsReady :
    (debug : Bool) (memory : List ℕ) (size : ℕ)
    → IsPowerOfTwo size
    → size ≤ 2 ^ 31
    → length memory ≡ size
    → (s : StringRing) × (create debug memory size ≡ some s) × IsReady s []
unfolding create fresh
create-IsReady debug memory size power small len =
    let zero_mod = mod-eq_of_lt (pow-pos size power) in
    (
      fresh memory size,
      ground (arith, bit_and-self_mask size power, pow-pos size power),
      record {
        power = power;
        small = small;
        allocated = len;
        unskipped = refl;
        idle = refl;
        quiet = refl;
        unlocked = refl;
        published = refl;
        claimed = refl;
        bounded = omega arith;
        behind = omega arith;
        room = omega (arith, pow-pos size power);
        reader = sym zero_mod;
        strings = refl;
      },
    )

-- `reset` of a buffer that no `write` is working on drops every string: the buffer is empty again.
pub reset-IsReady :
    {s : StringRing} {ms : List (List ℕ)}
    → IsReady s ms
    → (s' : StringRing) × (reset s ≡ some s') × IsReady s' []
unfolding reset reset_begin reset_end
reset-IsReady {s} v = (
  reset_end (reset_begin s),
  ground (arith, v.unlocked),
  record {
    power = v.power;
    small = v.small;
    allocated = v.allocated;
    unskipped = v.unskipped;
    idle = refl;
    quiet = refl;
    unlocked = v.unlocked;
    published = refl;
    claimed = refl;
    bounded = omega arith;
    behind = omega arith;
    room = omega (arith, pow-pos s.size v.power);
    reader = bit_and-mask s.size 0 v.power;
    strings = refl;
  },
)
