-- ===== src/StringRing/Write/Refused.antt =====
-- A string as long as the buffer is refused, and what that does to the strings after it.
pub mod Reset
use slicksocket.Base.{
  ℕ, ◌+◌, ◌-◌, ◌%◌, ◌^◌, ◌≤◌, ◌<◌, ◌≡◌, refl, sym, ap, ◌∙◌, ◌≢◌, Bool, true, false, none, some,
  List, ◌∷◌, arith, length, leb, add64, sub64, add32, bit_and-mask, if◌then◌else◌, IsPowerOfTwo,
  mod-eq_of_lt,
}
use slicksocket.StringRing.{StringRing, index, reset, reset_begin, reset_end, notify}
use slicksocket.StringRing.View.{IsReady}
use slicksocket.StringRing.Dequeue.{index_lem, size_pos}
use slicksocket.StringRing.Write.{
  Outcome, returned, aborted, spinning, Peer, write, new_string, refuse, reserve_string, pad, wait,
  overlaps, resume, put_header, put_part, await,
}
use slicksocket.StringRing.Write.Steps.{
  write-new, write-continued, new_string-long, wait-eq, put_part-skipped, put_part-stuck,
  resume-same, new_string-fits,
}

-- Together with its header the string is at least as long as the buffer.
pub record IsLong (s : StringRing) (n : ℕ) : Type 0 where
  pub some_bytes : 0 < n
  pub long : s.size ≤ n + 5
  pub counted : n + 5 < 2 ^ 64

pub refused : StringRing → ℕ → StringRing
refused s n = record s {
  writing_cursor = 1;
  total = n + 5;
  remaining = 0;
  skip = true;
  writing = false;
}

module _ {s : StringRing} {ms : List (List ℕ)} (v : IsReady s ms) (m : List ℕ)
    (l : IsLong s (length m)) where
  pub sized : StringRing
  sized = record s { writing = true; total = length m + 5; remaining = length m }

  pub write-refuse :
      (debug : Bool) (peers : List Peer) → write debug s m 0 peers ≡ refuse debug sized (length m)
  unfolding sized
  write-refuse debug peers =
      let remaining : add64 (length m) 0 ≡ length m = omega (arith, l.counted) in
      let total : add64 (add64 (length m) 0) 5 ≡ length m + 5 = omega (arith, l.counted) in
      write-new debug s m 0 peers l.some_bytes v.quiet v.idle
      ∙ new_string-long debug (record s { writing = true }) m 0 peers
          (ground (arith, total, l.long))
      ∙ rw (total, remaining)

  pub refuse-release : refuse false sized (length m) ≡ returned false (refused s (length m))
  unfolding refuse sized refused
  refuse-release = let left : sub64 (length m) (length m) ≡ 0 = omega (arith, l.counted) in rw left

  refuse-debug : refuse true sized (length m) ≡ aborted
  unfolding refuse
  refuse-debug = refl

  -- The next string meets `skip_`.
  after_lost : List ℕ → StringRing
  after_lost n = record s {
    writing_cursor = 0;
    total = length m + 5;
    remaining = sub64 0 (length n);
    skip = false;
    writing = false;
  }

  write-refused :
      (n : List ℕ) (peers : List Peer)
      → 0 < length n
      → write false (refused s (length m)) n 0 peers ≡ returned true (after_lost n)
  unfolding refused after_lost
  write-refused n peers pos =
      write-continued false (refused s (length m)) n 0 peers pos v.quiet (omega arith)
      ∙ put_part-skipped (record (refused s (length m)) { writing = true }) n refl

  after_lost-IsReady : (n : List ℕ) → IsReady (after_lost n) ms
  unfolding after_lost
  after_lost-IsReady n = record {
    power = v.power;
    small = v.small;
    allocated = v.allocated;
    unskipped = refl;
    idle = refl;
    quiet = v.quiet;
    unlocked = refl;
    published = v.published;
    claimed = v.claimed;
    bounded = v.bounded;
    behind = v.behind;
    room = v.room;
    reader = v.reader;
    strings = v.strings;
  }

-- A string that does not fit is refused: in a release build `write` returns false, and an assertion
-- stops a debug build. In the release build the next string, whatever it is, is dropped while
-- `write` returns true; after that the buffer holds what it held.
pub write-long_loses_next :
    {s : StringRing} {ms : List (List ℕ)} (m n : List ℕ) (peers : List Peer)
    → IsReady s ms
    → IsLong s (length m)
    → 0 < length n
    → (write true s m 0 peers ≡ aborted)
      × (s' : StringRing) × (s'' : StringRing) × (write false s m 0 peers ≡ returned false s')
      × (write false s' n 0 peers ≡ returned true s'')
      × IsReady s'' ms
write-long_loses_next {s} m n peers v l pos = (
  write-refuse v m l true peers ∙ refuse-debug v m l,
  refused s (length m),
  after_lost v m l n,
  write-refuse v m l false peers ∙ refuse-release v m l,
  write-refused v m l n peers pos,
  after_lost-IsReady v m l n,
)

-- A `reset` instead clears the cursors and leaves `skip_` set.
module _ {s : StringRing} {ms : List (List ℕ)} (v : IsReady s ms) (m : List ℕ)
    (l : IsLong s (length m)) where
  pub restarted : StringRing
  restarted = record s {
    writing_cursor = 0;
    total = length m + 5;
    remaining = 0;
    skip = true;
    writing = false;
    reset_count = add32 s.reset_count 1;
    reserved = 0;
    cursor = 0;
    reading_cursor = 0;
    writing_begin = 0;
    reading_begin = 0;
    resetting = false;
  }

  pub reset-refused : reset (refused s (length m)) ≡ some restarted
  unfolding reset reset_begin reset_end refused restarted
  reset-refused = rw (index_lem v 0, mod-eq_of_lt (size_pos v))
