-- ===== src/StringRing/Write/Threads.antt =====
-- `ring_string_buffer` with its two threads in any interleaving of their accesses to what they
-- share: one calls `write` with whole strings, the other `read`, and uses the bytes that it is
-- pointed to before it calls `read` again. The stores of `write` are its steps, with the copy of a
-- string and the store of its length one step each; of `read`, the load of `cursor_`, the load of the
-- flag, and the rest up to the store of `reading_begin_` are.
pub mod Layout
pub mod Sound
mod Writing
mod Storing
mod Publishing
mod Reading
pub mod Order
mod Stages
pub mod Alone
pub mod Progress
mod Tests
use slicksocket.Base.{
  ℕ, ◌+◌, ◌-◌, ◌%◌, ◌^◌, ◌≤◌, ◌<◌, ◌≡◌, refl, Bool, true, false, not, Option, none, some, List, [],
  ◌∷◌, ◌++◌, leb, length, add64, sub64, sub32, write_at, u32_bytes, if◌then◌else◌,
}
use slicksocket.StringRing.{
  StringRing, Slice, index, flag_ok, flag_skip, store_flag, notify, next_flag, read_rest, has_more,
  bytes_of,
}
use slicksocket.StringRing.Write.{overlaps, returned, copy_in, finish}

-- Where the writer stands in a call of `write` of a string.
pub data Writer : Type 0 where
  idle : Writer
  claimed marked placed clear flagged headed copied : List ℕ → Writer

-- Where the reader stands in a call of `read`, or with the bytes of the string at a position, which
-- it is still using.
pub data Reader : Type 0 where
  resting : Reader
  looked : Reader
  at_flag : ℕ → Reader
  using : ℕ → Slice → Reader

pub record TwoThreads : Type 0 where
  pub ring : StringRing
  pub writer : Writer
  pub reader : Reader
  -- What `write` has put into the buffer and what the reader has used, in order.
  pub all_sent : List (List ℕ)
  pub received : List (List ℕ)

-- The parts of `write`, as they are seen from the other thread.
pub claim : StringRing → ℕ → StringRing
claim s len = record s {
  writing = true;
  total = add64 len 5;
  remaining = len;
  writing_begin = s.reserved;
  writing_cursor = s.reserved;
  reserved = add64 s.reserved (add64 len 5);
}

abbrev pub is_over_end : StringRing → Bool
is_over_end s = leb s.size (add64 (index s s.writing_begin) s.total)

abbrev pub padding : StringRing → ℕ
padding s = sub64 s.size (index s s.writing_begin)

pub mark : StringRing → StringRing
mark s =
    store_flag (record s { reserved = add64 s.reserved (padding s) }) s.writing_cursor flag_skip

pub put_flag : StringRing → StringRing
put_flag s = record (store_flag s s.writing_cursor flag_ok) {
  writing_cursor = add64 s.writing_cursor 1;
}

pub put_length : StringRing → StringRing
put_length s = record s {
  buffer = write_at s.buffer (index s s.writing_cursor) (u32_bytes (sub32 (s.total % 2 ^ 32) 5));
  writing_cursor = add64 s.writing_cursor 4;
}

pub copy : StringRing → List ℕ → StringRing
copy s m = copy_in (record s { remaining = sub64 s.remaining (length m) }) m 0

-- From where on the bytes are in use or wait for the reader.
abbrev pub used_from : Reader → ℕ → ℕ
used_from (using p slice) rc = p
used_from _ rc = rc

-- One step of one of the threads.
pub data Step (s : TwoThreads) : TwoThreads → Type 0 where
  claims :
      (m : List ℕ)
      → s.writer ≡ idle
      → 0 < length m
      → length m + 5 < s.ring.size
      → Step s (record s { ring = claim s.ring (length m); writer = claimed m })
  fits :
      (m : List ℕ)
      → s.writer ≡ claimed m
      → is_over_end s.ring ≡ false
      → Step s (record s { writer = placed m })
  marks :
      (m : List ℕ)
      → s.writer ≡ claimed m
      → is_over_end s.ring ≡ true
      → Step s (record s { ring = mark s.ring; writer = marked m })
  goes_round :
      (m : List ℕ) (r : StringRing)
      → s.writer ≡ marked m
      → notify s.ring (padding s.ring) ≡ some r
      → Step s
          (record s { ring = record r { writing_cursor = r.writing_begin }; writer = placed m })
  waits :
      (m : List ℕ)
      → s.writer ≡ placed m
      → overlaps
          (index s.ring s.ring.writing_cursor)
          (index s.ring (add64 s.ring.writing_cursor s.ring.total))
          s.ring
        ≡ true
      → Step s s
  passes :
      (m : List ℕ)
      → s.writer ≡ placed m
      → overlaps
          (index s.ring s.ring.writing_cursor)
          (index s.ring (add64 s.ring.writing_cursor s.ring.total))
          s.ring
        ≡ false
      → Step s (record s { writer = clear m })
  flags :
      (m : List ℕ)
      → s.writer ≡ clear m
      → Step s (record s { ring = put_flag s.ring; writer = flagged m })
  measures :
      (m : List ℕ)
      → s.writer ≡ flagged m
      → Step s (record s { ring = put_length s.ring; writer = headed m })
  copies :
      (m : List ℕ)
      → s.writer ≡ headed m
      → Step s (record s { ring = copy s.ring m; writer = copied m })
  publishes :
      (m : List ℕ) (r : StringRing)
      → s.writer ≡ copied m
      → finish s.ring 0 ≡ returned true r
      → Step s (record s { ring = r; writer = idle; all_sent = s.all_sent ++ m ∷ [] })
  looks :
      s.reader ≡ resting
      → has_more s.ring s.ring.cursor ≡ true
      → Step s (record s { reader = looked })
  finds_nothing : s.reader ≡ resting → has_more s.ring s.ring.cursor ≡ false → Step s s
  loads : s.reader ≡ looked → Step s (record s { reader = at_flag (next_flag s.ring) })
  skips :
      (f : ℕ)
      → s.reader ≡ at_flag f
      → (read_rest f s.ring).0.0 ≡ none
      → Step s (record s { ring = (read_rest f s.ring).1; reader = resting })
  gets :
      (f at : ℕ)
      → s.reader ≡ at_flag f
      → (read_rest f s.ring).0.0 ≡ some at
      → Step s (record s {
        ring = (read_rest f s.ring).1;
        reader = using s.ring.reading_cursor (read_rest f s.ring).0;
      })
  uses :
      (p : ℕ) (slice : Slice)
      → s.reader ≡ using p slice
      → Step s (record s { reader = resting; received = s.received ++ bytes_of s.ring slice ∷ [] })

pub data Reach (s : TwoThreads) : TwoThreads → Type 0 where
  start : Reach s s
  later : {t u : TwoThreads} → Reach s t → Step t u → Reach s u

-- Whether a step of the writer has room: it publishes a SKIP mark, or goes on to a string, only
-- before the bytes that the reader still uses, with one byte left free; and it begins a string at
-- least two rounds below position 2 ^ 64. `write` itself tests only `overlaps`.
abbrev pub HasRoomFor : {s t : TwoThreads} → Step s t → Type 0
HasRoomFor {s} (claims m at pos short) = s.ring.reserved + (s.ring.size + s.ring.size) < 2 ^ 64
HasRoomFor {s} (goes_round m r at done) =
    s.ring.cursor + (s.ring.size - s.ring.cursor % s.ring.size)
    < used_from s.reader s.ring.reading_cursor + s.ring.size
HasRoomFor {s} (passes m at free) =
    s.ring.cursor + (length m + 5) < used_from s.reader s.ring.reading_cursor + s.ring.size
HasRoomFor _ = Unit {0}

-- A run in which the reader was never so far behind that a step of the writer lacked room.
abbrev pub IsRoomy : {s t : TwoThreads} → Reach s t → Type 0
IsRoomy start = Unit {0}
IsRoomy (later run step) = IsRoomy run × HasRoomFor step
