-- ===== src/StringRing/Write/Threads/Sound.antt =====
-- The two threads of a `ring_string_buffer` in every reachable state.
use slicksocket.Base.{
  ℕ, ◌+◌, ◌-◌, ◌%◌, ◌^◌, ◌≤◌, ◌<◌, ◌≡◌, false, List, length, get_or, read_at, u32_bytes,
  IsPowerOfTwo,
}
use slicksocket.StringRing.{StringRing, flag_ok, flag_skip}
use slicksocket.StringRing.View.{Entry}
use slicksocket.StringRing.Write.Threads.{
  Writer, idle, claimed, marked, placed, clear, flagged, headed, copied, TwoThreads, used_from,
}
use slicksocket.StringRing.Write.Threads.Layout.{ReaderIsSound}

-- A string that is to be written at the end c of what is published.
pub record Place (size c wb total : ℕ) (m : List ℕ) : Type 0 where
  pub some_bytes : 0 < length m
  pub short : length m + 5 < size
  pub begins : wb ≡ c
  pub total_is : total ≡ length m + 5
  pub bound : c + size < 2 ^ 64

-- It does not go round the end of the buffer, and its place is reserved.
pub record Spot (size c wb total rsv : ℕ) (m : List ℕ) : Type 0 where
  pub place : Place size c wb total m
  pub fits : c % size + 5 + length m < size
  pub claimed : rsv ≡ c + (length m + 5)

abbrev pub IsPlaced : StringRing → List ℕ → Type 0
IsPlaced r m = Spot r.size r.cursor r.writing_begin r.total r.reserved m × (r.remaining ≡ length m)

abbrev pub HasSpace : StringRing → ℕ → List ℕ → Type 0
HasSpace r from m = r.cursor + (length m + 5) < from + r.size

-- What is true for the writer; `from` is where the bytes in use begin.
abbrev pub WriterIsSound : StringRing → ℕ → Writer → Type 0
WriterIsSound r from idle =
    (r.writing_begin ≡ r.cursor) × (r.reserved ≡ r.cursor) × (r.writing_cursor ≡ 0)
WriterIsSound r from (claimed m) =
    Place r.size r.cursor r.writing_begin r.total m
    × (r.remaining ≡ length m)
    × (r.writing_cursor ≡ r.cursor)
    × (r.reserved ≡ r.cursor + (length m + 5))
    × (r.cursor + (r.size + r.size) < 2 ^ 64)
WriterIsSound r from (marked m) =
    Place r.size r.cursor r.writing_begin r.total m
    × (r.remaining ≡ length m)
    × (r.reserved ≡ r.cursor + (length m + 5) + (r.size - r.cursor % r.size))
    × (r.cursor + (r.size + r.size) < 2 ^ 64)
    × (0 < r.cursor % r.size)
    × (get_or r.buffer (r.cursor % r.size) 0 ≡ flag_skip)
WriterIsSound r from (placed m) = IsPlaced r m × (r.writing_cursor ≡ r.cursor)
WriterIsSound r from (clear m) = IsPlaced r m × HasSpace r from m × (r.writing_cursor ≡ r.cursor)
WriterIsSound r from (flagged m) =
    IsPlaced r m
    × HasSpace r from m
    × (r.writing_cursor ≡ r.cursor + 1)
    × (get_or r.buffer (r.cursor % r.size) 0 ≡ flag_ok)
WriterIsSound r from (headed m) =
    IsPlaced r m
    × HasSpace r from m
    × (r.writing_cursor ≡ r.cursor + 5)
    × (get_or r.buffer (r.cursor % r.size) 0 ≡ flag_ok)
    × (read_at r.buffer (r.cursor % r.size + 1) 4 ≡ u32_bytes (length m))
WriterIsSound r from (copied m) =
    Spot r.size r.cursor r.writing_begin r.total r.reserved m
    × HasSpace r from m
    × (r.remaining ≡ 0)
    × Entry r.buffer r.size r.cursor m

pub record IsShared (s : TwoThreads) : Type 0 where
  pub power : IsPowerOfTwo s.ring.size
  pub small : s.ring.size ≤ 2 ^ 31
  pub allocated : length s.ring.buffer ≡ s.ring.size
  pub unskipped : s.ring.skip ≡ false
  pub quiet : s.ring.resetting ≡ false
  pub bounded : s.ring.cursor < 2 ^ 64
  pub room : s.ring.cursor < used_from s.reader s.ring.reading_cursor + s.ring.size
  pub reader_at : s.ring.reading_begin ≡ s.ring.reading_cursor % s.ring.size
  pub reader :
      ReaderIsSound s.ring.buffer s.ring.size s.ring.reading_cursor s.ring.cursor s.reader
        s.all_sent s.received
  pub writer : WriterIsSound s.ring (used_from s.reader s.ring.reading_cursor) s.writer
