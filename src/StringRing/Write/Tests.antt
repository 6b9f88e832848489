-- ===== src/StringRing/Write/Tests.antt =====
-- Runs of `ring_string_buffer` on a ring of 16 bytes, and the theorems at concrete buffers.
use slicksocket.Base.{
  ℕ, ◌<◌, ◌≡◌, ◌⊎◌, refl, inl, true, false, some, none, List, [], ◌∷◌, IsPowerOfTwo, arith,
}
use slicksocket.StringRing.{
  StringRing, create, fresh, read, read_entry, bytes_of, reset, reset_end, notify,
}
use slicksocket.StringRing.View.{IsReady}
use slicksocket.StringRing.Dequeue.{Delivers, read-Delivers}
use slicksocket.StringRing.Write.{
  returned, aborted, spinning, write, new_string, reserve_string, wait, resume, put_part,
  put_header, finish, copy_in, refuse, reads, resets, nothing,
}
use slicksocket.StringRing.History.{
  Calls, start, IsQueue, Calls-IsQueue, read_all, Drains, read_all-Drains,
}
use slicksocket.StringRing.History as History
use slicksocket.StringRing.Write.Waiting.{times}
use slicksocket.StringRing.Write.Enqueue.Waits.{write-ends, write-reset}
use slicksocket.StringRing.Write.Enqueue.Append.{write-IsReady}
use slicksocket.StringRing.Write.Enqueue.Parts.{write_parts-IsReady}
use slicksocket.StringRing.Write.Enqueue.Faults.{write-fills, write-overwrites}
use slicksocket.StringRing.Write.Refused.{write-long_loses_next}
use slicksocket.StringRing.Write.Refused.Reset.{write-long_then_reset_hangs}

abbrev sixteen_zeros : List ℕ
sixteen_zeros = 0 ∷ 0 ∷ 0 ∷ 0 ∷ 0 ∷ 0 ∷ 0 ∷ 0 ∷ 0 ∷ 0 ∷ 0 ∷ 0 ∷ 0 ∷ 0 ∷ 0 ∷ 0 ∷ []

-- What a run opens.
everything : ℕ
unfolding create fresh write new_string reserve_string wait resume put_part put_header finish
    copy_in refuse notify read read_entry
everything = 0

create_other : create true sixteen_zeros 12 ≡ none
unfolding everything
create_other = refl

-- An empty buffer, with both ends at one position.
abbrev empty_at : ℕ → StringRing
empty_at p = record {
  buffer = sixteen_zeros;
  size = 16;
  writing_cursor = 0;
  writing_begin = p;
  reading_cursor = p;
  total = 0;
  remaining = 0;
  reset_count = 0;
  skip = false;
  cursor = p;
  reserved = p;
  reading_begin = p;
  writing = false;
  resetting = false;
}

-- The buffer with one string, 7 8 9.
abbrev one : StringRing
one = record (empty_at 0) {
  buffer = 0 ∷ 3 ∷ 0 ∷ 0 ∷ 0 ∷ 7 ∷ 8 ∷ 9 ∷ 0 ∷ 0 ∷ 0 ∷ 0 ∷ 0 ∷ 0 ∷ 0 ∷ 0 ∷ [];
  writing_begin = 8;
  total = 8;
  cursor = 8;
  reserved = 8;
}

abbrev string : List ℕ
string = 7 ∷ 8 ∷ 9 ∷ []

abbrev long_string : List ℕ
long_string = 1 ∷ 2 ∷ 3 ∷ 4 ∷ 5 ∷ 6 ∷ 7 ∷ 8 ∷ 9 ∷ 10 ∷ 11 ∷ []

write_one : write true (empty_at 0) string 0 [] ≡ returned true one
unfolding everything
write_one = refl

read_one : bytes_of one (read one).0 ≡ string
unfolding everything
read_one = refl

sixteen : IsPowerOfTwo 16
sixteen = record { exponent = 4; is_power = refl }

empty_at-IsReady : (p : ℕ) → p < 16 → IsReady (empty_at p) []
empty_at-IsReady p h = record {
  power = sixteen;
  small = omega arith;
  allocated = refl;
  unskipped = refl;
  idle = refl;
  quiet = refl;
  unlocked = refl;
  published = refl;
  claimed = refl;
  bounded = omega arith;
  behind = omega arith;
  room = omega arith;
  reader = omega arith;
  strings = refl;
}

one-IsReady : IsReady one (string ∷ [])
one-IsReady = record {
  power = sixteen;
  small = omega arith;
  allocated = refl;
  unskipped = refl;
  idle = refl;
  quiet = refl;
  unlocked = refl;
  published = refl;
  claimed = refl;
  bounded = omega arith;
  behind = omega arith;
  room = omega arith;
  reader = refl;
  strings = (
    0,
    inl refl,
    record { flag = refl; fits = omega arith; nonempty = omega arith; len = refl; body = refl },
    refl,
  );
}

read-Delivers_example :
    Delivers string [] (read one)
    ⊎ (((read one).0 ≡ (none, 0)) × Delivers string [] (read (read one).1))
read-Delivers_example = read-Delivers one-IsReady

-- There is room behind position 3.
write-IsReady_example :
    (s' : StringRing) × (write true (empty_at 3) string 0 (reads ∷ []) ≡ returned true s')
    × IsReady s' (string ∷ [])
write-IsReady_example =
    write-IsReady string true (reads ∷ []) (empty_at-IsReady 3 (omega arith)) (record {
      is_short = record { some_bytes = omega arith; short = omega arith; counted = omega arith };
      is_free = omega arith;
      unfilled = omega arith;
    })

write_parts-IsReady_example :
    (s' : StringRing) × (s'' : StringRing) × (write true (empty_at 3) (7 ∷ []) 2 []
      ≡ returned true s')
    × (write true s' (8 ∷ 9 ∷ []) 0 [] ≡ returned true s'')
    × IsReady s'' (string ∷ [])
write_parts-IsReady_example =
    write_parts-IsReady (7 ∷ []) (8 ∷ 9 ∷ []) true [] [] (empty_at-IsReady 3 (omega arith))
      (omega arith) (omega arith)
      (record {
        is_short = record { some_bytes = omega arith; short = omega arith; counted = omega arith };
        is_free = omega arith;
        unfilled = omega arith;
      })

-- From position 8 the string goes round and ends where the reader stands.
write-fills_example :
    (s' : StringRing) × (write true (empty_at 8) string 0 [] ≡ returned true s')
    × (read s' ≡ ((none, 0), s'))
write-fills_example =
    write-fills string true [] (empty_at-IsReady 8 (omega arith))
      (record { some_bytes = omega arith; short = omega arith; counted = omega arith }) refl

-- The first string waits at the start of the buffer.
write-overwrites_example :
    (s' : StringRing) × (write true one (1 ∷ 2 ∷ 3 ∷ []) 0 [] ≡ returned true s')
    × (let (out, s'') = read s' in (bytes_of s'' out ≡ 1 ∷ 2 ∷ 3 ∷ []) × (out.1 ≡ 3))
write-overwrites_example =
    write-overwrites (1 ∷ 2 ∷ 3 ∷ []) true [] one-IsReady
      (record { some_bytes = omega arith; short = omega arith; counted = omega arith }) refl refl

write-long_loses_next_example :
    (write true one long_string 0 [] ≡ aborted)
    × (s' : StringRing) × (s'' : StringRing) × (write false one long_string 0 []
        ≡ returned false s')
    × (write false s' string 0 [] ≡ returned true s'')
    × IsReady s'' (string ∷ [])
write-long_loses_next_example =
    write-long_loses_next long_string string [] one-IsReady
      (record { some_bytes = omega arith; long = omega arith; counted = omega arith }) (omega arith)

write-long_then_reset_hangs_example :
    (s₁ : StringRing) × (s₂ : StringRing) × (s₃ : StringRing) × (write false one long_string 0 []
      ≡ returned false s₁)
    × (reset s₁ ≡ some s₂)
    × (write false s₂ string 0 [] ≡ returned true s₃)
    × (write false s₃ string 0 [] ≡ spinning)
write-long_then_reset_hangs_example =
    write-long_then_reset_hangs long_string string string [] one-IsReady
      (record { some_bytes = omega arith; long = omega arith; counted = omega arith }) (omega arith)
      (omega arith) (omega arith) (omega arith)

-- A string is written at position 0 of an empty buffer, and waits.
Calls-IsQueue_example : IsQueue (string ∷ []) [] one
Calls-IsQueue_example = Calls-IsQueue (empty_at-IsReady 0 (omega arith)) (
    History.writes true string [] start
      (record {
        is_short = record { some_bytes = omega arith; short = omega arith; counted = omega arith };
        is_free = omega arith;
        unfilled = omega arith;
      })
      write_one)

write-ends_example :
    (s' : StringRing) × (write true one string 0 (times 3 reads []) ≡ returned true s')
write-ends_example =
    write-ends string true 3 [] one-IsReady
      (record { some_bytes = omega arith; short = omega arith; counted = omega arith })
      (omega arith)

-- The reader stands at position 8, inside the place of the new string.
write-reset_example :
    (s' : StringRing) × (write true
        (empty_at 8)
        (7 ∷ 8 ∷ 9 ∷ 6 ∷ [])
        0
        (times 2 nothing (resets ∷ []))
      ≡ returned false s')
    × IsReady (reset_end s') []
write-reset_example =
    write-reset (7 ∷ 8 ∷ 9 ∷ 6 ∷ []) true 2 [] (empty_at-IsReady 8 (omega arith))
      (record { some_bytes = omega arith; short = omega arith; counted = omega arith })
      (omega arith) (omega arith) (omega arith)
