-- ===== src/StringRing/Write/Threads/Tests.antt =====
-- A run of the two threads on a ring of 16 bytes, and the theorems about runs at it.
use slicksocket.Base.{ℕ, ◌≡◌, refl, true, false, some, List, [], ◌∷◌, ◌++◌, arith}
use slicksocket.StringRing.{StringRing, store_flag, notify, read_rest, advance, stored_length}
use slicksocket.StringRing.View.{IsReady}
use slicksocket.StringRing.Write.Threads.Alone.{Leads, write-Leads}
use slicksocket.StringRing.Write.{write, finish, close, copy_in, mark_invalid}
use slicksocket.StringRing.Write.Threads.{
  idle, claimed, resting, using, TwoThreads, claims, fits, passes, flags, measures, copies,
  publishes, looks, loads, gets, uses, Reach, IsRoomy, start, later, claim, put_flag, put_length,
  copy,
}
use slicksocket.StringRing.Write.Threads.Progress.{Reach-drained}
use slicksocket.StringRing.Write.Threads.Order.{begun, Reach-in_order, Reach-nothing_lost}

abbrev sixteen_zeros : List ℕ
sixteen_zeros = 0 ∷ 0 ∷ 0 ∷ 0 ∷ 0 ∷ 0 ∷ 0 ∷ 0 ∷ 0 ∷ 0 ∷ 0 ∷ 0 ∷ 0 ∷ 0 ∷ 0 ∷ 0 ∷ []

-- An empty buffer, with both ends at position 16.
abbrev empty : StringRing
empty = record {
  buffer = sixteen_zeros;
  size = 16;
  writing_cursor = 0;
  writing_begin = 16;
  reading_cursor = 16;
  total = 0;
  remaining = 0;
  reset_count = 0;
  skip = false;
  cursor = 16;
  reserved = 16;
  reading_begin = 0;
  writing = false;
  resetting = false;
}

abbrev three : List ℕ
three = 7 ∷ 8 ∷ 9 ∷ []

empty-IsReady : IsReady empty []
empty-IsReady = record {
  power = record { exponent = 4; is_power = refl };
  small = omega arith;
  allocated = refl;
  unskipped = refl;
  idle = refl;
  quiet = refl;
  unlocked = refl;
  published = refl;
  claimed = refl;
  bounded = omega arith;
  behind = omega arith;
  room = omega arith;
  reader = refl;
  strings = refl;
}

-- What the runs open.
everything : ℕ
unfolding claim put_flag put_length copy copy_in store_flag notify finish mark_invalid close
    read_rest advance stored_length
everything = 0

abbrev with_string : StringRing
with_string = record empty {
  buffer = 0 ∷ 3 ∷ 0 ∷ 0 ∷ 0 ∷ 7 ∷ 8 ∷ 9 ∷ 0 ∷ 0 ∷ 0 ∷ 0 ∷ 0 ∷ 0 ∷ 0 ∷ 0 ∷ [];
  writing_begin = 24;
  total = 8;
  cursor = 24;
  reserved = 24;
}

-- The writer writes a string.
abbrev written : TwoThreads
written = record {
  ring = with_string;
  writer = idle;
  reader = resting;
  all_sent = three ∷ [];
  received = [];
}

writes : Reach (begun empty []) written
unfolding everything
writes =
    later
      (later
        (later
          (later
            (later
              (later (later start (claims three refl (omega arith) (omega arith)))
                (fits three refl refl))
              (passes three refl refl))
            (flags three refl))
          (measures three refl))
        (copies three refl))
      (publishes three with_string refl refl)

-- The reader takes it, while the writer claims the place of another.
abbrev pointed_to : TwoThreads
pointed_to = record {
  ring = record with_string {
    reading_cursor = 24;
    reading_begin = 8;
    writing = true;
    total = 6;
    remaining = 1;
    writing_cursor = 24;
    reserved = 30;
  };
  writer = claimed (5 ∷ []);
  reader = using 16 (some 5, 3);
  all_sent = three ∷ [];
  received = [];
}

takes : Reach (begun empty []) pointed_to
unfolding everything
takes =
    later
      (later (later (later writes (looks refl refl)) (loads refl))
        (claims (5 ∷ []) refl (omega arith) (omega arith)))
      (gets 0 5 refl refl)

writes-IsRoomy : IsRoomy writes
unfolding writes
writes-IsRoomy = (((((((tt, omega arith), tt), omega arith), tt), tt), tt), tt)

takes-IsRoomy : IsRoomy takes
unfolding takes
takes-IsRoomy = ((((writes-IsRoomy, tt), tt), omega arith), tt)

Reach-in_order_example : (waiting : List (List ℕ)) × (three ∷ [] ≡ [] ++ ((three ∷ []) ++ waiting))
Reach-in_order_example = Reach-in_order empty [] pointed_to empty-IsReady takes takes-IsRoomy

-- The reader has used the string, and looks again.
abbrev rested : TwoThreads
rested = record pointed_to { reader = resting; received = three ∷ [] }

Reach-nothing_lost_example : three ∷ [] ≡ three ∷ []
Reach-nothing_lost_example =
    Reach-nothing_lost empty [] rested empty-IsReady (later takes (uses 16 (some 5, 3) refl))
      (takes-IsRoomy, tt) refl refl

write-Leads_example : Leads (begun empty []) three (write true empty three 0 [])
write-Leads_example = write-Leads three true empty-IsReady (omega arith) (omega arith)

Reach-drained_example : (u : TwoThreads) × Reach pointed_to u × (u.received ≡ three ∷ [])
Reach-drained_example = Reach-drained empty [] pointed_to empty-IsReady takes takes-IsRoomy
