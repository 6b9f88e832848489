-- ===== src/StringRing/Write/Threads/Reading.antt =====
-- The steps of the reader keep what holds of the two threads.
use slicksocket.Base.{
  ℕ, ◌+◌, ◌-◌, ◌%◌, ◌≤◌, ◌<◌, ◌≡◌, ◌≢◌, refl, sym, subst, ap, ◌∙◌, true, none, some, List, [], ◌∷◌,
  ◌++◌, arith, length, get_or, mod-lt,
}
use mathlib.Core.List.{append_assoc}
use mathlib.Core.Option.{none-ne-some}
use slicksocket.StringRing.{
  StringRing, Slice, index, flag_skip, next_flag, read_rest, read_entry, has_more, advance,
  bytes_of,
}
use slicksocket.StringRing.ReadEntry.{read_entry-Entry, read_entry-mark}
use slicksocket.StringRing.View.{Entry}
use slicksocket.StringRing.Write.Threads.{
  Writer, idle, claimed, marked, placed, clear, flagged, headed, copied, Reader, resting, looked,
  at_flag, using, TwoThreads, used_from,
}
use slicksocket.StringRing.Write.Threads.Layout.{
  ReaderIsSound, Filled, Filled-le, Filled-Next, Next, string, skip,
}
use slicksocket.StringRing.Write.Threads.Sound.{IsShared, WriterIsSound}
use slicksocket.StringRing.Write.Threads.Writing.{size_pos, index_lem}

-- What the reader lets go does not disturb the writer.
WriterIsSound-release :
    (r : StringRing) (rc rb from from' : ℕ) (w : Writer)
    → from ≤ from'
    → WriterIsSound r from w
    → WriterIsSound (record r { reading_cursor = rc; reading_begin = rb }) from' w
WriterIsSound-release r rc rb from from' idle le h = h
WriterIsSound-release r rc rb from from' (claimed m) le h = h
WriterIsSound-release r rc rb from from' (marked m) le h = h
WriterIsSound-release r rc rb from from' (placed m) le h = h
WriterIsSound-release r rc rb from from' (clear m) le (p, space, h) =
    (p, omega (arith, space, le), h)
WriterIsSound-release r rc rb from from' (flagged m) le (p, space, wc, flg) =
    (p, omega (arith, space, le), wc, flg)
WriterIsSound-release r rc rb from from' (headed m) le (p, space, wc, flg, len) =
    (p, omega (arith, space, le), wc, flg, len)
WriterIsSound-release r rc rb from from' (copied m) le (p, space, rem, en) =
    (p, omega (arith, space, le), rem, en)

rest_is : (r : StringRing) (f : ℕ) → next_flag r ≡ f → read_rest f r ≡ read_entry r
unfolding read_entry
rest_is r f e = rw (sym e) refl

module _ {s : TwoThreads} (v : IsShared s) where
  reader_step :
      (rc rb : ℕ) (ph : Reader) (received : List (List ℕ))
      → used_from s.reader s.ring.reading_cursor ≤ used_from ph rc
      → rb ≡ rc % s.ring.size
      → ReaderIsSound s.ring.buffer s.ring.size rc s.ring.cursor ph s.all_sent received
      → IsShared (record s {
        ring = record s.ring { reading_cursor = rc; reading_begin = rb };
        reader = ph;
        received = received;
      })
  reader_step rc rb ph received le at sound = record {
    power = v.power;
    small = v.small;
    allocated = v.allocated;
    unskipped = v.unskipped;
    quiet = v.quiet;
    bounded = v.bounded;
    room = omega (arith, v.room, le);
    reader_at = at;
    reader = sound;
    writer =
        WriterIsSound-release s.ring rc rb (used_from s.reader s.ring.reading_cursor)
          (used_from ph rc) s.writer le v.writer;
  }

  pub sound_at :
      (ph : Reader)
      → s.reader ≡ ph
      → ReaderIsSound s.ring.buffer s.ring.size s.ring.reading_cursor s.ring.cursor ph s.all_sent
          s.received
  sound_at ph at =
      subst
        (λ t.
          ReaderIsSound s.ring.buffer s.ring.size s.ring.reading_cursor s.ring.cursor t s.all_sent
            s.received)
        at v.reader

  used_at :
      (ph : Reader)
      → s.reader ≡ ph
      → used_from s.reader s.ring.reading_cursor ≡ used_from ph s.ring.reading_cursor
  used_at ph at = ap (λ t. used_from t s.ring.reading_cursor) at

  pub look-IsShared :
      s.reader ≡ resting
      → has_more s.ring s.ring.cursor ≡ true
      → IsShared (record s { reader = looked })
  look-IsShared at more =
      let (ms, f, order) = sound_at resting at in
      let le = Filled-le s.ring.buffer s.ring.size s.ring.reading_cursor s.ring.cursor ms f in
      let ne : s.ring.reading_cursor ≢ s.ring.cursor = λ e.
        ground (arith, more, v.reader_at, index_lem v s.ring.cursor, ap (λ t. t % s.ring.size) e) in
      reader_step s.ring.reading_cursor s.ring.reading_begin looked s.received
        (omega (arith, used_at resting at)) v.reader_at (omega (arith, le, ne), ms, f, order)

  pub load-IsShared :
      s.reader ≡ looked → IsShared (record s { reader = at_flag (next_flag s.ring) })
  load-IsShared at =
      let (lt, ms, f, order) = sound_at looked at in
      reader_step s.ring.reading_cursor s.ring.reading_begin (at_flag (next_flag s.ring)) s.received
        (omega (arith, used_at looked at)) v.reader_at
        (
          lt,
          ap (λ i. get_or s.ring.buffer i 0) (sym (index_lem v s.ring.reading_cursor)),
          ms,
          f,
          order,
        )

  pub use-IsShared :
      (p : ℕ) (slice : Slice)
      → s.reader ≡ using p slice
      → IsShared
          (record s { reader = resting; received = s.received ++ bytes_of s.ring slice ∷ [] })
  use-IsShared p slice at =
      let (m, ms, behind, en, sl, f, order) = sound_at (using p slice) at in
      let got : bytes_of s.ring slice ≡ m = ap (bytes_of s.ring) sl ∙ en.body in
      reader_step s.ring.reading_cursor s.ring.reading_begin resting
        (s.received ++ bytes_of s.ring slice ∷ [])
        (omega (arith, used_at (using p slice) at, behind)) v.reader_at
        (ms, f, rw got (order ∙ sym (append_assoc s.received (m ∷ []) ms)))

  module _ (f : ℕ) (at : s.reader ≡ at_flag f) where
    -- The rest of `read`, at what the reader finds.
    pub rest_string :
        (m : List ℕ) (ms : List (List ℕ))
        → Entry s.ring.buffer s.ring.size s.ring.reading_cursor m
        → Filled s.ring.buffer s.ring.size (s.ring.reading_cursor + 5 + length m) s.ring.cursor ms
        → read_rest f s.ring ≡ (
          (some (s.ring.reading_cursor % s.ring.size + 5), length m),
          advance s.ring (s.ring.reading_cursor + 5 + length m),
        )
    rest_string m ms en rest =
        let (lt, same, _, _, _) = sound_at (at_flag f) at in
        rest_is s.ring f (rw (index_lem v s.ring.reading_cursor) same)
        ∙ read_entry-Entry s.ring m v.power v.small
            (omega (
              arith,
              v.bounded,
              Filled-le s.ring.buffer s.ring.size (s.ring.reading_cursor + 5 + length m)
                  s.ring.cursor ms rest,
            ))
            en

    pub rest_mark :
        (q : ℕ) (ms : List (List ℕ))
        → get_or s.ring.buffer (s.ring.reading_cursor % s.ring.size) 0 ≡ flag_skip
        → q ≡ s.ring.reading_cursor + (s.ring.size - s.ring.reading_cursor % s.ring.size)
        → Filled s.ring.buffer s.ring.size q s.ring.cursor ms
        → read_rest f s.ring ≡ ((none, 0), advance s.ring q)
    rest_mark q ms found next rest =
        let (lt, same, _, _, _) = sound_at (at_flag f) at in
        let end = Filled-le s.ring.buffer s.ring.size q s.ring.cursor ms rest in
        rest_is s.ring f (rw (index_lem v s.ring.reading_cursor) same)
        ∙ read_entry-mark s.ring q v.power
            (omega (
              arith,
              end,
              next,
              v.room,
              used_at (at_flag f) at,
              mod-lt s.ring.reading_cursor (size_pos v),
            ))
            v.small (omega (arith, v.bounded, end)) found next

    skip_next :
        (ms : List (List ℕ))
        → Next s.ring.buffer s.ring.size s.ring.reading_cursor s.ring.cursor ms
        → s.all_sent ≡ s.received ++ ms
        → (read_rest f s.ring).0.0 ≡ none
        → IsShared (record s { ring = (read_rest f s.ring).1; reader = resting })
    unfolding advance
    skip_next ms (string m ms' en rest) order nothing = absurd (
        none-ne-some (s.ring.reading_cursor % s.ring.size + 5)
          (sym nothing ∙ ap (λ t. t.0.0) (rest_string m ms' en rest)))
    skip_next ms (skip q ms' mark next rest) order nothing = rw (rest_mark q ms' mark next rest) (
        reader_step q (index s.ring q) resting s.received
          (omega (arith, used_at (at_flag f) at, next)) (index_lem v q) (ms', rest, order))

    get_next :
        (place : ℕ) (ms : List (List ℕ))
        → Next s.ring.buffer s.ring.size s.ring.reading_cursor s.ring.cursor ms
        → s.all_sent ≡ s.received ++ ms
        → (read_rest f s.ring).0.0 ≡ some place
        → IsShared (record s {
          ring = (read_rest f s.ring).1;
          reader = using s.ring.reading_cursor (read_rest f s.ring).0;
        })
    unfolding advance
    get_next place ms (string m ms' en rest) order found = rw (rest_string m ms' en rest) (
        reader_step (s.ring.reading_cursor + 5 + length m)
          (index s.ring (s.ring.reading_cursor + 5 + length m))
          (using s.ring.reading_cursor (some (s.ring.reading_cursor % s.ring.size + 5), length m))
          s.received (omega (arith, used_at (at_flag f) at))
          (index_lem v (s.ring.reading_cursor + 5 + length m))
          (m, ms', refl, en, refl, rest, order))
    get_next place ms (skip q ms' mark next rest) order found =
        absurd (none-ne-some place (ap (λ t. t.0.0) (sym (rest_mark q ms' mark next rest)) ∙ found))

    pub next_of :
        (ms : List (List ℕ))
        → s.ring.reading_cursor < s.ring.cursor
        → Filled s.ring.buffer s.ring.size s.ring.reading_cursor s.ring.cursor ms
        → Next s.ring.buffer s.ring.size s.ring.reading_cursor s.ring.cursor ms
    next_of ms = Filled-Next s.ring.buffer s.ring.size s.ring.reading_cursor s.ring.cursor ms

    pub skip-IsShared :
        (read_rest f s.ring).0.0 ≡ none
        → IsShared (record s { ring = (read_rest f s.ring).1; reader = resting })
    skip-IsShared nothing =
        let (lt, same, ms, filled, order) = sound_at (at_flag f) at in
        skip_next ms (next_of ms lt filled) order nothing

    pub get-IsShared :
        (place : ℕ)
        → (read_rest f s.ring).0.0 ≡ some place
        → IsShared (record s {
          ring = (read_rest f s.ring).1;
          reader = using s.ring.reading_cursor (read_rest f s.ring).0;
        })
    get-IsShared place found =
        let (lt, same, ms, filled, order) = sound_at (at_flag f) at in
        get_next place ms (next_of ms lt filled) order found
