-- ===== src/StringRing/Write/Threads/Writing.antt =====
-- The steps of the writer keep what holds of the two threads.
use slicksocket.Base.{
  ℕ, ◌+◌, ◌%◌, ◌^◌, ◌≤◌, ◌<◌, ◌≡◌, refl, sym, subst, ap, ◌∙◌, ◌⊎◌, Bool, true, false, List, arith,
  length, length-set, get_or-set_self, get_or-set_ne, set, bit_and-mask, pow-pos, mod-between,
  mod-apart, mod-lt, add64,
}
use slicksocket.StringRing.{index, flag_skip, store_flag}
use slicksocket.StringRing.View.{AgreeFrom}
use slicksocket.StringRing.Write.Threads.{
  Writer, idle, claimed, marked, placed, clear, TwoThreads, used_from, claim, mark, is_over_end,
  padding,
}
use slicksocket.StringRing.Write.Threads.Layout.{ReaderIsSound-frame}
use slicksocket.StringRing.Write.Threads.Sound.{IsShared, WriterIsSound, HasSpace}

-- The index of a position in use lies outside a place behind what is published.
pub outside :
    (from c n size x : ℕ)
    → from ≤ x
    → x < c
    → c + n ≤ from + size
    → 0 < n
    → c % size + n ≤ size
    → (x % size < c % size) ⊎ (c % size + n ≤ x % size)
outside from c n size x lo hi free pos fits =
    omega
      (arith, mod-between x c size (omega arith) (omega arith), mod-lt x {m = size} (omega arith))

module _ {s : TwoThreads} (v : IsShared s) where
  pub size_pos : 0 < s.ring.size
  size_pos = pow-pos s.ring.size v.power

  pub index_lem : (p : ℕ) → index s.ring p ≡ p % s.ring.size
  index_lem p = bit_and-mask s.ring.size p v.power

  -- A step that leaves the bytes in use as they are, and publishes nothing.
  pub private_step :
      (mem : List ℕ) (writing : Bool) (total remaining begin wc rsv : ℕ) (w : Writer)
      → length mem ≡ s.ring.size
      → AgreeFrom s.ring.buffer mem s.ring.size
          (used_from s.reader s.ring.reading_cursor)
          s.ring.cursor
      → let r = record s.ring {
        buffer = mem;
        writing = writing;
        total = total;
        remaining = remaining;
        writing_begin = begin;
        writing_cursor = wc;
        reserved = rsv;
      } in
        WriterIsSound r (used_from s.reader s.ring.reading_cursor) w
        → IsShared (record s { ring = r; writer = w })
  private_step mem writing total remaining begin wc rsv w len agree ws = record {
    power = v.power;
    small = v.small;
    allocated = len;
    unskipped = v.unskipped;
    quiet = v.quiet;
    bounded = v.bounded;
    room = v.room;
    reader_at = v.reader_at;
    reader =
        ReaderIsSound-frame s.ring.buffer mem s.ring.size s.ring.reading_cursor s.ring.cursor
          s.reader s.all_sent s.received size_pos agree v.reader;
    writer = ws;
  }

  same_memory :
      AgreeFrom s.ring.buffer s.ring.buffer s.ring.size
        (used_from s.reader s.ring.reading_cursor)
        s.ring.cursor
  same_memory x lo hi = refl

  pub claim-IsShared :
      (m : List ℕ)
      → s.writer ≡ idle
      → 0 < length m
      → length m + 5 < s.ring.size
      → s.ring.reserved + (s.ring.size + s.ring.size) < 2 ^ 64
      → IsShared (record s { ring = claim s.ring (length m); writer = claimed m })
  unfolding claim
  claim-IsShared m at pos short bound =
      let (begin, rsv, wc) =
        subst (WriterIsSound s.ring (used_from s.reader s.ring.reading_cursor)) at v.writer in
      let total : add64 (length m) 5 ≡ length m + 5 = omega arith in
      private_step s.ring.buffer true (add64 (length m) 5) (length m) s.ring.reserved
        s.ring.reserved (add64 s.ring.reserved (add64 (length m) 5)) (claimed m) v.allocated
        same_memory
        (
          record {
            some_bytes = pos;
            short = short;
            begins = rsv;
            total_is = total;
            bound = omega arith;
          },
          refl,
          rsv,
          omega arith,
          omega arith,
        )

  pub fits-IsShared :
      (m : List ℕ)
      → s.writer ≡ claimed m
      → is_over_end s.ring ≡ false
      → IsShared (record s { writer = placed m })
  fits-IsShared m at fits =
      let (p, rem, wc, rsv, bound) =
        subst (WriterIsSound s.ring (used_from s.reader s.ring.reading_cursor)) at v.writer in
      private_step s.ring.buffer s.ring.writing s.ring.total s.ring.remaining s.ring.writing_begin
        s.ring.writing_cursor s.ring.reserved (placed m) v.allocated same_memory
        (
          (
            record {
              place = p;
              fits = ground (
                arith,
                index_lem s.ring.writing_begin,
                p.begins,
                p.total_is,
                p.short,
                v.small,
                mod-lt s.ring.cursor size_pos,
                ap (λ t. t % s.ring.size) p.begins,
              );
              claimed = rsv;
            },
            rem,
          ),
          wc,
        )

  pub pass-IsShared :
      (m : List ℕ)
      → s.writer ≡ placed m
      → HasSpace s.ring (used_from s.reader s.ring.reading_cursor) m
      → IsShared (record s { writer = clear m })
  pass-IsShared m at space =
      let (p, wc) =
        subst (WriterIsSound s.ring (used_from s.reader s.ring.reading_cursor)) at v.writer in
      private_step s.ring.buffer s.ring.writing s.ring.total s.ring.remaining s.ring.writing_begin
        s.ring.writing_cursor s.ring.reserved (clear m) v.allocated same_memory (p, space, wc)

  pub mark-IsShared :
      (m : List ℕ)
      → s.writer ≡ claimed m
      → is_over_end s.ring ≡ true
      → IsShared (record s { ring = mark s.ring; writer = marked m })
  unfolding mark store_flag
  mark-IsShared m at over =
      let (p, rem, wc, rsv, bound) =
        subst (WriterIsSound s.ring (used_from s.reader s.ring.reading_cursor)) at v.writer in
      let below = mod-lt s.ring.cursor size_pos in
      let i : index s.ring s.ring.writing_cursor ≡ s.ring.cursor % s.ring.size =
        index_lem s.ring.writing_cursor ∙ ap (λ t. t % s.ring.size) wc in
      let j : index s.ring s.ring.writing_begin ≡ s.ring.cursor % s.ring.size =
        index_lem s.ring.writing_begin ∙ ap (λ t. t % s.ring.size) p.begins in
      private_step (set s.ring.buffer (index s.ring s.ring.writing_cursor) flag_skip) s.ring.writing
        s.ring.total s.ring.remaining s.ring.writing_begin s.ring.writing_cursor
        (add64 s.ring.reserved (padding s.ring)) (marked m)
        (length-set s.ring.buffer (index s.ring s.ring.writing_cursor) flag_skip ∙ v.allocated)
        (λ x lo hi. sym (
          rw i (
            get_or-set_ne s.ring.buffer flag_skip 0
              (λ e. mod-apart x s.ring.cursor s.ring.size hi (omega (arith, v.room)) e))))
        (
          p,
          rem,
          ground (arith, j, rsv, below, v.small, bound),
          bound,
          ground (arith, j, p.total_is, p.short, v.small, below, over),
          rw i (
              get_or-set_self s.ring.buffer (s.ring.cursor % s.ring.size) flag_skip 0
                (omega (arith, below, v.allocated))),
        )
