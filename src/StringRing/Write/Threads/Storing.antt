-- ===== src/StringRing/Write/Threads/Storing.antt =====
-- The stores of the writer into the place of a string, and its release, keep what holds of the two
-- threads.
use slicksocket.Base.{
  ℕ, ◌+◌, ◌%◌, ◌^◌, ◌≤◌, ◌<◌, ◌≡◌, refl, sym, subst, ap, ◌∙◌, ◌⊎◌, inl, false, List, arith, length,
  length-set, length-write_at, get_or-set_self, get_or-set_ne, get_or-write_at, set, read_at-agree,
  read_at-write_at, write_at, u32_bytes, mod-between, add64, sub64, sub32,
}
use slicksocket.StringRing.{StringRing, index, flag_ok, store_flag}
use slicksocket.StringRing.View.{AgreeFrom}
use slicksocket.StringRing.Write.{copy_in}
use slicksocket.StringRing.Write.Threads.{
  clear, flagged, headed, copied, TwoThreads, used_from, put_flag, put_length, copy,
}
use slicksocket.StringRing.Write.Threads.Sound.{IsShared, WriterIsSound, Spot, HasSpace}
use slicksocket.StringRing.Write.Threads.Writing.{outside, private_step, index_lem}

module _ {s : TwoThreads} (v : IsShared s) (m : List ℕ)
    (spot : Spot s.ring.size s.ring.cursor s.ring.writing_begin s.ring.total s.ring.reserved m)
    (space : HasSpace s.ring (used_from s.reader s.ring.reading_cursor) m) where
  index_in :
      (d : ℕ)
      → d ≤ 5
      → s.ring.writing_cursor ≡ s.ring.cursor + d
      → index s.ring s.ring.writing_cursor ≡ s.ring.cursor % s.ring.size + d
  index_in d le at =
      index_lem v s.ring.writing_cursor
      ∙ ap (λ t. t % s.ring.size) at
      ∙ omega (
        arith,
        spot.fits,
        mod-between s.ring.cursor (s.ring.cursor + d) s.ring.size (omega arith)
            (omega (arith, spot.fits)),
      )

  apart :
      (x : ℕ)
      → used_from s.reader s.ring.reading_cursor ≤ x
      → x < s.ring.cursor
      → (x % s.ring.size < s.ring.cursor % s.ring.size)
        ⊎ (s.ring.cursor % s.ring.size + (length m + 5) ≤ x % s.ring.size)
  apart x lo hi =
      outside (used_from s.reader s.ring.reading_cursor) s.ring.cursor (length m + 5) s.ring.size x
        lo hi (omega (arith, space)) (omega arith) (omega (arith, spot.fits))

  -- Bytes that are stored in the place are behind what is published.
  stored_behind :
      (d : ℕ) (bytes : List ℕ)
      → d + length bytes ≤ length m + 5
      → AgreeFrom s.ring.buffer
          (write_at s.ring.buffer (s.ring.cursor % s.ring.size + d) bytes)
          s.ring.size
          (used_from s.reader s.ring.reading_cursor)
          s.ring.cursor
  stored_behind d bytes le x lo hi = sym (
      get_or-write_at s.ring.buffer (s.ring.cursor % s.ring.size + d) bytes (x % s.ring.size)
        (omega (arith, apart x lo hi)))

pub copy_whole :
    (r : StringRing) (m : List ℕ)
    → r.remaining ≡ length m
    → length m < 2 ^ 64
    → r.skip ≡ false
    → copy r m ≡ record r {
      buffer = write_at r.buffer (index r r.writing_cursor) m;
      writing_cursor = add64 r.writing_cursor (length m);
      remaining = 0;
    }
unfolding copy copy_in
copy_whole r m rem short unskipped =
    let n : sub64 r.remaining (length m) ≡ 0 = omega (arith, rem, short) in rw (n, unskipped)

module _ {s : TwoThreads} (v : IsShared s) (m : List ℕ) where
  pub flag-IsShared :
      s.writer ≡ clear m → IsShared (record s { ring = put_flag s.ring; writer = flagged m })
  unfolding put_flag store_flag
  flag-IsShared at =
      let ((spot, rem), space, wc) =
        subst (WriterIsSound s.ring (used_from s.reader s.ring.reading_cursor)) at v.writer in
      let i : index s.ring s.ring.writing_cursor ≡ s.ring.cursor % s.ring.size =
        index_lem v s.ring.writing_cursor ∙ ap (λ t. t % s.ring.size) wc in
      private_step v (set s.ring.buffer (index s.ring s.ring.writing_cursor) flag_ok) s.ring.writing
        s.ring.total s.ring.remaining s.ring.writing_begin (add64 s.ring.writing_cursor 1)
        s.ring.reserved (flagged m)
        (length-set s.ring.buffer (index s.ring s.ring.writing_cursor) flag_ok ∙ v.allocated)
        (λ x lo hi. sym (
          rw i
            (get_or-set_ne s.ring.buffer flag_ok 0 (omega (arith, apart v m spot space x lo hi)))))
        (
          (spot, rem),
          space,
          omega (arith, wc, spot.place.bound),
          rw i (
              get_or-set_self s.ring.buffer (s.ring.cursor % s.ring.size) flag_ok 0
                (omega (arith, spot.fits, v.allocated))),
        )

  pub length-IsShared :
      s.writer ≡ flagged m → IsShared (record s { ring = put_length s.ring; writer = headed m })
  unfolding put_length
  length-IsShared at =
      let ((spot, rem), space, wc, flg) =
        subst (WriterIsSound s.ring (used_from s.reader s.ring.reading_cursor)) at v.writer in
      let i = index_in v m spot space 1 (omega arith) wc in
      let n : sub32 (s.ring.total % 2 ^ 32) 5 ≡ length m =
        omega (arith, spot.place.total_is, spot.place.short, v.small) in
      let bytes : List ℕ = u32_bytes (length m) in
      private_step v
        (write_at s.ring.buffer (index s.ring s.ring.writing_cursor)
          (u32_bytes (sub32 (s.ring.total % 2 ^ 32) 5)))
        s.ring.writing s.ring.total s.ring.remaining s.ring.writing_begin
        (add64 s.ring.writing_cursor 4) s.ring.reserved (headed m)
        (length-write_at s.ring.buffer (index s.ring s.ring.writing_cursor)
            (u32_bytes (sub32 (s.ring.total % 2 ^ 32) 5))
          ∙ v.allocated)
        (rw (i, n) (stored_behind v m spot space 1 (u32_bytes (length m)) (omega arith)))
        (
          (spot, rem),
          space,
          omega (arith, wc, spot.place.bound, spot.place.short),
          rw (i, n)
                (get_or-write_at s.ring.buffer (s.ring.cursor % s.ring.size + 1)
                  (u32_bytes (length m)) (s.ring.cursor % s.ring.size) (inl (omega arith)))
              ∙ flg,
          rw (i, n)
              (read_at-write_at s.ring.buffer (s.ring.cursor % s.ring.size + 1)
                (u32_bytes (length m)) (omega (arith, spot.fits, v.allocated))),
        )

  pub copy-IsShared :
      s.writer ≡ headed m → IsShared (record s { ring = copy s.ring m; writer = copied m })
  copy-IsShared at =
      let ((spot, rem), space, wc, flg, len) =
        subst (WriterIsSound s.ring (used_from s.reader s.ring.reading_cursor)) at v.writer in
      let i = index_in v m spot space 5 (omega arith) wc in
      rw (copy_whole s.ring m rem (omega (arith, spot.place.short, v.small)) v.unskipped) (
        private_step v (write_at s.ring.buffer (index s.ring s.ring.writing_cursor) m)
          s.ring.writing s.ring.total 0 s.ring.writing_begin
          (add64 s.ring.writing_cursor (length m)) s.ring.reserved (copied m)
          (length-write_at s.ring.buffer (index s.ring s.ring.writing_cursor) m ∙ v.allocated)
          (rw i (stored_behind v m spot space 5 m (omega arith)))
          (
            spot,
            space,
            refl,
            rw i (record {
              flag =
                  get_or-write_at s.ring.buffer (s.ring.cursor % s.ring.size + 5) m
                    (s.ring.cursor % s.ring.size) (inl (omega arith))
                  ∙ flg;
              fits = spot.fits;
              nonempty = spot.place.some_bytes;
              len =
                  read_at-agree (write_at s.ring.buffer (s.ring.cursor % s.ring.size + 5) m)
                    s.ring.buffer (s.ring.cursor % s.ring.size + 1) 4
                    (λ j lo hi.
                      get_or-write_at s.ring.buffer (s.ring.cursor % s.ring.size + 5) m j
                        (inl (omega arith)))
                  ∙ len;
              body =
                  read_at-write_at s.ring.buffer (s.ring.cursor % s.ring.size + 5) m
                    (omega (arith, spot.fits, v.allocated));
            }),
          ))
