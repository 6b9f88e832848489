-- ===== src/StringRing/Write/Threads/Publishing.antt =====
-- Where the writer publishes a SKIP mark or a string, it keeps what holds of the two threads.
use slicksocket.Base.{
  ℕ, ◌+◌, ◌-◌, ◌%◌, ◌<◌, ◌≡◌, refl, sym, subst, ap, ◌∙◌, true, false, some, List, [], ◌∷◌, ◌++◌,
  arith, length, mod-lt, mod-round, add64,
}
use mathlib.Core.Option.{some-injective}
use mathlib.Core.List.{append-nil}
use slicksocket.StringRing.{StringRing, notify}
use slicksocket.StringRing.Write.{Outcome, returned, aborted, spinning, finish, close, mark_invalid}
use slicksocket.StringRing.Write.Threads.{
  idle, marked, placed, copied, TwoThreads, used_from, padding,
}
use slicksocket.StringRing.Write.Threads.Layout.{
  ReaderIsSound, ReaderIsSound-grow, Filled-mark, Filled-snoc,
}
use slicksocket.StringRing.Write.Threads.Sound.{IsShared, WriterIsSound}
use slicksocket.StringRing.Write.Threads.Writing.{size_pos, index_lem}

pub notify_same :
    (s : StringRing) (n : ℕ)
    → s.cursor ≡ s.writing_begin
    → notify s n
      ≡ some (record s { cursor = add64 s.cursor n; writing_begin = add64 s.writing_begin n })
unfolding notify
notify_same s n same = ground (arith, same)

pub published : StringRing → StringRing
published s = record s {
  cursor = add64 s.cursor s.total;
  writing_begin = add64 s.writing_begin s.total;
}

pub finish_whole :
    (s : StringRing)
    → s.skip ≡ false
    → s.remaining ≡ 0
    → s.cursor ≡ s.writing_begin
    → finish s 0 ≡ returned true (close (published s))
unfolding finish mark_invalid notify published
finish_whole s unskipped all same = ground (arith, unskipped, all, same)

ring_of : StringRing → Outcome → StringRing
ring_of d (returned b s) = s
ring_of d aborted = d
ring_of d spinning = d

module _ {s : TwoThreads} (v : IsShared s) (m : List ℕ) (r : StringRing) where
  pub goes_round-IsShared :
      s.writer ≡ marked m
      → s.ring.cursor + (s.ring.size - s.ring.cursor % s.ring.size)
        < used_from s.reader s.ring.reading_cursor + s.ring.size
      → notify s.ring (padding s.ring) ≡ some r
      → IsShared
          (record s { ring = record r { writing_cursor = r.writing_begin }; writer = placed m })
  goes_round-IsShared at space done =
      let (p, rem, rsv, bound, inside, skip) =
        subst (WriterIsSound s.ring (used_from s.reader s.ring.reading_cursor)) at v.writer in
      let below = mod-lt s.ring.cursor (size_pos v) in
      let pad : padding s.ring ≡ s.ring.size - s.ring.cursor % s.ring.size = omega (
        arith,
        index_lem v s.ring.writing_begin,
        ap (λ t. t % s.ring.size) p.begins,
        below,
        v.small,
      ) in
      let e : add64 s.ring.cursor (padding s.ring)
          ≡ s.ring.cursor + (s.ring.size - s.ring.cursor % s.ring.size) =
        omega (arith, pad, bound, below) in
      let e' : add64 s.ring.writing_begin (padding s.ring)
          ≡ s.ring.cursor + (s.ring.size - s.ring.cursor % s.ring.size) =
        ap (λ t. add64 t (padding s.ring)) p.begins ∙ e in
      rw (some-injective _ _ (sym done ∙ notify_same s.ring (padding s.ring) (sym p.begins)))
        (record {
          power = v.power;
          small = v.small;
          allocated = v.allocated;
          unskipped = v.unskipped;
          quiet = v.quiet;
          bounded = omega (arith, e, bound, below);
          room = omega (arith, e, space);
          reader_at = v.reader_at;
          reader = rw e (
              subst
                (λ l.
                  ReaderIsSound s.ring.buffer s.ring.size s.ring.reading_cursor
                    (s.ring.cursor + (s.ring.size - s.ring.cursor % s.ring.size)) s.reader l
                    s.received)
                (append-nil s.all_sent)
                (ReaderIsSound-grow s.ring.buffer s.ring.size s.ring.reading_cursor s.ring.cursor
                  (s.ring.cursor + (s.ring.size - s.ring.cursor % s.ring.size)) s.reader s.all_sent
                  s.received [] (omega arith)
                  (λ ms f. rw (append-nil ms) (
                    Filled-mark s.ring.buffer s.ring.size s.ring.reading_cursor s.ring.cursor ms
                      (size_pos v) inside skip f))
                  v.reader));
          writer = (
            (
              record {
                place = record {
                  some_bytes = p.some_bytes;
                  short = p.short;
                  begins = e' ∙ sym e;
                  total_is = p.total_is;
                  bound = omega (arith, e, bound, below);
                };
                fits = omega (
                  arith,
                  ap (λ t. t % s.ring.size) e,
                  mod-round s.ring.cursor s.ring.size (size_pos v),
                  p.short,
                );
                claimed = omega (arith, e, rsv);
              },
              rem,
            ),
            e' ∙ sym e,
          );
        })

  pub publish-IsShared :
      s.writer ≡ copied m
      → finish s.ring 0 ≡ returned true r
      → IsShared (record s { ring = r; writer = idle; all_sent = s.all_sent ++ m ∷ [] })
  unfolding close published ring_of
  publish-IsShared at done =
      let (spot, space, rem, en) =
        subst (WriterIsSound s.ring (used_from s.reader s.ring.reading_cursor)) at v.writer in
      let is : close (published s.ring) ≡ r =
        ap (ring_of s.ring)
          (sym (finish_whole s.ring v.unskipped rem (sym spot.place.begins)) ∙ done) in
      let e : add64 s.ring.cursor s.ring.total ≡ s.ring.cursor + 5 + length m =
        omega (arith, spot.place.total_is, spot.place.bound, spot.place.short) in
      let e' : add64 s.ring.writing_begin s.ring.total ≡ s.ring.cursor + 5 + length m =
        ap (λ t. add64 t s.ring.total) spot.place.begins ∙ e in
      rw (sym is) (record {
        power = v.power;
        small = v.small;
        allocated = v.allocated;
        unskipped = refl;
        quiet = v.quiet;
        bounded = omega (arith, e, spot.place.bound, spot.place.short);
        room = omega (arith, e, space);
        reader_at = v.reader_at;
        reader = rw e (
            ReaderIsSound-grow s.ring.buffer s.ring.size s.ring.reading_cursor s.ring.cursor
              (s.ring.cursor + 5 + length m) s.reader s.all_sent s.received (m ∷ []) (omega arith)
              (λ ms f.
                Filled-snoc s.ring.buffer s.ring.size s.ring.reading_cursor s.ring.cursor ms m en f)
              v.reader);
        writer = (e' ∙ sym e, omega (arith, spot.claimed, e), refl);
      })
