-- ===== src/StringRing/Write/Threads/Alone.antt =====
-- The steps of one thread, with none of the other in between, are a call of `read` or of `write`.
use slicksocket.Base.{
  ℕ, ◌+◌, ◌^◌, ◌<◌, ◌≡◌, refl, sym, subst, ap, ◌∙◌, Bool, true, false, none, some, Option, List, [],
  ◌∷◌, ◌++◌, arith, length, write_at, add64, if◌then◌else◌,
}
use slicksocket.StringRing.{
  StringRing, Slice, index, has_more, read, read_entry, read_rest, next_flag, notify, store_flag,
}
use slicksocket.StringRing.Write.{
  Outcome, returned, spinning, write, resume, await, finish, close, overlaps,
}
use slicksocket.StringRing.View.{IsReady}
use slicksocket.StringRing.Write.Threads.Stages.{
  put_string, resume_is, place, rest_of, is_in_way, place_fits, place_rounds, write_is,
}
use slicksocket.StringRing.Write.Threads.Order.{begun}
use slicksocket.StringRing.Write.Threads.Storing.{copy_whole}
use slicksocket.StringRing.Write.Threads.Publishing.{notify_same, published, finish_whole}
use slicksocket.StringRing.Write.Threads.{
  idle, placed, Reader, resting, at_flag, using, TwoThreads, claims, fits, marks, goes_round,
  passes, flags, measures, copies, publishes, looks, loads, skips, gets, Reach, start, later, claim,
  is_over_end, padding, mark, put_flag, put_length,
}

-- Where a call of `read` leaves the reader.
abbrev pub after_read : StringRing → Slice → Reader
after_read r (none, n) = resting
after_read r (some at, n) = using r.reading_cursor (some at, n)

read_rest-Reach :
    {o : TwoThreads} (s : TwoThreads) (f : ℕ) (found : Option ℕ)
    → Reach o s
    → s.reader ≡ at_flag f
    → (read_rest f s.ring).0.0 ≡ found
    → Reach o (record s {
      ring = (read_rest f s.ring).1;
      reader = after_read s.ring (found, (read_rest f s.ring).0.1);
    })
read_rest-Reach s f none run at e = later run (skips f at e)
read_rest-Reach s f (some place) run at e = rw (sym e) (later run (gets f place at e))

-- A call of `read` with no step of the writer in between.
pub read-Reach :
    (s : TwoThreads)
    → s.reader ≡ resting
    → Reach s (record s { ring = (read s.ring).1; reader = after_read s.ring (read s.ring).0 })
unfolding read read_entry
read-Reach s at = go (has_more s.ring s.ring.cursor) refl
  where
    go :
        (more : Bool)
        → has_more s.ring s.ring.cursor ≡ more
        → Reach s (record s { ring = (read s.ring).1; reader = after_read s.ring (read s.ring).0 })
    go true e = rw e (
        read_rest-Reach (record s { reader = at_flag (next_flag s.ring) }) (next_flag s.ring)
          (read_rest (next_flag s.ring) s.ring).0.0 (later (later start (looks at e)) (loads refl))
          refl refl)
    go false e = rw e (subst (λ ph. Reach s (record s { reader = ph })) at start)

-- Where a call of `write` of m leads when the other thread takes no step: it returns true, and the
-- string was published; or it waits for a slow consumer.
pub data Leads (s : TwoThreads) (m : List ℕ) : Outcome → Type 0 where
  publishes_it :
      (r : StringRing)
      → Reach s (record s { ring = r; writer = idle; all_sent = s.all_sent ++ m ∷ [] })
      → Leads s m (returned true r)
  stays_in_wait :
      (r : StringRing)
      → Reach s (record s { ring = r; writer = placed m })
      → overlaps (index r r.writing_cursor) (index r (add64 r.writing_cursor r.total)) r ≡ true
      → Leads s m spinning

module _ (debug : Bool) (m : List ℕ) (pos : 0 < length m) (short : length m + 5 < 2 ^ 64) where
  string_returns :
      (r : StringRing)
      → r.remaining ≡ length m
      → r.skip ≡ false
      → r.cursor ≡ r.writing_begin
      → (r' : StringRing) × (put_string debug m pos short r ≡ returned true r')
  unfolding put_flag put_length store_flag
  string_returns r rem unskipped same =
      let h : StringRing = put_length (put_flag r) in
      let c : StringRing = record h {
        buffer = write_at h.buffer (index h h.writing_cursor) m;
        writing_cursor = add64 h.writing_cursor (length m);
        remaining = 0;
      } in
      (
        close (published c),
        ap (λ x. finish x 0) (copy_whole h m rem (omega (arith, short)) unskipped)
            ∙ finish_whole c unskipped refl same,
      )

  -- From the place on, the stages of `write` are steps.
  placed_Leads :
      (s : TwoThreads) (r : StringRing)
      → Reach s (record s { ring = r; writer = placed m })
      → r.remaining ≡ length m
      → r.skip ≡ false
      → r.cursor ≡ r.writing_begin
      → Leads s m (rest_of debug m pos short r.reset_count r)
  placed_Leads s r run rem unskipped same = go (is_in_way debug m pos short r) refl
    where
      go :
          (over : Bool)
          → is_in_way debug m pos short r ≡ over
          → Leads s m
              (await (if over then none else some r) (λ w. resume debug r.reset_count w m 0))
      go true e = stays_in_wait r run e
      go false e =
          let (r', done) = string_returns r rem unskipped same in
          rw (resume_is debug m pos short r rem ∙ done) (
            publishes_it r' (
              later
                (later
                  (later (later (later run (passes m refl e)) (flags m refl)) (measures m refl))
                  (copies m refl))
                (publishes m r' refl done)))

  module _ (s : TwoThreads) (at : s.writer ≡ idle) (fitting : length m + 5 < s.ring.size)
      (unskipped : s.ring.skip ≡ false) (same : s.ring.cursor ≡ s.ring.reserved) where
    begun_Leads :
        (over : Bool)
        → is_over_end (claim s.ring (length m)) ≡ over
        → Leads s m (
            await
              (place debug m pos short (claim s.ring (length m)))
              (rest_of debug m pos short s.ring.reset_count))
    unfolding claim mark store_flag
    begun_Leads false e = rw (place_fits debug m pos short (claim s.ring (length m)) e) (
        placed_Leads s (claim s.ring (length m))
          (later (later start (claims m at pos fitting)) (fits m refl e)) refl unskipped same)
    begun_Leads true e =
        let c : StringRing = claim s.ring (length m) in
        let n : StringRing = record (mark c) {
          cursor = add64 (mark c).cursor (padding c);
          writing_begin = add64 (mark c).writing_begin (padding c);
        } in
        let found : notify (mark c) (padding c) ≡ some n = notify_same (mark c) (padding c) same in
        rw (place_rounds debug m pos short c n e found) (
          placed_Leads s (record n { writing_cursor = n.writing_begin })
            (later (later (later start (claims m at pos fitting)) (marks m refl e))
              (goes_round m n refl found))
            refl unskipped (ap (λ x. add64 x (padding c)) same))

-- A call of `write` on a ready buffer, of a string that is not empty and, with its header, shorter than
-- the buffer, in any build and with no step of the reader in between: it returns true or waits for a
-- slow consumer, and the writer's steps lead to where it ends or waits.
pub write-Leads :
    {s : StringRing} {ms : List (List ℕ)} (m : List ℕ) (debug : Bool)
    → IsReady s ms
    → 0 < length m
    → length m + 5 < s.size
    → Leads (begun s ms) m (write debug s m 0 [])
write-Leads {s} {ms} m debug v pos fitting =
    let short : length m + 5 < 2 ^ 64 = omega (arith, fitting, v.small) in
    rw (write_is debug m pos short s v.quiet v.idle fitting) (
      begun_Leads debug m pos short (begun s ms) refl fitting v.unskipped (sym v.claimed)
        (is_over_end (claim s (length m))) refl)
