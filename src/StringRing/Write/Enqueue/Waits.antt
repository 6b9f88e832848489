-- ===== src/StringRing/Write/Enqueue/Waits.antt =====
-- `write` over a consumer that is in its way, and goes on or resets the buffer meanwhile.
use slicksocket.Base.{
  ℕ, ◌+◌, ◌*◌, ◌%◌, ◌^◌, ◌≤◌, ◌<◌, ◌≡◌, refl, sym, ap, ◌∙◌, Bool, true, false, some, List, [], ◌∷◌,
  arith, length, add64, pow-pos, bit_and-mask,
}
use slicksocket.StringRing.{StringRing, store_flag, index, advance, reset_begin, reset_end}
use slicksocket.StringRing.View.{IsReady}
use slicksocket.StringRing.Dequeue.{index_lem}
use slicksocket.StringRing.Write.{
  returned, Peer, nothing, reads, resets, overlaps, wait, write, resume, put_header, close,
}
use slicksocket.StringRing.Write.Steps.{put_part-last, resume-same, resume-other}
use slicksocket.StringRing.Write.Waiting.{times, waits_enough, waits_reset}
use slicksocket.StringRing.Write.Enqueue.{
  next_start, IsShort, q, claimed_at, marked, counted', write-resumed, length-marked,
}
use slicksocket.StringRing.Write.Enqueue.Mark.{marked-Starts, marked-Holds}

module _ {s : StringRing} {ms : List (List ℕ)} (v : IsReady s ms) (m : List ℕ)
    (r : IsShort s (length m)) where
  abbrev claimed : StringRing
  claimed = claimed_at v m r (marked v m r)

  waits :
      (n : ℕ) (ps : List Peer)
      → 2 * length ms + 1 ≤ n
      → (p : ℕ) × (wait
            (index s (q v m r))
            (index s (add64 (q v m r) (length m + 5)))
            (times n reads ps)
            claimed
          ≡ some (advance claimed p))
  unfolding claimed_at advance
  waits n ps enough =
      let start : claimed ≡ advance claimed s.reading_cursor =
        ap (λ b. record claimed { reading_begin = b })
          (v.reader ∙ sym (index_lem v s.reading_cursor)) in
      let end = index s (add64 (q v m r) (length m + 5)) in
      let (p, e) =
        waits_enough claimed end s.cursor (q v m r) v.power (omega (arith, r.short)) v.small
          (omega (arith, counted' v m r)) refl (marked-Starts v m r) ms n s.reading_cursor ps
          (marked-Holds v m r) enough in
      (
        p,
        ap (λ b. wait b end (times n reads ps) claimed) (index_lem v (q v m r))
            ∙ ap (wait (q v m r % s.size) end (times n reads ps)) start
            ∙ e,
      )

  resumed :
      (debug : Bool) (p : ℕ)
      → (s' : StringRing) × (resume debug s.reset_count (advance claimed p) m 0 ≡ returned true s')
  unfolding claimed_at advance put_header store_flag
  resumed debug p = (
    _,
    resume-same debug (advance claimed p) m 0 refl
        ∙ put_part-last debug (put_header (advance claimed p)) m refl
            (omega (arith, counted' v m r)) v.unskipped refl,
  )

  dropped :
      (debug : Bool)
      → s.reset_count < 2 ^ 32
      → resume debug s.reset_count (reset_begin claimed) m 0
        ≡ returned false (close (reset_begin claimed))
  unfolding claimed_at reset_begin
  dropped debug bound = resume-other debug (reset_begin claimed) m 0 (omega (arith, bound))

  after_reset : IsReady (reset_end (close (reset_begin claimed))) []
  unfolding claimed_at reset_begin reset_end close
  after_reset = record {
    power = v.power;
    small = v.small;
    allocated = length-marked v m r;
    unskipped = refl;
    idle = refl;
    quiet = refl;
    unlocked = refl;
    published = refl;
    claimed = refl;
    bounded = omega arith;
    behind = omega arith;
    room = omega (arith, pow-pos s.size v.power);
    reader = bit_and-mask s.size 0 v.power;
    strings = refl;
  }

  overlaps_lem :
      next_start s (length m) % s.size < s.reading_cursor % s.size
      → s.reading_cursor % s.size < (next_start s (length m) + (length m + 5)) % s.size
      → overlaps (index s (q v m r)) (index s (add64 (q v m r) (length m + 5))) claimed ≡ true
  unfolding claimed_at q
  overlaps_lem lo hi =
      let after : add64 (next_start s (length m)) (length m + 5)
          ≡ next_start s (length m) + (length m + 5) =
        omega (arith, r.counted) in
      let begin = index_lem v (next_start s (length m)) in
      let end =
        index_lem v (add64 (next_start s (length m)) (length m + 5)) ∙ ap (λ t. t % s.size) after in
      rw (begin, end, v.quiet, v.reader) (ground arith)

-- `write` of a string that is shorter than the buffer ends and returns true, wherever the reader
-- stands, when the reader goes on: two calls of `read` for each string that waits, and one more for
-- a SKIP mark, are enough.
pub write-ends :
    {s : StringRing} {ms : List (List ℕ)} (m : List ℕ) (debug : Bool) (n : ℕ) (peers : List Peer)
    → IsReady s ms
    → IsShort s (length m)
    → 2 * length ms + 1 ≤ n
    → (s' : StringRing) × (write debug s m 0 (times n reads peers) ≡ returned true s')
write-ends {s} {ms} m debug n peers v r enough =
    let (p, waited) = waits v m r n peers enough in
    let (s', e) = resumed v m r debug p in
    (s', write-resumed v m r debug (times n reads peers) m 0 (omega arith) r.some_bytes waited ∙ e)

-- Where the reader stands inside the place of a new string, by the indices of its ends, and `reset`
-- begins while `write` waits for it, after any number of rounds: `write` returns false, and the end
-- of `reset` leaves an empty buffer.
pub write-reset :
    {s : StringRing} {ms : List (List ℕ)} (m : List ℕ) (debug : Bool) (k : ℕ) (peers : List Peer)
    → IsReady s ms
    → IsShort s (length m)
    → next_start s (length m) % s.size < s.reading_cursor % s.size
    → s.reading_cursor % s.size < (next_start s (length m) + (length m + 5)) % s.size
    → s.reset_count < 2 ^ 32
    → (s' : StringRing) × (write debug s m 0 (times k nothing (resets ∷ peers)) ≡ returned false s')
      × IsReady (reset_end s') []
write-reset m debug k peers v r lo hi bound = (
  close (reset_begin (claimed v m r)),
  write-resumed v m r debug (times k nothing (resets ∷ peers)) m 0 (omega arith) r.some_bytes
        (waits_reset _ _ k peers (claimed v m r) (overlaps_lem v m r lo hi))
      ∙ dropped v m r debug bound,
  after_reset v m r,
)
