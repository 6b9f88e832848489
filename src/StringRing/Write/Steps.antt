-- ===== src/StringRing/Write/Steps.antt =====
-- The stages of `write` on the branches that a string which fits takes.
use slicksocket.Base.{
  ℕ, ◌+◌, ◌^◌, ◌<◌, ◌≡◌, ◌≢◌, Bool, true, false, none, some, List, [], ◌∷◌, arith, length, write_at,
  leb, add64, sub64,
}
use slicksocket.StringRing.{StringRing, index, notify}
use slicksocket.StringRing.Write.{
  returned, spinning, Peer, new_string, refuse, write, reserve_string, wait, overlaps, resume,
  put_header, put_part, copy_in, finish, close, mark_invalid,
}

-- The loop of `write` is left at once when there is no overlap.
pub wait-eq :
    (begin end : ℕ) (peers : List Peer) (s : StringRing)
    → overlaps begin end s ≡ false
    → wait begin end peers s ≡ some s
unfolding wait
wait-eq begin end [] s e = rw e
wait-eq begin end (p ∷ ps) s e = rw e

-- The last part of a string closes it and publishes it.
pub put_part-last :
    (debug : Bool) (h : StringRing) (m : List ℕ)
    → h.remaining ≡ length m
    → length m < 2 ^ 64
    → h.skip ≡ false
    → h.cursor ≡ h.writing_begin
    → put_part debug h m 0
      ≡ returned true (record h {
        buffer = write_at h.buffer (index h h.writing_cursor) m;
        writing_cursor = 0;
        writing_begin = add64 h.writing_begin h.total;
        remaining = 0;
        skip = false;
        cursor = add64 h.cursor h.total;
        writing = false;
      })
unfolding put_part copy_in finish close mark_invalid notify
put_part-last debug h m left bound open_ same =
    let e : sub64 h.remaining (length m) ≡ 0 = omega arith in ground (arith, e)

pub resume-same :
    (debug : Bool) (h : StringRing) (m : List ℕ) (remaining : ℕ) {count : ℕ}
    → h.reset_count ≡ count
    → resume debug count h m remaining ≡ put_part debug (put_header h) m remaining
unfolding resume
resume-same debug h m remaining e = ground (arith, e)

-- After a reset the string is dropped.
pub resume-other :
    (debug : Bool) (h : StringRing) (m : List ℕ) (remaining : ℕ) {count : ℕ}
    → h.reset_count ≢ count
    → resume debug count h m remaining ≡ returned false (close h)
unfolding resume
resume-other debug h m remaining ne = ground (arith, ne)

pub new_string-fits :
    (debug : Bool) (s : StringRing) (m : List ℕ) (remaining : ℕ) (peers : List Peer)
    {r w : StringRing}
    → leb s.size (add64 (add64 (length m) remaining) 5) ≡ false
    → reserve_string (record s {
      total = add64 (add64 (length m) remaining) 5;
      remaining = add64 (length m) remaining;
    })
      ≡ some r
    → wait (index r r.writing_cursor) (index r (add64 r.writing_cursor r.total)) peers r ≡ some w
    → new_string debug s m remaining peers ≡ resume debug s.reset_count w m remaining
unfolding new_string
new_string-fits debug s m remaining peers fits claims waits = rw (fits, claims, waits)

-- After a refused string `skip_` is set: the part is dropped, and `write` returns true.
pub put_part-skipped :
    (h : StringRing) (m : List ℕ)
    → h.skip ≡ true
    → put_part false h m 0
      ≡ returned true (record h {
        writing_cursor = 0;
        remaining = sub64 h.remaining (length m);
        skip = false;
        writing = false;
      })
unfolding put_part copy_in finish close
put_part-skipped h m skipped = ground arith

-- Out of step with `cursor_`, the last part is never published.
pub put_part-stuck :
    (debug : Bool) (h : StringRing) (m : List ℕ)
    → h.remaining ≡ length m
    → length m < 2 ^ 64
    → h.skip ≡ false
    → h.cursor ≢ h.writing_begin
    → put_part debug h m 0 ≡ spinning
unfolding put_part copy_in finish close mark_invalid notify
put_part-stuck debug h m left bound open_ apart =
    let e : sub64 h.remaining (length m) ≡ 0 = omega arith in ground (arith, e)

pub new_string-long :
    (debug : Bool) (s : StringRing) (m : List ℕ) (remaining : ℕ) (peers : List Peer)
    → leb s.size (add64 (add64 (length m) remaining) 5) ≡ true
    → new_string debug s m remaining peers
      ≡ refuse debug
          (record s {
            total = add64 (add64 (length m) remaining) 5;
            remaining = add64 (length m) remaining;
          })
          (length m)
unfolding new_string
new_string-long debug s m remaining peers long = rw long

pub write-new :
    (debug : Bool) (s : StringRing) (m : List ℕ) (remaining : ℕ) (peers : List Peer)
    → 0 < length m
    → s.resetting ≡ false
    → s.writing_cursor ≡ 0
    → write debug s m remaining peers
      ≡ new_string debug (record s { writing = true }) m remaining peers
unfolding write
write-new debug s m remaining peers pos quiet idle = ground arith

pub write-continued :
    (debug : Bool) (s : StringRing) (m : List ℕ) (remaining : ℕ) (peers : List Peer)
    → 0 < length m
    → s.resetting ≡ false
    → s.writing_cursor ≢ 0
    → write debug s m remaining peers ≡ put_part debug (record s { writing = true }) m remaining
unfolding write
write-continued debug s m remaining peers pos quiet busy = ground arith

pub new_string-stuck :
    (debug : Bool) (s : StringRing) (m : List ℕ) (remaining : ℕ) (peers : List Peer)
    → leb s.size (add64 (add64 (length m) remaining) 5) ≡ false
    → reserve_string (record s {
      total = add64 (add64 (length m) remaining) 5;
      remaining = add64 (length m) remaining;
    })
      ≡ none
    → new_string debug s m remaining peers ≡ spinning
unfolding new_string
new_string-stuck debug s m remaining peers fits stuck = rw (fits, stuck)

-- A part that is not the last leaves the string open.
pub put_part-open :
    (debug : Bool) (h : StringRing) (m : List ℕ) (rest : ℕ)
    → h.remaining ≡ length m + rest
    → length m + rest < 2 ^ 64
    → rest ≢ 0
    → h.skip ≡ false
    → put_part debug h m rest
      ≡ returned true (record h {
        buffer = write_at h.buffer (index h h.writing_cursor) m;
        writing_cursor = add64 h.writing_cursor (length m);
        remaining = rest;
        writing = false;
      })
unfolding put_part copy_in finish
put_part-open debug h m rest left bound more open_ =
    let e : sub64 h.remaining (length m) ≡ rest = omega arith in ground (arith, e)
