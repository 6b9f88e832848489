-- ===== src/StringRing/Write.antt =====
-- `write` of `ring_string_buffer` in src/ring_buffer.h. The loop that waits for a slow consumer is
-- `wait`, over a list of what the other thread does meanwhile.
mod Steps
mod Block
pub mod Enqueue
pub mod Refused
pub mod Waiting
pub mod Threads
mod Tests
use mathlib.Core.Option
use slicksocket.Base.{
  ℕ, ◌%◌, ◌^◌, Bool, true, false, not, ◌&&◌, ◌||◌, Option, none, some, List, [], ◌∷◌, ltb, leb,
  ◌==◌, if◌then◌else◌, length, add64, sub64, sub32, write_at, u32_bytes,
}
use slicksocket.StringRing.{
  StringRing, index, flag_ok, flag_invalid, flag_skip, store_flag, notify, read, reset_begin,
}

-- How a call of `write` ends: it returns, an `assert` stops the program, or it is still in a loop
-- that waits for the other thread.
pub data Outcome : Type 0 where
  returned : Bool → StringRing → Outcome
  aborted : Outcome
  spinning : Outcome

abbrev pub await : Option StringRing → (StringRing → Outcome) → Outcome
await none k = spinning
await (some s) k = k s

-- The string does not fit behind the last one: a SKIP mark, and on from the start of the buffer.
pad : StringRing → ℕ → Option StringRing
unfolding store_flag
pad s i =
    Option.map (λ (n : StringRing). record n { writing_cursor = n.writing_begin })
      (notify (store_flag padded padded.writing_cursor flag_skip) padding)
  where
    padding : ℕ
    padding = sub64 s.size i

    padded : StringRing
    padded = record s { reserved = add64 s.reserved padding }

pub reserve_string : StringRing → Option StringRing
reserve_string s =
    if leb s.size (add64 (index s s.reserved) s.total)
    then pad claimed (index s s.reserved)
    else some claimed
  where
    claimed : StringRing
    claimed = record s {
      writing_begin = s.reserved;
      writing_cursor = s.reserved;
      reserved = add64 s.reserved s.total;
    }

-- What the other thread does while the writer yields.
pub data Peer : Type 0 where
  nothing reads resets : Peer

pub peer_step : StringRing → Peer → StringRing
peer_step s nothing = s
peer_step s reads = (read s).1
peer_step s resets = reset_begin s

abbrev pub overlaps : ℕ → ℕ → StringRing → Bool
overlaps begin end s = not s.resetting && (ltb begin s.reading_begin && ltb s.reading_begin end)

-- The loop of `write` that waits for a slow consumer; `none` when it waits at the end of the list.
pub wait : ℕ → ℕ → List Peer → StringRing → Option StringRing
wait begin end [] s = if overlaps begin end s then none else some s
wait begin end (p ∷ ps) s =
    if overlaps begin end s then wait begin end ps (peer_step s p) else some s

pub put_header : StringRing → StringRing
unfolding store_flag
put_header s = record flagged {
  buffer =
      write_at flagged.buffer (index s (add64 s.writing_cursor 1))
        (u32_bytes (sub32 (s.total % 2 ^ 32) 5));
  writing_cursor = add64 (add64 s.writing_cursor 1) 4;
}
  where
    flagged : StringRing
    flagged = store_flag s s.writing_cursor flag_ok

pub copy_in : StringRing → List ℕ → ℕ → StringRing
copy_in s msg remaining =
    if s.remaining == remaining && not s.skip
    then record s {
      buffer = write_at s.buffer (index s s.writing_cursor) msg;
      writing_cursor = add64 s.writing_cursor (length msg);
    }
    else s

-- The end of a string, and of the `scoped_flag`.
pub close : StringRing → StringRing
close s = record s { writing_cursor = 0; skip = false; writing = false }

mark_invalid : StringRing → ℕ → StringRing
unfolding store_flag
mark_invalid s remaining =
    if s.remaining == remaining then s else store_flag s s.writing_begin flag_invalid

pub finish : StringRing → ℕ → Outcome
unfolding close mark_invalid
finish s remaining =
    if remaining == 0
    then if s.skip
      then returned true (close s)
      else await (notify (mark_invalid s remaining) s.total) (λ n. returned true (close n))
    else returned true (record s { writing = false })

-- One part of a string, after its header.
pub put_part : Bool → StringRing → List ℕ → ℕ → Outcome
put_part debug s msg remaining =
    if debug && not (counted.remaining == remaining)
    then aborted
    else finish (copy_in counted msg remaining) remaining
  where
    counted : StringRing
    counted = record s { remaining = sub64 s.remaining (length msg) }

-- A string that is as long as the buffer.
pub refuse : Bool → StringRing → ℕ → Outcome
refuse debug s len =
    if debug
    then aborted
    else returned false (record s {
      writing_cursor = 1;
      remaining = sub64 s.remaining len;
      skip = true;
      writing = false;
    })

-- After the wait: a reset in between drops the string.
pub resume : Bool → ℕ → StringRing → List ℕ → ℕ → Outcome
resume debug count s msg remaining =
    if s.reset_count == count
    then put_part debug (put_header s) msg remaining
    else returned false (close s)

pub new_string : Bool → StringRing → List ℕ → ℕ → List Peer → Outcome
new_string debug s msg remaining peers =
    if leb sized.size sized.total
    then refuse debug sized (length msg)
    else await (reserve_string sized) λ r.
      await (wait (index r r.writing_cursor) (index r (add64 r.writing_cursor r.total)) peers r)
        λ w. resume debug s.reset_count w msg remaining
  where
    sized : StringRing
    sized = record s {
      total = add64 (add64 (length msg) remaining) 5;
      remaining = add64 (length msg) remaining;
    }

-- `write`, with what the other thread does while it waits.
pub write : Bool → StringRing → List ℕ → ℕ → List Peer → Outcome
write debug s msg remaining peers =
    if s.resetting || length msg == 0
    then returned false s
    else if s.writing_cursor == 0
    then new_string debug (record s { writing = true }) msg remaining peers
    else put_part debug (record s { writing = true }) msg remaining
