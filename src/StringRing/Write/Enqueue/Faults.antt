-- ===== src/StringRing/Write/Enqueue/Faults.antt =====
-- Where `ring_string_buffer` loses strings: a buffer filled to the last byte, and a writer that
-- comes round to a reader at the start of the buffer.
use slicksocket.Base.{
  ℕ, ◌+◌, ◌%◌, ◌≡◌, refl, sym, ap, ◌∙◌, Bool, true, none, List, arith, length, mod-between,
  add-mod_right,
}
use slicksocket.StringRing.{StringRing, read, read_entry, advance, bytes_of}
use slicksocket.StringRing.View.{Entry, IsReady}
use slicksocket.StringRing.Dequeue.{index_lem}
use slicksocket.StringRing.ReadEntry.{read_entry-Entry}
use slicksocket.StringRing.Write.{returned, Peer, write}
use slicksocket.StringRing.Write.Block.{block-Entry}
use slicksocket.StringRing.Write.Enqueue.{
  next_start, IsShort, q, claimed_at, marked, q-fits, counted', body, stored, write-eq, Clear,
  length-marked,
}
use slicksocket.StringRing.Write.Enqueue.Append.{no_overlap}

-- A string that fills the buffer to the last byte is accepted without waiting, and then the reader
-- takes the buffer for empty, whatever it holds.
pub write-fills :
    {s : StringRing} {ms : List (List ℕ)} (m : List ℕ) (debug : Bool) (peers : List Peer)
    → IsReady s ms
    → IsShort s (length m)
    → next_start s (length m) + (length m + 5) ≡ s.reading_cursor + s.size
    → (s' : StringRing) × (write debug s m 0 peers ≡ returned true s') × (read s' ≡ ((none, 0), s'))
unfolding q stored read
write-fills {s} m debug peers v r full = (
  stored v m r,
  write-eq v m r debug peers (no_overlap v m r (omega arith)),
  ground (
    arith,
    v.reader,
    index_lem v (next_start s (length m) + (length m + 5)),
    ap (λ t. t % s.size) full,
    add-mod_right s.reading_cursor s.size,
  ),
)

module _ {s : StringRing} {ms : List (List ℕ)} (v : IsReady s ms) (m : List ℕ)
    (r : IsShort s (length m)) (start : s.reading_cursor % s.size ≡ 0)
    (round : next_start s (length m) ≡ s.reading_cursor + s.size) where
  clear : Clear v m r
  unfolding claimed_at
  clear = ground (arith, v.reader, start)

  round' : q v m r ≡ s.reading_cursor + s.size
  unfolding q
  round' = round

  at_start : q v m r % s.size ≡ 0
  at_start = ap (λ t. t % s.size) round' ∙ add-mod_right s.reading_cursor s.size ∙ start

  over-Entry : Entry (body v m r) s.size s.reading_cursor m
  unfolding body
  over-Entry =
      block-Entry (marked v m r) (q v m r % s.size) m s.size s.reading_cursor (start ∙ sym at_start)
        (omega (arith, q-fits v m r)) (length-marked v m r) r.some_bytes

  read-stored : read (stored v m r) ≡ read_entry (stored v m r)
  unfolding read stored
  read-stored = ground (
    arith,
    v.reader,
    v.quiet,
    start,
    at_start,
    r.short,
    index_lem v (q v m r + (length m + 5)),
    mod-between (q v m r) (q v m r + (length m + 5)) s.size (omega arith) (omega (arith, r.short)),
  )

  read-over : let (out, s') = read (stored v m r) in (bytes_of s' out ≡ m) × (out.1 ≡ length m)
  unfolding stored advance
  read-over =
      rw
        (read-stored
          ∙ read_entry-Entry (stored v m r) m v.power v.small
              (omega (arith, round', counted' v m r)) over-Entry)
        (over-Entry.body, refl)

-- With the reader at the start of the buffer, a string that is to lie there is written over those
-- that wait, without waiting: the next `read` gives the new string.
pub write-overwrites :
    {s : StringRing} {ms : List (List ℕ)} (m : List ℕ) (debug : Bool) (peers : List Peer)
    → IsReady s ms
    → IsShort s (length m)
    → s.reading_cursor % s.size ≡ 0
    → next_start s (length m) ≡ s.reading_cursor + s.size
    → (s' : StringRing) × (write debug s m 0 peers ≡ returned true s')
      × (let (out, s'') = read s' in (bytes_of s'' out ≡ m) × (out.1 ≡ length m))
write-overwrites m debug peers v r start round = (
  stored v m r,
  write-eq v m r debug peers (clear v m r start round),
  read-over v m r start round,
)
