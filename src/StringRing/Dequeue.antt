-- ===== src/StringRing/Dequeue.antt =====
-- `read` of `ring_string_buffer` takes the oldest string.
use slicksocket.Base.{
  ℕ, ◌+◌, ◌-◌, ◌%◌, ◌≤◌, ◌<◌, ◌≡◌, refl, ap, subst, ◌∙◌, ◌⊎◌, inl, inr, none, some, List, [], ◌∷◌,
  arith, length, get_or, mod-lt, bit_and-mask, pow-pos, mod-apart,
}
use slicksocket.StringRing.{
  StringRing, Slice, index, flag_skip, read, read_entry, advance, bytes_of,
}
use slicksocket.StringRing.ReadEntry.{read_entry-mark, read_entry-Entry}
use slicksocket.StringRing.View.{Entry, Starts, Holds, Holds-le, IsReady}

module _ {s : StringRing} {ms : List (List ℕ)} (v : IsReady s ms) where
  pub index_lem : (p : ℕ) → index s p ≡ p % s.size
  index_lem p = bit_and-mask s.size p v.power

  pub size_pos : 0 < s.size
  size_pos = pow-pos s.size v.power

  -- The test of `read` tells an empty buffer from any other.
  read-eq_of_empty : s.reading_cursor ≡ s.cursor → read s ≡ ((none, 0), s)
  unfolding read
  read-eq_of_empty e = ground (arith, v.reader, v.quiet, index_lem s.cursor, ap (λ t. t % s.size) e)

  read-eq_of_nonempty : s.reading_cursor < s.cursor → read s ≡ read_entry s
  unfolding read
  read-eq_of_nonempty h = ground (
    arith,
    v.reader,
    v.quiet,
    index_lem s.cursor,
    mod-apart s.reading_cursor s.cursor s.size h v.room,
  )

  advance-IsReady :
      (p : ℕ) (ns : List (List ℕ))
      → s.reading_cursor ≤ p
      → Holds s.buffer s.size p s.cursor ns
      → IsReady (advance s p) ns
  unfolding advance
  advance-IsReady p ns h strings = record {
    power = v.power;
    small = v.small;
    allocated = v.allocated;
    unskipped = v.unskipped;
    idle = v.idle;
    quiet = v.quiet;
    unlocked = v.unlocked;
    published = v.published;
    claimed = v.claimed;
    bounded = v.bounded;
    behind = Holds-le s.buffer s.size p s.cursor ns strings;
    room = omega (arith, v.room);
    reader = index_lem p;
    strings = strings;
  }

-- What a call of `read` has given: the string m, with ms left for later calls.
pub record Delivers (m : List ℕ) (ms : List (List ℕ)) (out : Slice × StringRing) : Type 0 where
  pub bytes : bytes_of out.1 out.0 ≡ m
  pub count : out.0.1 ≡ length m
  pub rest : IsReady out.1 ms

module _ {s : StringRing} {m : List ℕ} {ms : List (List ℕ)} (v : IsReady s (m ∷ ms)) where
  module _ (en : Entry s.buffer s.size s.reading_cursor m)
      (h : Holds s.buffer s.size (s.reading_cursor + 5 + length m) s.cursor ms) where
    within : s.reading_cursor + 5 + length m ≤ s.cursor
    within = Holds-le s.buffer s.size (s.reading_cursor + 5 + length m) s.cursor ms h

    read-eq : read s ≡ (
      (some (s.reading_cursor % s.size + 5), length m),
      advance s (s.reading_cursor + 5 + length m),
    )
    read-eq =
        read-eq_of_nonempty v (omega (arith, within))
        ∙ read_entry-Entry s m v.power v.small (omega (arith, within, v.bounded)) en

    entry-Delivers : Delivers m ms (read s)
    unfolding advance
    entry-Delivers = rw read-eq (record {
      bytes = en.body;
      count = refl;
      rest = advance-IsReady v (s.reading_cursor + 5 + length m) ms (omega arith) h;
    })

module _ {s : StringRing} {m : List ℕ} {ms : List (List ℕ)} (v : IsReady s (m ∷ ms)) (q : ℕ)
    (mark : get_or s.buffer (s.reading_cursor % s.size) 0 ≡ flag_skip)
    (next : q ≡ s.reading_cursor + (s.size - s.reading_cursor % s.size))
    (en : Entry s.buffer s.size q m)
    (h : Holds s.buffer s.size (q + 5 + length m) s.cursor ms) where
  at_most : q + 5 + length m ≤ s.cursor
  at_most = Holds-le s.buffer s.size (q + 5 + length m) s.cursor ms h

  ahead : s.reading_cursor < q
  ahead = omega (arith, mod-lt s.reading_cursor (size_pos v))

  one_byte : 1 < s.size
  one_byte = omega (arith, en.fits)

  read-eq_of_padded : read s ≡ ((none, 0), advance s q)
  read-eq_of_padded =
      read-eq_of_nonempty v (omega (arith, at_most, ahead))
      ∙ read_entry-mark s q v.power one_byte v.small (omega (arith, at_most, v.bounded)) mark next

  padded-IsReady : IsReady (advance s q) (m ∷ ms)
  padded-IsReady = advance-IsReady v q (m ∷ ms) (omega (arith, ahead)) (q, inl refl, en, h)

  padded-Delivers : Delivers m ms (read (read s).1)
  unfolding advance
  padded-Delivers = rw read-eq_of_padded (entry-Delivers padded-IsReady en h)

Delivers-start :
    {s : StringRing} {m : List ℕ} {ms : List (List ℕ)} (v : IsReady s (m ∷ ms)) (q : ℕ)
    → Starts s.buffer s.size s.reading_cursor q
    → Entry s.buffer s.size q m
    → Holds s.buffer s.size (q + 5 + length m) s.cursor ms
    → Delivers m ms (read s) ⊎ (((read s).0 ≡ (none, 0)) × Delivers m ms (read (read s).1))
Delivers-start {s} {m} {ms} v q (inl e) en h = inl (
    entry-Delivers v (subst (λ t. Entry s.buffer s.size t m) e en)
      (subst (λ t. Holds s.buffer s.size (t + 5 + length m) s.cursor ms) e h))
Delivers-start v q (inr (mark, next)) en h =
    inr (rw (read-eq_of_padded v q mark next en h), padded-Delivers v q mark next en h)

-- Of a buffer with strings in it, `read` delivers the oldest, at the first call or, behind a SKIP
-- mark, at the second, when the first has given `(nullptr, 0)`; then the other strings are left.
pub read-Delivers :
    {s : StringRing} {m : List ℕ} {ms : List (List ℕ)}
    → IsReady s (m ∷ ms)
    → Delivers m ms (read s) ⊎ (((read s).0 ≡ (none, 0)) × Delivers m ms (read (read s).1))
read-Delivers v = let (q, st, en, h) = v.strings in Delivers-start v q st en h

-- Of an empty buffer `read` gives `(nullptr, 0)` and changes nothing.
pub read-empty : {s : StringRing} → IsReady s [] → read s ≡ ((none, 0), s)
read-empty v = read-eq_of_empty v v.strings

mark-IsReady :
    {s : StringRing} {m : List ℕ} {ms : List (List ℕ)} (v : IsReady s (m ∷ ms)) (q : ℕ)
    → Starts s.buffer s.size s.reading_cursor q
    → Entry s.buffer s.size q m
    → Holds s.buffer s.size (q + 5 + length m) s.cursor ms
    → (read s).0.1 ≡ 0
    → IsReady (read s).1 (m ∷ ms)
mark-IsReady {s} {m} {ms} v q (inl e) en h none_left =
    let d =
      entry-Delivers v (subst (λ t. Entry s.buffer s.size t m) e en)
        (subst (λ t. Holds s.buffer s.size (t + 5 + length m) s.cursor ms) e h) in
    absurd (omega (arith, d.count, en.nonempty))
mark-IsReady v q (inr (mark, next)) en h none_left =
    rw (read-eq_of_padded v q mark next en h) (padded-IsReady v q mark next en h)

-- A call of `read` that gives nothing of a buffer with strings in it leaves them all.
pub read-IsReady :
    {s : StringRing} {m : List ℕ} {ms : List (List ℕ)}
    → IsReady s (m ∷ ms)
    → (read s).0.1 ≡ 0
    → IsReady (read s).1 (m ∷ ms)
read-IsReady v none_left = let (q, st, en, h) = v.strings in mark-IsReady v q st en h none_left

pub first-nonempty :
    {s : StringRing} {m : List ℕ} {ms : List (List ℕ)} → IsReady s (m ∷ ms) → 0 < length m
first-nonempty v = let (q, st, en, h) = v.strings in en.nonempty
