-- ===== src/StringRing/ReadEntry.antt =====
-- What `read` does at a SKIP mark, and at a string that lies in the buffer.
use slicksocket.Base.{
  ℕ, ◌+◌, ◌-◌, ◌%◌, ◌^◌, ◌≤◌, ◌<◌, ◌≡◌, ap, ◌∙◌, none, some, List, arith, length, get_or, read_at,
  u32_of, u32_of-bytes, mod-between, mod-lt, pow-pos, bit_and-mask, IsPowerOfTwo, if◌then◌else◌,
  add64, add32, ◌==◌,
}
use slicksocket.StringRing.{
  StringRing, index, flag_ok, flag_skip, read_rest, read_entry, advance, stored_length,
}
use slicksocket.StringRing.View.{Entry}

module _ (s : StringRing) where
  read_entry-ok :
      get_or s.buffer (index s s.reading_cursor) 0 ≡ flag_ok
      → let at = add64 s.reading_cursor 1 in
        let len = stored_length s at in
        read_entry s ≡ ((some (index s (add64 at 4)), len), advance s (add64 at (add32 len 4)))
  unfolding read_entry read_rest
  read_entry-ok e = rw e

  read_entry-skip :
      get_or s.buffer (index s s.reading_cursor) 0 ≡ flag_skip
      → let at = add64 s.reading_cursor 1 in
        read_entry s
        ≡ ((none, 0), advance s (if index s at == 0 then at else add64 at (s.size - index s at)))
  unfolding read_entry read_rest
  read_entry-skip e = rw e

module _ (s : StringRing) (m : List ℕ) (power : IsPowerOfTwo s.size) (small : s.size ≤ 2 ^ 31)
    (bound : s.reading_cursor + 5 + length m < 2 ^ 64)
    (en : Entry s.buffer s.size s.reading_cursor m) where
  index-inside :
      (d : ℕ) → d ≤ 5 → index s (add64 s.reading_cursor d) ≡ s.reading_cursor % s.size + d
  index-inside d le =
      let e : add64 s.reading_cursor d ≡ s.reading_cursor + d = omega (arith, bound) in
      bit_and-mask s.size (add64 s.reading_cursor d) power
      ∙ ap (λ t. t % s.size) e
      ∙ omega (
        arith,
        en.fits,
        mod-between s.reading_cursor (s.reading_cursor + d) s.size (omega arith)
            (omega (arith, en.fits)),
      )

  len_lem : stored_length s (add64 s.reading_cursor 1) ≡ length m
  unfolding stored_length
  len_lem =
      ap (λ i. u32_of (read_at s.buffer i 4)) (index-inside 1 (omega arith))
      ∙ ap u32_of en.len
      ∙ u32_of-bytes (length m) (omega (arith, en.fits, small))

  pub read_entry-Entry : read_entry s ≡ (
    (some (s.reading_cursor % s.size + 5), length m),
    advance s (s.reading_cursor + 5 + length m),
  )
  read_entry-Entry =
      let target : add64 (add64 s.reading_cursor 1) (add32 (length m) 4)
          ≡ s.reading_cursor + 5 + length m =
        omega (arith, bound, small, en.fits) in
      let five : add64 (add64 s.reading_cursor 1) 4 ≡ add64 s.reading_cursor 5 = omega arith in
      let flg : get_or s.buffer (index s s.reading_cursor) 0 ≡ flag_ok =
        rw (bit_and-mask s.size s.reading_cursor power) en.flag in
      read_entry-ok s flg ∙ rw (len_lem, target, five, index-inside 5 (omega arith))

-- Behind a SKIP mark, the reader goes on from the start of the buffer.
pub read_entry-mark :
    (s : StringRing) (q : ℕ)
    → IsPowerOfTwo s.size
    → 1 < s.size
    → s.size ≤ 2 ^ 31
    → q < 2 ^ 64
    → get_or s.buffer (s.reading_cursor % s.size) 0 ≡ flag_skip
    → q ≡ s.reading_cursor + (s.size - s.reading_cursor % s.size)
    → read_entry s ≡ ((none, 0), advance s q)
read_entry-mark s q power one_byte small bound mark next =
    let below = mod-lt s.reading_cursor (pow-pos s.size power) in
    let step : add64 s.reading_cursor 1 ≡ s.reading_cursor + 1 = omega (arith, below) in
    let i' : index s (add64 s.reading_cursor 1) ≡ (s.reading_cursor + 1) % s.size =
      bit_and-mask s.size (add64 s.reading_cursor 1) power ∙ ap (λ t. t % s.size) step in
    let target : (if index s (add64 s.reading_cursor 1) == 0
          then add64 s.reading_cursor 1
          else add64 (add64 s.reading_cursor 1) (s.size - index s (add64 s.reading_cursor 1)))
        ≡ q =
      ground (
        arith,
        i',
        step,
        below,
        mod-between s.reading_cursor (s.reading_cursor + 1) s.size (omega arith) (omega arith),
      ) in
    read_entry-skip s (rw (bit_and-mask s.size s.reading_cursor power) mark) ∙ rw target
