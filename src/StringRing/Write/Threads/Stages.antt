-- ===== src/StringRing/Write/Threads/Stages.antt =====
-- `write` of a whole string, put together from the parts that are steps of the writer.
use mathlib.Core.Option
use slicksocket.Base.{
  ℕ, ◌+◌, ◌^◌, ◌<◌, ◌≡◌, refl, Bool, true, false, none, some, Option, List, [], arith, length,
  add64, sub64, if◌then◌else◌, ◌==◌, ◌||◌, leb,
}
use slicksocket.StringRing.{StringRing, index, notify, store_flag}
use slicksocket.StringRing.Write.{
  Outcome, write, new_string, reserve_string, pad, wait, overlaps, resume, put_part, put_header,
  finish, await,
}
use slicksocket.StringRing.Write.Threads.{
  claim, is_over_end, padding, mark, put_flag, put_length, copy,
}

module _ (debug : Bool) (m : List ℕ) (pos : 0 < length m) (short : length m + 5 < 2 ^ 64) where
  -- What is left of `write` when the string has its place and nothing is in its way.
  abbrev pub put_string : StringRing → Outcome
  put_string r = finish (copy (put_length (put_flag r)) m) 0

  pub resume_is :
      (r : StringRing) → r.remaining ≡ length m → resume debug r.reset_count r m 0 ≡ put_string r
  unfolding resume put_part put_header copy put_length put_flag store_flag
  resume_is r rem =
      let n : sub64 r.remaining (length m) ≡ 0 = omega (arith, rem, short) in ground (arith, n)

  -- The place of a string, as `write` finds it.
  pub place : StringRing → Option StringRing
  place c =
      if is_over_end c
      then Option.map (λ (n : StringRing). record n { writing_cursor = n.writing_begin })
          (notify (mark c) (padding c))
      else some c

  abbrev pub is_in_way : StringRing → Bool
  is_in_way r = overlaps (index r r.writing_cursor) (index r (add64 r.writing_cursor r.total)) r

  abbrev pub rest_of : ℕ → StringRing → Outcome
  rest_of count r = await (if is_in_way r then none else some r) (λ w. resume debug count w m 0)

  pub place_fits : (c : StringRing) → is_over_end c ≡ false → place c ≡ some c
  unfolding place
  place_fits c e = rw e refl

  pub place_rounds :
      (c n : StringRing)
      → is_over_end c ≡ true
      → notify (mark c) (padding c) ≡ some n
      → place c ≡ some (record n { writing_cursor = n.writing_begin })
  unfolding place
  place_rounds c n e found = rw (e, found) refl

  placing_is :
      (s : StringRing)
      → reserve_string (record s {
        writing = true;
        total = add64 (add64 (length m) 0) 5;
        remaining = add64 (length m) 0;
      })
        ≡ place (claim s (length m))
  unfolding reserve_string pad place claim mark store_flag
  placing_is s = let n : add64 (length m) 0 ≡ length m = omega (arith, short) in rw n

  pub write_is :
      (s : StringRing)
      → s.resetting ≡ false
      → s.writing_cursor ≡ 0
      → length m + 5 < s.size
      → write debug s m 0 [] ≡ await (place (claim s (length m))) (rest_of s.reset_count)
  unfolding write new_string wait
  write_is s quiet first behind =
      let n : add64 (add64 (length m) 0) 5 ≡ length m + 5 = omega (arith, short) in
      let goes_on : (s.resetting || length m == 0) ≡ false = ground (arith, quiet, pos) in
      let new_one : (s.writing_cursor == 0) ≡ true = ground (arith, first) in
      let small : leb s.size (add64 (add64 (length m) 0) 5) ≡ false =
        rw n (ground (arith, behind)) in
      rw (goes_on, new_one, small, placing_is s) refl
