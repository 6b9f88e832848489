-- ===== src/StringRing/Write/Refused/Reset.antt =====
-- A refused string, a `reset`, and the two strings after it: the writer never comes back.
use slicksocket.Base.{
  ℕ, ◌+◌, ◌^◌, ◌<◌, ◌≡◌, refl, ◌∙◌, ◌≢◌, ◌⊎◌, inl, inr, true, false, none, some, List, arith,
  length, leb, add64, sub64, mod-eq_of_lt,
}
use slicksocket.StringRing.{StringRing, index, reset, notify, store_flag}
use slicksocket.StringRing.View.{IsReady}
use slicksocket.StringRing.Dequeue.{index_lem, size_pos}
use slicksocket.StringRing.Write.{
  returned, spinning, Peer, write, reserve_string, pad, overlaps, put_header, put_part,
}
use slicksocket.StringRing.Write.Steps.{
  write-new, wait-eq, put_part-skipped, put_part-stuck, resume-same, new_string-fits,
  new_string-stuck,
}
use slicksocket.StringRing.Write.Refused.{
  IsLong, refused, restarted, write-refuse, refuse-release, reset-refused,
}

-- The claim and the publication of a string are out of step.
record IsAstray (s : StringRing) (n : ℕ) : Type 0 where
  some_bytes : 0 < n
  short : n + 5 < s.size
  small : s.size < 2 ^ 64
  idle : s.writing_cursor ≡ 0
  quiet : s.resetting ≡ false
  unskipped : s.skip ≡ false
  reader : s.reading_begin ≡ 0
  apart : s.cursor ≢ s.reserved

module _ {s : StringRing} (k : List ℕ) (a : IsAstray s (length k)) where
  asking : StringRing
  asking = record s { writing = true; total = length k + 5; remaining = length k }

  asked : StringRing
  asked = record s {
    writing = true;
    total = length k + 5;
    remaining = length k;
    writing_begin = s.reserved;
    writing_cursor = s.reserved;
    reserved = add64 s.reserved (length k + 5);
  }

  -- Either the string goes round, and `_notify` waits already for its padding, or it has a place.
  reserve-cases : (reserve_string asking ≡ none) ⊎ (reserve_string asking ≡ some asked)
  unfolding reserve_string pad notify store_flag asking asked
  reserve-cases = ground (arith, a.apart)

  no_wait : (b e : ℕ) → overlaps b e asked ≡ false
  unfolding asked
  no_wait b e = ground (arith, a.reader)

  put_part-asked : put_part false (put_header asked) k 0 ≡ spinning
  unfolding put_header store_flag asked
  put_part-asked =
      put_part-stuck false (put_header asked) k refl (omega (arith, a.short, a.small)) a.unskipped
        a.apart

  write-astray : (peers : List Peer) → write false s k 0 peers ≡ spinning
  unfolding asking asked
  write-astray peers =
      let remaining : add64 (length k) 0 ≡ length k = omega (arith, a.short, a.small) in
      let total : add64 (add64 (length k) 0) 5 ≡ length k + 5 = omega (arith, a.short, a.small) in
      let fits : leb s.size (add64 (add64 (length k) 0) 5) ≡ false =
        ground (arith, total, a.short) in
      let here = record s { writing = true } in
      write-new false s k 0 peers a.some_bytes a.quiet a.idle ∙ elim reserve-cases [
        | inl stuck ↦ new_string-stuck false here k 0 peers fits (rw (total, remaining) stuck)
        | inr found ↦
            new_string-fits false here k 0 peers {r = asked} {w = asked} fits
              (rw (total, remaining) found) (wait-eq _ _ peers asked (no_wait _ _))
            ∙ resume-same false asked k 0 refl
            ∙ put_part-asked
      ]

module _ {s : StringRing} {ms : List (List ℕ)} (v : IsReady s ms) (m n : List ℕ)
    (l : IsLong s (length m)) (pos : 0 < length n) (short : length n + 5 < s.size) where
  begun : StringRing
  begun = record (restarted v m l) {
    writing = true;
    total = length n + 5;
    remaining = length n;
    reserved = length n + 5;
  }

  dropped : StringRing
  dropped = record (put_header begun) {
    writing_cursor = 0;
    remaining = sub64 (put_header begun).remaining (length n);
    skip = false;
    writing = false;
  }

  reserve-begun :
      reserve_string
        (record (restarted v m l) { writing = true; total = length n + 5; remaining = length n })
      ≡ some begun
  unfolding reserve_string begun restarted
  reserve-begun = ground (arith, index_lem v 0, mod-eq_of_lt (size_pos v), short, v.small)

  no_wait_begun : (b e : ℕ) → overlaps b e begun ≡ false
  unfolding begun restarted
  no_wait_begun b e = ground arith

  put_part-begun : put_part false (put_header begun) n 0 ≡ returned true dropped
  unfolding put_header store_flag begun restarted dropped
  put_part-begun = put_part-skipped (put_header begun) n refl

  write-start :
      (peers : List Peer) → write false (restarted v m l) n 0 peers ≡ returned true dropped
  unfolding begun restarted
  write-start peers =
      let remaining : add64 (length n) 0 ≡ length n = omega (arith, short, v.small) in
      let total : add64 (add64 (length n) 0) 5 ≡ length n + 5 = omega (arith, short, v.small) in
      let here = record (restarted v m l) { writing = true } in
      let at = index begun begun.writing_cursor in
      let end = index begun (add64 begun.writing_cursor begun.total) in
      write-new false (restarted v m l) n 0 peers pos refl refl
      ∙ new_string-fits false here n 0 peers {r = begun} {w = begun} (ground (arith, total, short))
          (rw (total, remaining) reserve-begun) (wait-eq at end peers begun (no_wait_begun at end))
      ∙ resume-same false begun n 0 refl
      ∙ put_part-begun

  dropped-IsAstray :
      (k : List ℕ) → 0 < length k → length k + 5 < s.size → IsAstray dropped (length k)
  unfolding dropped put_header store_flag begun restarted
  dropped-IsAstray k some_ fits = record {
    some_bytes = some_;
    short = fits;
    small = omega (arith, v.small);
    idle = refl;
    quiet = refl;
    unskipped = refl;
    reader = refl;
    apart = omega arith;
  }

-- In a release build: a string that does not fit is refused with false, then `reset` runs, as it
-- does at every new connection. The next string that fits is dropped while `write` returns true,
-- and the call for the one after that never returns.
pub write-long_then_reset_hangs :
    {s : StringRing} {ms : List (List ℕ)} (m n k : List ℕ) (peers : List Peer)
    → IsReady s ms
    → IsLong s (length m)
    → 0 < length n
    → length n + 5 < s.size
    → 0 < length k
    → length k + 5 < s.size
    → (s₁ : StringRing) × (s₂ : StringRing) × (s₃ : StringRing) × (write false s m 0 peers
        ≡ returned false s₁)
      × (reset s₁ ≡ some s₂)
      × (write false s₂ n 0 peers ≡ returned true s₃)
      × (write false s₃ k 0 peers ≡ spinning)
write-long_then_reset_hangs {s} m n k peers v l posn shortn posk shortk = (
  refused s (length m),
  restarted v m l,
  dropped v m n l posn shortn,
  write-refuse v m l false peers ∙ refuse-release v m l,
  reset-refused v m l,
  write-start v m n l posn shortn peers,
  write-astray k (dropped-IsAstray v m n l posn shortn k posk shortk) peers,
)
