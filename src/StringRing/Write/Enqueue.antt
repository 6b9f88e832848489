-- ===== src/StringRing/Write/Enqueue.antt =====
-- `write` of a whole string in src/ring_buffer.h, stage by stage, for a string that is shorter than
-- the buffer and a reader that does not stand in its place.
mod Mark
pub mod Append
pub mod Waits
pub mod Parts
pub mod Faults
use slicksocket.Base.{
  ℕ, ◌+◌, ◌-◌, ◌%◌, ◌^◌, ◌≤◌, ◌<◌, ◌≡◌, refl, sym, ap, subst, ◌∙◌, ◌⊎◌, inl, inr, Bool, true, false,
  some, List, [], ◌∷◌, ◌++◌, arith, length, length-set, length-set, get_or, set, get_or-set_self,
  get_or-set_ne, ltb, if◌then◌else◌, mod-between, mod-apart, mod-round, mod-lt, add64, sub32,
}
use slicksocket.StringRing.{StringRing, index, flag_skip, store_flag, notify}
use slicksocket.StringRing.View.{Entry, AgreeFrom, Starts, Holds, Holds-frame, Holds-snoc, IsReady}
use slicksocket.StringRing.Dequeue.{index_lem, size_pos}
use slicksocket.StringRing.Write.{
  returned, Peer, write, new_string, reserve_string, pad, overlaps, wait, resume, put_header,
  put_part,
}
use slicksocket.StringRing.Write.Steps.{
  wait-eq, put_part-last, resume-same, new_string-fits, write-new,
}
use slicksocket.StringRing.Write.Block.{block, with_header, length-block, get_or-block, block-Entry}

-- Where `write` puts the next string of n bytes: behind the last one, or at the start of the buffer.
abbrev pub next_start : StringRing → ℕ → ℕ
next_start s n =
    if ltb (s.cursor % s.size + (n + 5)) s.size
    then s.cursor
    else s.cursor + (s.size - s.cursor % s.size)

-- The string is shorter than the buffer, and the positions do not pass 2 ^ 64.
pub record IsShort (s : StringRing) (n : ℕ) : Type 0 where
  pub some_bytes : 0 < n
  pub short : n + 5 < s.size
  pub counted : next_start s n + (n + 5) < 2 ^ 64

module _ {s : StringRing} {ms : List (List ℕ)} (v : IsReady s ms) (m : List ℕ)
    (r : IsShort s (length m)) where
  pub q : ℕ
  q = next_start s (length m)

  sized : StringRing
  sized = record s { writing = true; total = length m + 5; remaining = length m }

  pub claimed_at : List ℕ → StringRing
  claimed_at mem = record s {
    writing = true;
    total = length m + 5;
    remaining = length m;
    buffer = mem;
    writing_begin = q;
    writing_cursor = q;
    reserved = q + (length m + 5);
    cursor = q;
  }

  pub marked : List ℕ
  marked =
      if ltb (s.cursor % s.size + (length m + 5)) s.size
      then s.buffer
      else set s.buffer (s.cursor % s.size) flag_skip

  pub q-fits : (q % s.size + (length m + 5) < s.size) × (s.cursor ≤ q)
  unfolding q
  q-fits =
      ground (arith, r.short, mod-round s.cursor s.size (size_pos v), mod-lt s.cursor (size_pos v))

  pub counted' : q + (length m + 5) < 2 ^ 64
  unfolding q
  counted' = r.counted

  reserve-eq : reserve_string sized ≡ some (claimed_at marked)
  unfolding reserve_string pad notify store_flag q sized claimed_at marked
  reserve-eq = ground (
    arith,
    index_lem v s.reserved,
    ap (λ t. t % s.size) v.claimed,
    v.claimed,
    v.bounded,
    v.small,
    r.counted,
    r.short,
    mod-lt s.cursor (size_pos v),
  )

  -- The reader is not inside the place of the new string: `write` does not wait.
  abbrev pub Clear : Type 0
  Clear = overlaps (index s q) (index s (add64 q (length m + 5))) (claimed_at marked) ≡ false

  pub length-marked : length marked ≡ s.size
  unfolding marked
  length-marked = ground (arith, v.allocated, length-set s.buffer (s.cursor % s.size) flag_skip)

  pub body : List ℕ
  body = block marked (q % s.size) m

  pub stored : StringRing
  stored = record s {
    buffer = body;
    writing_cursor = 0;
    writing_begin = q + (length m + 5);
    total = length m + 5;
    remaining = 0;
    skip = false;
    cursor = q + (length m + 5);
    reserved = q + (length m + 5);
    writing = false;
  }

  index-inside : (d : ℕ) → d ≤ 5 → index s (add64 q d) ≡ q % s.size + d
  index-inside d le =
      let e : add64 q d ≡ q + d = omega (arith, counted') in
      index_lem v (add64 q d)
      ∙ ap (λ t. t % s.size) e
      ∙ omega (arith, q-fits, mod-between q (q + d) s.size (omega arith) (omega (arith, q-fits)))

  pub headed : StringRing
  headed = record s {
    writing = true;
    total = length m + 5;
    remaining = length m;
    buffer = with_header marked (q % s.size) m;
    writing_begin = q;
    writing_cursor = q + 5;
    reserved = q + (length m + 5);
    cursor = q;
  }

  put_header-eq : put_header (claimed_at marked) ≡ headed
  unfolding put_header store_flag claimed_at headed
  put_header-eq =
      let i1 : index s (add64 q 1) ≡ q % s.size + 1 = index-inside 1 (omega arith) in
      let five : add64 (add64 q 1) 4 ≡ q + 5 = omega (arith, counted') in
      let count : sub32 ((length m + 5) % 2 ^ 32) 5 ≡ length m = omega (arith, r.short, v.small) in
      rw (index_lem v q, i1, five, count)

  put_part-eq : (debug : Bool) → put_part debug headed m 0 ≡ returned true stored
  unfolding headed stored body
  put_part-eq debug =
      let five : index s (q + 5) ≡ q % s.size + 5 = omega (
        arith,
        index_lem v (q + 5),
        q-fits,
        mod-between q (q + 5) s.size (omega arith) (omega (arith, q-fits)),
      ) in
      let end : add64 q (length m + 5) ≡ q + (length m + 5) = omega (arith, counted') in
      put_part-last debug headed m refl (omega (arith, r.short, v.small)) v.unskipped refl
      ∙ rw (five, end)

  resume-headed :
      (debug : Bool) (part : List ℕ) (rest : ℕ)
      → resume debug s.reset_count (claimed_at marked) part rest ≡ put_part debug headed part rest
  resume-headed debug part rest =
      resume-same debug (claimed_at marked) part rest same
      ∙ ap (λ h. put_part debug h part rest) put_header-eq
    where
      same : (claimed_at marked).reset_count ≡ s.reset_count
      same = unfold claimed_at in refl

  -- What `write` of the first part comes to when its wait has ended.
  pub write-resumed :
      (debug : Bool) (peers : List Peer) (part : List ℕ) (rest : ℕ) {w : StringRing}
      → length part + rest ≡ length m
      → 0 < length part
      → wait (index s q) (index s (add64 q (length m + 5))) peers (claimed_at marked) ≡ some w
      → write debug s part rest peers ≡ resume debug s.reset_count w part rest
  unfolding sized claimed_at
  write-resumed debug peers part rest sum pos waits =
      let remaining : add64 (length part) rest ≡ length m = omega (arith, r.short, v.small) in
      let total : add64 (add64 (length part) rest) 5 ≡ length m + 5 =
        omega (arith, r.short, v.small) in
      write-new debug s part rest peers pos v.quiet v.idle
      ∙ new_string-fits debug (record s { writing = true }) part rest peers {r = claimed_at marked}
          (ground (arith, total, r.short)) (rw (total, remaining) reserve-eq) waits

  -- The first part of the string, with the rest to come, is put behind the header.
  pub write-headed :
      (debug : Bool) (peers : List Peer) (part : List ℕ) (rest : ℕ)
      → length part + rest ≡ length m
      → 0 < length part
      → Clear
      → write debug s part rest peers ≡ put_part debug headed part rest
  write-headed debug peers part rest sum pos clear =
      write-resumed debug peers part rest sum pos (wait-eq _ _ peers (claimed_at marked) clear)
      ∙ resume-headed debug part rest

  pub write-eq :
      (debug : Bool) (peers : List Peer) → Clear → write debug s m 0 peers ≡ returned true stored
  write-eq debug peers clear =
      write-headed debug peers m 0 (omega arith) r.some_bytes clear ∙ put_part-eq debug
