-- ===== src/StringRing/Write/Enqueue/Append.antt =====
-- `write` appends the string when the reader has left room for it.
use slicksocket.Base.{
  ℕ, ◌+◌, ◌%◌, ◌≤◌, ◌<◌, ◌≡◌, refl, sym, ap, subst, ◌∙◌, ◌⊎◌, inl, inr, ◌≢◌, Bool, true, List, [],
  ◌∷◌, ◌++◌, arith, length, get_or, get_or-set_self, mod-between, mod-lt, add64,
}
use slicksocket.StringRing.{StringRing, flag_skip}
use slicksocket.StringRing.View.{Entry, AgreeFrom, Starts, Holds, Holds-frame, Holds-snoc, IsReady}
use slicksocket.StringRing.Dequeue.{index_lem, size_pos}
use slicksocket.StringRing.Write.{returned, Peer, write}
use slicksocket.StringRing.Write.Block.{length-block, get_or-block, block-Entry}
use slicksocket.StringRing.Write.Enqueue.Mark.{marked-frame, start_cases}
use slicksocket.StringRing.Write.Enqueue.{
  next_start, IsShort, q, claimed_at, marked, q-fits, counted', body, stored, write-eq, Clear,
  length-marked,
}

-- The new string goes nowhere over a string that waits for the reader.
abbrev pub IsFree : StringRing → ℕ → Type 0
IsFree s n = next_start s n + (n + 5) ≤ s.reading_cursor + s.size

-- Nor does it fill the buffer to the last byte.
pub record HasRoom (s : StringRing) (n : ℕ) : Type 0 where
  pub is_short : IsShort s n
  pub is_free : IsFree s n
  pub unfilled : next_start s n + (n + 5) ≢ s.reading_cursor + s.size

module _ {s : StringRing} {ms : List (List ℕ)} (v : IsReady s ms) (m : List ℕ)
    (r : IsShort s (length m)) (free : IsFree s (length m)) where
  free' : q v m r + (length m + 5) ≤ s.reading_cursor + s.size
  unfolding q
  free' = free

  -- The new string ends before the reader, or lies behind it.
  pub no_overlap : Clear v m r
  unfolding claimed_at
  no_overlap =
      let after : add64 (q v m r) (length m + 5) ≡ q v m r + (length m + 5) =
        omega (arith, free', (counted' v m r)) in
      ground (
        arith,
        v.reader,
        index_lem v (q v m r),
        index_lem v (add64 (q v m r) (length m + 5)),
        ap (λ t. t % s.size) after,
        q-fits v m r,
        free',
        (counted' v m r),
        after,
        v.behind,
        mod-between s.reading_cursor (q v m r) s.size (omega (arith, q-fits v m r, v.behind))
            (omega (arith, free', (counted' v m r))),
        mod-between (q v m r) ((q v m r) + (length m + 5)) s.size (omega arith)
            (omega (arith, r.short)),
      )

  -- A position from the reader on and before the new string has an index outside it.
  outside :
      (x : ℕ)
      → s.reading_cursor ≤ x
      → x < (q v m r)
      → (x % s.size < (q v m r) % s.size) ⊎ ((q v m r) % s.size + 5 + length m ≤ x % s.size)
  outside x lo hi = omega (
    arith,
    free',
    (counted' v m r),
    q-fits v m r,
    mod-between x (q v m r) s.size (omega arith) (omega (arith, free', (counted' v m r))),
  )

  frame : AgreeFrom s.buffer (body v m r) s.size s.reading_cursor s.cursor
  unfolding body
  frame x lo hi =
      marked-frame v m r x lo hi
      ∙ get_or-block (marked v m r) (q v m r % s.size) m (x % s.size)
          (outside x lo (omega (arith, (q-fits v m r))))

  starts : Starts (body v m r) s.size s.cursor (q v m r)
  unfolding body
  starts = elim (start_cases v m r) [
    | inl direct ↦ inl direct
    | inr (e, next) ↦ inr (
      sym (
            get_or-block (marked v m r) (q v m r % s.size) m (s.cursor % s.size)
              (outside s.cursor v.behind (omega (arith, next, mod-lt s.cursor (size_pos v)))))
          ∙ ap (λ mem. get_or mem (s.cursor % s.size) 0) e
          ∙ get_or-set_self s.buffer (s.cursor % s.size) flag_skip 0
              (omega (arith, v.allocated, mod-lt s.cursor (size_pos v))),
      next,
    )
  ]

  entry : Entry (body v m r) s.size (q v m r) m
  unfolding body
  entry =
      block-Entry (marked v m r) (q v m r % s.size) m s.size (q v m r) refl
        (omega (arith, q-fits v m r)) (length-marked v m r) r.some_bytes

  pub stored-IsReady :
      q v m r + (length m + 5) ≢ s.reading_cursor + s.size → IsReady (stored v m r) (ms ++ m ∷ [])
  unfolding stored
  stored-IsReady unfilled = record {
    power = v.power;
    small = v.small;
    allocated =
        unfold body in (length-block (marked v m r) (q v m r % s.size) m ∙ length-marked v m r);
    unskipped = refl;
    idle = refl;
    quiet = v.quiet;
    unlocked = refl;
    published = refl;
    claimed = refl;
    bounded = omega (arith, free', (counted' v m r));
    behind = omega (arith, v.behind, (q-fits v m r));
    room = omega (arith, free', (counted' v m r));
    reader = v.reader;
    strings =
        subst (λ e. Holds (body v m r) s.size s.reading_cursor e (ms ++ m ∷ [])) (omega arith)
          (Holds-snoc (body v m r) s.size s.reading_cursor s.cursor (q v m r) ms m
            (Holds-frame s.buffer (body v m r) s.size s.reading_cursor s.cursor ms (size_pos v)
              frame v.strings)
            starts entry);
  }

-- `write` of a whole string for which there is room returns true without waiting, whatever the
-- build and the reader do, and appends the string to those that wait for the reader.
pub write-IsReady :
    {s : StringRing} {ms : List (List ℕ)} (m : List ℕ) (debug : Bool) (peers : List Peer)
    → IsReady s ms
    → HasRoom s (length m)
    → (s' : StringRing) × (write debug s m 0 peers ≡ returned true s') × IsReady s' (ms ++ m ∷ [])
unfolding q
write-IsReady m debug peers v r = (
  stored v m r.is_short,
  write-eq v m r.is_short debug peers (no_overlap v m r.is_short r.is_free),
  stored-IsReady v m r.is_short r.is_free r.unfilled,
)
