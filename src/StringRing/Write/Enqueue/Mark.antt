-- ===== src/StringRing/Write/Enqueue/Mark.antt =====
-- The buffer with the SKIP mark, if a new string needs one, still holds the old strings.
use slicksocket.Base.{
  ℕ, ◌+◌, ◌-◌, ◌%◌, ◌≡◌, ap, ◌∙◌, ◌⊎◌, inl, inr, List, arith, length, get_or, set, get_or-set_self,
  get_or-set_ne, mod-apart, mod-lt,
}
use slicksocket.StringRing.{StringRing, flag_skip}
use slicksocket.StringRing.View.{AgreeFrom, Starts, Holds, Holds-frame, IsReady}
use slicksocket.StringRing.Dequeue.{size_pos}
use slicksocket.StringRing.Write.Enqueue.{IsShort, q, marked}

module _ {s : StringRing} {ms : List (List ℕ)} (v : IsReady s ms) (m : List ℕ)
    (r : IsShort s (length m)) where
  pub marked-frame : AgreeFrom s.buffer (marked v m r) s.size s.reading_cursor s.cursor
  unfolding marked
  marked-frame x lo hi = ground (
    arith,
    get_or-set_ne s.buffer {i = s.cursor % s.size} {j = x % s.size} flag_skip 0
        (mod-apart x s.cursor s.size hi (omega (arith, v.room))),
  )

  pub start_cases :
      ((q v m r) ≡ s.cursor)
      ⊎ (((marked v m r) ≡ set s.buffer (s.cursor % s.size) flag_skip)
          × ((q v m r) ≡ s.cursor + (s.size - s.cursor % s.size)))
  unfolding q marked
  start_cases = ground arith

  pub marked-Starts : Starts (marked v m r) s.size s.cursor (q v m r)
  marked-Starts = elim start_cases [
    | inl direct ↦ inl direct
    | inr (e, next) ↦ inr (
      ap (λ mem. get_or mem (s.cursor % s.size) 0) e
          ∙ get_or-set_self s.buffer (s.cursor % s.size) flag_skip 0
              (omega (arith, v.allocated, mod-lt s.cursor (size_pos v))),
      next,
    )
  ]

  pub marked-Holds : Holds (marked v m r) s.size s.reading_cursor s.cursor ms
  marked-Holds =
      Holds-frame s.buffer (marked v m r) s.size s.reading_cursor s.cursor ms (size_pos v)
        marked-frame v.strings
