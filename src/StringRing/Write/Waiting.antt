-- ===== src/StringRing/Write/Waiting.antt =====
-- `write` while it waits for a slow consumer: when the consumer reads on, and when it resets.
use slicksocket.Base.{
  ℕ, zero, suc, ◌+◌, ◌-◌, ◌*◌, ◌%◌, ◌^◌, ◌≤◌, ◌<◌, ◌≡◌, refl, sym, ap, subst, ◌∙◌, inl, inr, true,
  false, some, List, [], ◌∷◌, arith, length, get_or, Bool-cases, bit_and-mask, IsPowerOfTwo,
}
use slicksocket.StringRing.{StringRing, index, read, read_entry, advance, reset_begin, flag_skip}
use slicksocket.StringRing.ReadEntry.{read_entry-mark, read_entry-Entry}
use slicksocket.StringRing.View.{Entry, Starts, Holds, Holds-le, Starts-le}
use slicksocket.StringRing.Write.{Peer, nothing, reads, resets, peer_step, overlaps, wait}
use slicksocket.StringRing.Write.Steps.{wait-eq}

abbrev pub times : ℕ → Peer → List Peer → List Peer
times zero p ps = ps
times (suc n) p ps = p ∷ times n p ps

wait-step :
    (begin end : ℕ) (p : Peer) (ps : List Peer) (t : StringRing)
    → overlaps begin end t ≡ true
    → wait begin end (p ∷ ps) t ≡ wait begin end ps (peer_step t p)
unfolding wait
wait-step begin end p ps t e = rw e

-- While the writer waits, the buffer is not empty for the reader.
read-eq_of_overlap :
    (begin end : ℕ) (t : StringRing)
    → index t t.cursor ≡ begin
    → overlaps begin end t ≡ true
    → read t ≡ read_entry t
unfolding read
read-eq_of_overlap begin end t at over = ground (arith, at, over)

module _ (r : StringRing) (end e q : ℕ) (power : IsPowerOfTwo r.size) (one_byte : 1 < r.size)
    (small : r.size ≤ 2 ^ 31) (bound : q < 2 ^ 64) (published : r.cursor ≡ q)
    (tail : Starts r.buffer r.size e q) where
  -- The loop of the writer that has come to q, over a reader that has come to p.
  abbrev pub WaitEnds : List Peer → ℕ → Type 0
  WaitEnds ps p = (p' : ℕ) × (wait (q % r.size) end ps (advance r p) ≡ some (advance r p'))

  place : (p : ℕ) → index (advance r p) (advance r p).cursor ≡ q % r.size
  unfolding advance
  place p = bit_and-mask r.size r.cursor power ∙ ap (λ t. t % r.size) published

  exit : (ps : List Peer) (p : ℕ) → overlaps (q % r.size) end (advance r p) ≡ false → WaitEnds ps p
  exit ps p clear = (p, wait-eq (q % r.size) end ps (advance r p) clear)

  at_end : (ps : List Peer) → WaitEnds ps q
  unfolding advance
  at_end ps = exit ps q (ground (arith, bit_and-mask r.size q power))

  step :
      (ps : List Peer) (p p' : ℕ)
      → ((overlaps (q % r.size) end (advance r p) ≡ true)
          → (read_entry (advance r p)).1 ≡ advance r p')
      → WaitEnds ps p'
      → WaitEnds (reads ∷ ps) p
  unfolding peer_step
  step ps p p' moves rest = elim (Bool-cases (overlaps (q % r.size) end (advance r p))) [
    | inl over ↦
        let (last, rest') = rest in
        (
          last,
          wait-step (q % r.size) end reads ps (advance r p) over
              ∙ ap (wait (q % r.size) end ps) (
                  ap (λ out. out.1)
                    (read-eq_of_overlap (q % r.size) end (advance r p) (place p) over)
                  ∙ moves over)
              ∙ rest',
        )
    | inr clear ↦ exit (reads ∷ ps) p clear
  ]

  mark-step :
      (ps : List Peer) (p p' : ℕ)
      → get_or r.buffer (p % r.size) 0 ≡ flag_skip
      → p' ≡ p + (r.size - p % r.size)
      → p' ≤ q
      → WaitEnds ps p'
      → WaitEnds (reads ∷ ps) p
  unfolding advance
  mark-step ps p p' mark next before = step ps p p' λ over.
      ap (λ out. out.1)
        (read_entry-mark (advance r p) p' power one_byte small (omega (arith, bound)) mark next)

  Entry-step :
      (ps : List Peer) (p : ℕ) (m : List ℕ)
      → Entry r.buffer r.size p m
      → p + 5 + length m ≤ q
      → WaitEnds ps (p + 5 + length m)
      → WaitEnds (reads ∷ ps) p
  unfolding advance
  Entry-step ps p m en before = step ps p (p + 5 + length m) λ over.
      ap (λ out. out.1) (read_entry-Entry (advance r p) m power small (omega (arith, bound)) en)

  -- Two reads for each string that waits, and one for a SKIP mark behind them, are enough.
  pub waits_enough :
      (ms : List (List ℕ)) (n p : ℕ) (ps : List Peer)
      → Holds r.buffer r.size p e ms
      → 2 * length ms + 1 ≤ n
      → WaitEnds (times n reads ps) p
  waits_enough [] zero p ps h enough = absurd (omega arith)
  waits_enough [] (suc n) p ps h enough = elim tail [
    | inl same ↦
        subst (WaitEnds (times (suc n) reads ps)) (same ∙ sym h) (at_end (times (suc n) reads ps))
    | inr (mark, next) ↦
        mark-step (times n reads ps) p q (rw h mark) (rw h next) (omega arith)
          (at_end (times n reads ps))
  ]
  waits_enough (m ∷ ms) zero p ps h enough = absurd (omega arith)
  waits_enough (m ∷ ms) (suc zero) p ps h enough = absurd (omega arith)
  waits_enough (m ∷ ms) (suc (suc n)) p ps (q0, st, en, h) enough =
      let upto = Holds-le r.buffer r.size (q0 + 5 + length m) e ms h in
      let before = Starts-le r.buffer r.size e q tail in
      elim st [
        | inl same ↦ subst (WaitEnds (times (suc (suc n)) reads ps)) same (
            Entry-step (times (suc n) reads ps) q0 m en (omega (arith, upto, before))
              (waits_enough ms (suc n) (q0 + 5 + length m) ps h (omega arith)))
        | inr (mark, next) ↦
            mark-step (times (suc n) reads ps) p q0 mark next (omega (arith, upto, before)) (
              Entry-step (times n reads ps) q0 m en (omega (arith, upto, before))
                (waits_enough ms n (q0 + 5 + length m) ps h (omega arith)))
      ]

-- A reset that begins while the writer waits ends its wait.
pub waits_reset :
    (begin end k : ℕ) (ps : List Peer) (t : StringRing)
    → overlaps begin end t ≡ true
    → wait begin end (times k nothing (resets ∷ ps)) t ≡ some (reset_begin t)
unfolding peer_step reset_begin
waits_reset begin end zero ps t over =
    wait-step begin end resets ps t over ∙ wait-eq begin end ps (reset_begin t) refl
waits_reset begin end (suc k) ps t over =
    wait-step begin end nothing (times k nothing (resets ∷ ps)) t over
    ∙ waits_reset begin end k ps t over
