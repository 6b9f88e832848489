-- ===== src/StringRing/Write/Threads/Order.antt =====
-- What a run of the two threads keeps, in any interleaving of their steps.
use slicksocket.Base.{
  ◌≤◌, ℕ, ◌+◌, ◌<◌, ◌≡◌, refl, sym, subst, ap, ◌∙◌, inl, false, List, [], ◌∷◌, ◌++◌, arith, length,
  mod-apart,
}
use mathlib.Core.List.{append-nil}
use native.Mathlib.Decide.{dec_lt}
use slicksocket.StringRing.{StringRing, index, has_more, bytes_of}
use slicksocket.StringRing.View.{IsReady, Holds-le, Starts-le}
use slicksocket.StringRing.Write.Threads.{
  idle, Reader, resting, looked, at_flag, using, TwoThreads, used_from, Step, claims, fits, marks,
  goes_round, waits, passes, flags, measures, copies, publishes, looks, finds_nothing, loads, skips,
  gets, uses, Reach, HasRoomFor, IsRoomy, start, later,
}
use slicksocket.StringRing.Write.Threads.Layout.{ReaderIsSound, Filled, Filled-le}
use slicksocket.StringRing.Write.Threads.Sound.{IsShared}
use slicksocket.StringRing.Write.Threads.Writing.{
  claim-IsShared, fits-IsShared, pass-IsShared, mark-IsShared, index_lem,
}
use slicksocket.StringRing.Write.Threads.Storing.{flag-IsShared, length-IsShared, copy-IsShared}
use slicksocket.StringRing.Write.Threads.Publishing.{goes_round-IsShared, publish-IsShared}
use slicksocket.StringRing.Write.Threads.Reading.{
  look-IsShared, load-IsShared, skip-IsShared, get-IsShared, use-IsShared,
}

-- The two threads between their calls, with a buffer that holds these strings.
abbrev pub begun : StringRing → List (List ℕ) → TwoThreads
begun r ms = record { ring = r; writer = idle; reader = resting; all_sent = ms; received = [] }

pub begun-IsShared : (r : StringRing) (ms : List (List ℕ)) → IsReady r ms → IsShared (begun r ms)
begun-IsShared r ms v = record {
  power = v.power;
  small = v.small;
  allocated = v.allocated;
  unskipped = v.unskipped;
  quiet = v.quiet;
  bounded = v.bounded;
  room = v.room;
  reader_at = v.reader;
  reader = (ms, record { last = r.cursor; strings = v.strings; tail = inl refl }, refl);
  writer = (v.published, v.claimed, v.idle);
}

pub Step-IsShared : {s t : TwoThreads} (step : Step s t) → HasRoomFor step → IsShared s → IsShared t
Step-IsShared (claims m at pos short) bound v = claim-IsShared v m at pos short bound
Step-IsShared (fits m at fit) room v = fits-IsShared v m at fit
Step-IsShared (marks m at over) room v = mark-IsShared v m at over
Step-IsShared (goes_round m r at done) space v = goes_round-IsShared v m r at space done
Step-IsShared (waits m at full) room v = v
Step-IsShared (passes m at free) space v = pass-IsShared v m at space
Step-IsShared (flags m at) room v = flag-IsShared v m at
Step-IsShared (measures m at) room v = length-IsShared v m at
Step-IsShared (copies m at) room v = copy-IsShared v m at
Step-IsShared (publishes m r at done) room v = publish-IsShared v m r at done
Step-IsShared (looks at more) room v = look-IsShared v at more
Step-IsShared (finds_nothing at less) room v = v
Step-IsShared (loads at) room v = load-IsShared v at
Step-IsShared (skips f at nothing) room v = skip-IsShared v f at nothing
Step-IsShared (gets f place at found) room v = get-IsShared v f at place found
Step-IsShared (uses p slice at) room v = use-IsShared v p slice at

pub Reach-IsShared : {s t : TwoThreads} (run : Reach s t) → IsRoomy run → IsShared s → IsShared t
Reach-IsShared start roomy v = v
Reach-IsShared (later run step) (roomy, room) v =
    Step-IsShared step room (Reach-IsShared run roomy v)

-- The bytes that a reader is pointed to, as they are now.
abbrev pub held : StringRing → Reader → List (List ℕ)
held r (using p slice) = bytes_of r slice ∷ []
held r _ = []

waiting_behind :
    (r : StringRing) (ph : Reader) (sent received : List (List ℕ))
    → ReaderIsSound r.buffer r.size r.reading_cursor r.cursor ph sent received
    → (waiting : List (List ℕ)) × (sent ≡ received ++ (held r ph ++ waiting))
waiting_behind r resting sent received (ms, f, order) = (ms, order)
waiting_behind r looked sent received (lt, ms, f, order) = (ms, order)
waiting_behind r (at_flag fl) sent received (lt, same, ms, f, order) = (ms, order)
waiting_behind r (using p slice) sent received (m, ms, at, en, sl, f, order) =
    (ms, order ∙ ap (λ b. received ++ b ∷ ms) (sym (ap (bytes_of r) sl ∙ en.body)))

-- With one writer and one reader, in every interleaving of the steps of `write` of whole strings that
-- are shorter than the buffer with those of `read`, as long as each step of the writer has room and
-- positions stay two rounds below 2 ^ 64 (`IsRoomy`): the strings that the reader has used, then the
-- bytes that it is pointed to while it uses them, then some strings that wait are together the
-- strings that lay in the buffer and those written since, in their order. `write` does not itself
-- wait for that room: it tests only `overlaps`.
pub Reach-in_order :
    (r : StringRing) (ms : List (List ℕ)) (t : TwoThreads)
    → IsReady r ms
    → (run : Reach (begun r ms) t) → IsRoomy run
    → (waiting : List (List ℕ)) × (t.all_sent ≡ t.received ++ (held t.ring t.reader ++ waiting))
Reach-in_order r ms t ready run roomy =
    let v = Reach-IsShared run roomy (begun-IsShared r ms ready) in
    waiting_behind t.ring t.reader t.all_sent t.received v.reader

pub Filled-nothing :
    (mem : List ℕ) (size p : ℕ) (ms : List (List ℕ)) → Filled mem size p p ms → ms ≡ []
Filled-nothing mem size p [] f = refl
Filled-nothing mem size p (m ∷ ms) f =
    let (q, st, en, h) = f.strings in
    absurd (
      omega (
        arith,
        Starts-le mem size p q st,
        Holds-le mem size (q + 5 + length m) f.last ms h,
        Starts-le mem size f.last p f.tail,
      ))

-- A reader that has read up to the end of what is published has used every string.
pub caught_up :
    {t : TwoThreads}
    → IsShared t
    → t.reader ≡ resting
    → t.ring.cursor ≤ t.ring.reading_cursor
    → t.received ≡ t.all_sent
caught_up {t} v at behind =
    let (left, f, order) =
      subst
        (λ ph.
          ReaderIsSound t.ring.buffer t.ring.size t.ring.reading_cursor t.ring.cursor ph t.all_sent
            t.received)
        at v.reader in
    let same : t.ring.cursor ≡ t.ring.reading_cursor = omega (
      arith,
      behind,
      Filled-le t.ring.buffer t.ring.size t.ring.reading_cursor t.ring.cursor left f,
    ) in
    let none_left : left ≡ [] =
      Filled-nothing t.ring.buffer t.ring.size t.ring.reading_cursor left
        (subst (λ e. Filled t.ring.buffer t.ring.size t.ring.reading_cursor e left) same f) in
    sym (order ∙ ap (λ l. t.received ++ l) none_left ∙ append-nil t.received)

-- In every interleaving in which each step of the writer has room, for which `write` does not itself
-- wait, and positions stay two rounds below 2 ^ 64: when the reader, between two calls, finds nothing
-- to read, it has used every string that was published.
pub Reach-nothing_lost :
    (r : StringRing) (ms : List (List ℕ)) (t : TwoThreads)
    → IsReady r ms
    → (run : Reach (begun r ms) t) → IsRoomy run
    → t.reader ≡ resting
    → has_more t.ring t.ring.cursor ≡ false
    → t.received ≡ t.all_sent
Reach-nothing_lost r ms t ready run roomy at less =
    let v = Reach-IsShared run roomy (begun-IsShared r ms ready) in
    let room : t.ring.cursor < t.ring.reading_cursor + t.ring.size =
      omega (arith, v.room, ap (λ ph. used_from ph t.ring.reading_cursor) at) in
    let met : t.ring.reading_begin ≡ index t.ring t.ring.cursor = ground (arith, less, v.quiet) in
    elim (dec_lt t.ring.reading_cursor t.ring.cursor) [
      | yes lt ↦ absurd (
          mod-apart t.ring.reading_cursor t.ring.cursor t.ring.size lt room
            (sym (index_lem v t.ring.cursor) ∙ sym met ∙ v.reader_at))
      | no apart ↦ caught_up v at (omega (arith, apart))
    ]
