-- ===== src/StringRing/Write/Threads/Progress.antt =====
-- From every state of the two threads, the reader can get what is published.
use slicksocket.Base.{
  ℕ, zero, suc, ◌+◌, ◌%◌, ◌≤◌, ◌<◌, ◌≡◌, refl, ap, ◌∙◌, true, List, [], ◌∷◌, ◌++◌, arith, mod-apart,
  mod-lt,
}
use native.Mathlib.Decide.{dec_lt}
use slicksocket.StringRing.{StringRing, has_more, next_flag, read_rest, advance, bytes_of}
use slicksocket.StringRing.View.{IsReady}
use slicksocket.StringRing.Write.Threads.{
  Reader, resting, looked, at_flag, using, TwoThreads, used_from, Step, looks, loads, skips, gets,
  uses, Reach, IsRoomy, start, later,
}
use slicksocket.StringRing.Write.Threads.Layout.{Next, string, skip}
use slicksocket.StringRing.Write.Threads.Sound.{IsShared}
use slicksocket.StringRing.Write.Threads.Writing.{index_lem, size_pos}
use slicksocket.StringRing.Write.Threads.Reading.{
  rest_string, rest_mark, next_of, sound_at, skip-IsShared, get-IsShared, use-IsShared,
}
use slicksocket.StringRing.Write.Threads.Order.{
  begun, begun-IsShared, Step-IsShared, Reach-IsShared, caught_up,
}

-- One run after another.
joined : {s t u : TwoThreads} → Reach s t → Reach t u → Reach s u
joined run start = run
joined run (later more step) = later (joined run more) step

-- The reader rests, has not gone back, and nothing was published meanwhile.
record Settles (t u : TwoThreads) : Type 0 where
  run : Reach t u
  shared : IsShared u
  rests : u.reader ≡ resting
  same : u.ring.cursor ≡ t.ring.cursor
  unsent : u.all_sent ≡ t.all_sent
  forward : t.ring.reading_cursor ≤ u.ring.reading_cursor

record Advances (t u : TwoThreads) : Type 0 where
  settles : Settles t u
  further : t.ring.reading_cursor < u.ring.reading_cursor

module _ {t : TwoThreads} (v : IsShared t) where
  finishes :
      (f : ℕ) (ms : List (List ℕ))
      → t.reader ≡ at_flag f
      → Next t.ring.buffer t.ring.size t.ring.reading_cursor t.ring.cursor ms
      → (u : TwoThreads) × Advances t u
  unfolding advance
  finishes f ms at (string m ms' en rest) =
      let e = rest_string v f at m ms' en rest in
      (
        record t {
          ring = (read_rest f t.ring).1;
          reader = resting;
          received = t.received ++ bytes_of (read_rest f t.ring).1 (read_rest f t.ring).0 ∷ [];
        },
        record {
          settles = record {
            run =
                later
                  (later start
                    (gets f (t.ring.reading_cursor % t.ring.size + 5) at (ap (λ o. o.0.0) e)))
                  (uses t.ring.reading_cursor (read_rest f t.ring).0 refl);
            shared =
                use-IsShared
                  (get-IsShared v f at (t.ring.reading_cursor % t.ring.size + 5)
                    (ap (λ o. o.0.0) e))
                  t.ring.reading_cursor (read_rest f t.ring).0 refl;
            rests = refl;
            same = ap (λ o. o.1.cursor) e;
            unsent = refl;
            forward = omega (arith, ap (λ o. o.1.reading_cursor) e);
          };
          further = omega (arith, ap (λ o. o.1.reading_cursor) e);
        },
      )
  finishes f ms at (skip q ms' mark next rest) =
      let e = rest_mark v f at q ms' mark next rest in
      (
        record t { ring = (read_rest f t.ring).1; reader = resting },
        record {
          settles = record {
            run = later start (skips f at (ap (λ o. o.0.0) e));
            shared = skip-IsShared v f at (ap (λ o. o.0.0) e);
            rests = refl;
            same = ap (λ o. o.1.cursor) e;
            unsent = refl;
            forward = omega (arith, ap (λ o. o.1.reading_cursor) e, next);
          };
          further = omega (
            arith,
            ap (λ o. o.1.reading_cursor) e,
            next,
            mod-lt t.ring.reading_cursor (size_pos v),
          );
        },
      )

  at_flag-Advances : (f : ℕ) → t.reader ≡ at_flag f → (u : TwoThreads) × Advances t u
  at_flag-Advances f at =
      let (lt, same, ms, filled, order) = sound_at v (at_flag f) at in
      finishes f ms at (next_of v f at ms lt filled)

-- The steps before these.
Advances-Step :
    {s t u : TwoThreads}
    → Step s t
    → t.ring ≡ s.ring
    → t.all_sent ≡ s.all_sent
    → Advances t u
    → Advances s u
Advances-Step step same unsent a = record {
  settles = record {
    run = joined (later start step) a.settles.run;
    shared = a.settles.shared;
    rests = a.settles.rests;
    same = a.settles.same ∙ ap (λ r. r.cursor) same;
    unsent = a.settles.unsent ∙ unsent;
    forward = omega (arith, a.settles.forward, ap (λ r. r.reading_cursor) same);
  };
  further = omega (arith, a.further, ap (λ r. r.reading_cursor) same);
}

looked-Advances :
    {t : TwoThreads} → IsShared t → t.reader ≡ looked → (u : TwoThreads) × Advances t u
looked-Advances {t} v at =
    let step : Step t (record t { reader = at_flag (next_flag t.ring) }) = loads at in
    let (u, a) = at_flag-Advances (Step-IsShared step tt v) (next_flag t.ring) refl in
    (u, Advances-Step step refl refl a)

resting-Advances :
    {t : TwoThreads}
    → IsShared t
    → t.reader ≡ resting
    → t.ring.reading_cursor < t.ring.cursor
    → (u : TwoThreads) × Advances t u
resting-Advances {t} v at lt =
    let apart =
      mod-apart t.ring.reading_cursor t.ring.cursor t.ring.size lt
        (omega (arith, v.room, ap (λ ph. used_from ph t.ring.reading_cursor) at)) in
    let more : has_more t.ring t.ring.cursor ≡ true =
      ground (arith, v.quiet, v.reader_at, index_lem v t.ring.cursor, apart) in
    let step : Step t (record t { reader = looked }) = looks at more in
    let (u, a) = looked-Advances (Step-IsShared step tt v) refl in
    (u, Advances-Step step refl refl a)

-- What the reader is doing can be ended.
comes_to_rest :
    {t : TwoThreads} (ph : Reader) → IsShared t → t.reader ≡ ph → (u : TwoThreads) × Settles t u
comes_to_rest {t} resting v at = (
  t,
  record { run = start; shared = v; rests = at; same = refl; unsent = refl; forward = omega arith },
)
comes_to_rest looked v at = let (u, a) = looked-Advances v at in (u, a.settles)
comes_to_rest (at_flag f) v at = let (u, a) = at_flag-Advances v f at in (u, a.settles)
comes_to_rest {t} (using p slice) v at = (
  record t { reader = resting; received = t.received ++ bytes_of t.ring slice ∷ [] },
  record {
    run = later start (uses p slice at);
    shared = Step-IsShared (uses p slice at) tt v;
    rests = refl;
    same = refl;
    unsent = refl;
    forward = omega arith;
  },
)

-- n rounds of the reader are enough for n bytes.
drains :
    (n : ℕ) {t : TwoThreads}
    → IsShared t
    → t.reader ≡ resting
    → t.ring.cursor ≤ t.ring.reading_cursor + n
    → (u : TwoThreads) × Reach t u × (u.received ≡ t.all_sent)
drains zero {t} v at near = (t, start, caught_up v at (omega (arith, near)))
drains (suc n) {t} v at near = elim (dec_lt t.ring.reading_cursor t.ring.cursor) [
  | no behind ↦ (t, start, caught_up v at (omega (arith, behind)))
  | yes lt ↦
      let (u, a) = resting-Advances v at lt in
      let (w, run, all) =
        drains n a.settles.shared a.settles.rests
          (omega (arith, near, a.further, a.settles.same)) in
      (w, joined a.settles.run run, all ∙ a.settles.unsent)
]

-- From every state that the two threads reach, in any interleaving in which each step of the writer
-- had room, for which `write` does not itself wait, and positions stayed two rounds below 2 ^ 64, some more steps lead to one in which the strings that the reader has used are all those
-- that were published before, in order.
pub Reach-drained :
    (r : StringRing) (ms : List (List ℕ)) (t : TwoThreads)
    → IsReady r ms
    → (run : Reach (begun r ms) t) → IsRoomy run
    → (u : TwoThreads) × Reach t u × (u.received ≡ t.all_sent)
Reach-drained r ms t ready run roomy =
    let v = Reach-IsShared run roomy (begun-IsShared r ms ready) in
    let (u, s) = comes_to_rest t.reader v refl in
    let (w, more, all) = drains u.ring.cursor s.shared s.rests (omega arith) in
    (w, joined s.run more, all ∙ s.unsent)
