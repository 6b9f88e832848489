-- ===== src/StringRing/Write/Threads/Layout.antt =====
-- What holds of the bytes of a `ring_string_buffer` for its reader, while the other thread writes.
use mathlib.Core.List.{append_assoc}
use slicksocket.Base.{
  ℕ, ◌+◌, ◌-◌, ◌%◌, ◌≤◌, ◌<◌, ◌≡◌, refl, sym, ap, ◌∙◌, inl, inr, some, List, [], ◌∷◌, ◌++◌, arith,
  length, get_or, mod-lt, mod-round,
}
use slicksocket.StringRing.{flag_skip}
use slicksocket.StringRing.View.{
  Entry, Starts, Starts-le, Holds, Holds-le, Holds-frame, Holds-snoc, AgreeFrom, Entry-frame,
  Starts-frame,
}
use slicksocket.StringRing.Write.Threads.{Reader, resting, looked, at_flag, using, used_from}

-- From p up to e the buffer holds these strings, and perhaps a SKIP mark behind them.
pub record Filled (mem : List ℕ) (size p e : ℕ) (ms : List (List ℕ)) : Type 0 where
  pub last : ℕ
  pub strings : Holds mem size p last ms
  pub tail : Starts mem size last e

pub Filled-le : (mem : List ℕ) (size p e : ℕ) (ms : List (List ℕ)) → Filled mem size p e ms → p ≤ e
Filled-le mem size p e ms f =
    omega (arith, Holds-le mem size p f.last ms f.strings, Starts-le mem size f.last e f.tail)

Starts-agree :
    (mem mem' : List ℕ) (size p q e : ℕ)
    → q ≤ e
    → 0 < size
    → AgreeFrom mem mem' size p e
    → Starts mem size p q
    → Starts mem' size p q
Starts-agree mem mem' size p q e h pos agree (inl same) = inl same
Starts-agree mem mem' size p q e h pos agree (inr next) =
    Starts-frame mem mem' size p q e (omega (arith, next.1, mod-lt p pos)) agree (inr next)

pub Filled-frame :
    (mem mem' : List ℕ) (size p e : ℕ) (ms : List (List ℕ))
    → 0 < size
    → AgreeFrom mem mem' size p e
    → Filled mem size p e ms
    → Filled mem' size p e ms
Filled-frame mem mem' size p e ms pos agree f =
    let before = Holds-le mem size p f.last ms f.strings in
    let behind = Starts-le mem size f.last e f.tail in
    record {
      last = f.last;
      strings =
          Holds-frame mem mem' size p f.last ms pos (λ x lo hi. agree x lo (omega arith)) f.strings;
      tail =
          Starts-agree mem mem' size f.last e e (omega arith) pos
            (λ x lo hi. agree x (omega arith) hi) f.tail;
    }

-- A SKIP mark behind the strings, where the buffer does not begin anew.
pub Filled-mark :
    (mem : List ℕ) (size p e : ℕ) (ms : List (List ℕ))
    → 0 < size
    → 0 < e % size
    → get_or mem (e % size) 0 ≡ flag_skip
    → Filled mem size p e ms
    → Filled mem size p (e + (size - e % size)) ms
Filled-mark mem size p e ms pos inside skip f = elim f.tail [
  | inl same ↦ record { last = e; strings = rw same f.strings; tail = inr (skip, refl) }
  | inr (_, next) ↦ absurd (omega (arith, ap (λ t. t % size) next, mod-round f.last size pos))
]

pub Filled-snoc :
    (mem : List ℕ) (size p e : ℕ) (ms : List (List ℕ)) (m : List ℕ)
    → Entry mem size e m
    → Filled mem size p e ms
    → Filled mem size p (e + 5 + length m) (ms ++ m ∷ [])
Filled-snoc mem size p e ms m en f = record {
  last = e + 5 + length m;
  strings = Holds-snoc mem size p f.last e ms m f.strings f.tail en;
  tail = inl refl;
}

-- What the reader finds at its position, if there is anything.
pub data Next (mem : List ℕ) (size p e : ℕ) : List (List ℕ) → Type 0 where
  string :
      (m : List ℕ) (ms : List (List ℕ))
      → Entry mem size p m
      → Filled mem size (p + 5 + length m) e ms
      → Next mem size p e (m ∷ ms)
  skip :
      (q : ℕ) (ms : List (List ℕ))
      → get_or mem (p % size) 0 ≡ flag_skip
      → q ≡ p + (size - p % size)
      → Filled mem size q e ms
      → Next mem size p e ms

pub Filled-Next :
    (mem : List ℕ) (size p e : ℕ) (ms : List (List ℕ))
    → p < e
    → Filled mem size p e ms
    → Next mem size p e ms
Filled-Next mem size p e [] lt f = elim f.tail [
  | inl same ↦ absurd (omega (arith, f.strings))
  | inr (found, next) ↦
      skip e [] (ap (λ t. get_or mem (t % size) 0) f.strings ∙ found)
        (omega (arith, next, ap (λ t. t % size) f.strings, f.strings))
        (record { last = e; strings = refl; tail = inl refl })
]
Filled-Next mem size p e (m ∷ ms) lt f =
    let (q, st, en, h) = f.strings in
    elim st [
      | inl same ↦
          string m ms (rw (sym same) en)
            (rw (sym same) (record { last = f.last; strings = h; tail = f.tail }))
      | inr (found, next) ↦
          skip q (m ∷ ms) found next
            (record { last = f.last; strings = (q, inl refl, en, h); tail = f.tail })
    ]

-- What is true for the reader of the strings that were written and those that it has used.
abbrev pub ReaderIsSound : List ℕ → ℕ → ℕ → ℕ → Reader → List (List ℕ) → List (List ℕ) → Type 0
ReaderIsSound mem size rc e resting sent received =
    (ms : List (List ℕ)) × Filled mem size rc e ms × (sent ≡ received ++ ms)
ReaderIsSound mem size rc e looked sent received =
    (rc < e) × (ms : List (List ℕ)) × Filled mem size rc e ms × (sent ≡ received ++ ms)
ReaderIsSound mem size rc e (at_flag f) sent received =
    (rc < e)
    × (get_or mem (rc % size) 0 ≡ f)
    × (ms : List (List ℕ)) × Filled mem size rc e ms
    × (sent ≡ received ++ ms)
ReaderIsSound mem size rc e (using p slice) sent received =
    (m : List ℕ) × (ms : List (List ℕ)) × (rc ≡ p + 5 + length m)
    × Entry mem size p m
    × (slice ≡ (some (p % size + 5), length m))
    × Filled mem size rc e ms
    × (sent ≡ received ++ m ∷ ms)

-- Bytes outside the region in use do not matter to the reader.
pub ReaderIsSound-frame :
    (mem mem' : List ℕ) (size rc e : ℕ) (ph : Reader) (sent received : List (List ℕ))
    → 0 < size
    → AgreeFrom mem mem' size (used_from ph rc) e
    → ReaderIsSound mem size rc e ph sent received
    → ReaderIsSound mem' size rc e ph sent received
ReaderIsSound-frame mem mem' size rc e resting sent received pos agree (ms, f, order) =
    (ms, Filled-frame mem mem' size rc e ms pos agree f, order)
ReaderIsSound-frame mem mem' size rc e looked sent received pos agree (lt, ms, f, order) =
    (lt, ms, Filled-frame mem mem' size rc e ms pos agree f, order)
ReaderIsSound-frame mem mem' size rc e (at_flag fl) sent received pos agree
      (lt, same, ms, f, order) =
    (
      lt,
      sym (agree rc (omega arith) lt) ∙ same,
      ms,
      Filled-frame mem mem' size rc e ms pos agree f,
      order,
    )
ReaderIsSound-frame mem mem' size rc e (using p slice) sent received pos agree
      (m, ms, at, en, sl, f, order) =
    let le = Filled-le mem size rc e ms f in
    (
      m,
      ms,
      at,
      Entry-frame mem mem' size p m (λ x lo hi. agree x lo (omega (arith, at))) en,
      sl,
      Filled-frame mem mem' size rc e ms pos (λ x lo hi. agree x (omega (arith, at)) hi) f,
      order,
    )

-- What the writer publishes comes behind what waits.
pub ReaderIsSound-grow :
    (mem : List ℕ) (size rc e e' : ℕ) (ph : Reader) (sent received extra : List (List ℕ))
    → e ≤ e'
    → ((ms : List (List ℕ)) → Filled mem size rc e ms → Filled mem size rc e' (ms ++ extra))
    → ReaderIsSound mem size rc e ph sent received
    → ReaderIsSound mem size rc e' ph (sent ++ extra) received
ReaderIsSound-grow mem size rc e e' resting sent received extra le more (ms, f, order) =
    (ms ++ extra, more ms f, ap (λ l. l ++ extra) order ∙ append_assoc received ms extra)
ReaderIsSound-grow mem size rc e e' looked sent received extra le more (lt, ms, f, order) = (
  omega arith,
  ms ++ extra,
  more ms f,
  ap (λ l. l ++ extra) order ∙ append_assoc received ms extra,
)
ReaderIsSound-grow mem size rc e e' (at_flag fl) sent received extra le more
      (lt, same, ms, f, order) =
    (
      omega arith,
      same,
      ms ++ extra,
      more ms f,
      ap (λ l. l ++ extra) order ∙ append_assoc received ms extra,
    )
ReaderIsSound-grow mem size rc e e' (using p slice) sent received extra le more
      (m, ms, at, en, sl, f, order) =
    (
      m,
      ms ++ extra,
      at,
      en,
      sl,
      more ms f,
      ap (λ l. l ++ extra) order ∙ append_assoc received (m ∷ ms) extra,
    )

pub ReaderIsSound-le :
    (mem : List ℕ) (size rc e : ℕ) (ph : Reader) (sent received : List (List ℕ))
    → ReaderIsSound mem size rc e ph sent received
    → (used_from ph rc ≤ rc) × (rc ≤ e)
ReaderIsSound-le mem size rc e resting sent received (ms, f, order) =
    (omega arith, Filled-le mem size rc e ms f)
ReaderIsSound-le mem size rc e looked sent received (lt, ms, f, order) = (omega arith, omega arith)
ReaderIsSound-le mem size rc e (at_flag fl) sent received (lt, same, ms, f, order) =
    (omega arith, omega arith)
ReaderIsSound-le mem size rc e (using p slice) sent received (m, ms, at, en, sl, f, order) =
    (omega (arith, at), Filled-le mem size rc e ms f)
