-- ===== src/Ring/Tests.antt =====
-- Two threads on a ring of two slots.
use slicksocket.Base.{
  ℕ, ◌≡◌, refl, true, false, some, [], ◌∷◌, arith, get_elem?, ◌==◌, if◌then◌else◌,
}
use slicksocket.Ring.{Slot, create, at, reserve, store, publish, publish_at, available}
use slicksocket.Ring.Threads.{
  idle, claimed, stored, System, claims, stores, publishes, Reach, start, later, IsSound,
}
use slicksocket.Ring.Threads.Sound.{at-eq-log}
use slicksocket.Ring.Threads.Progress.{all_published}

abbrev pub empty : System ℕ
empty = record {
  ring = record { buffer = 0 ∷ 0 ∷ []; capacity = 2; cursor = 0; reserved = 0 };
  phase = λ _. idle;
  log = [];
}

create_empty : create true (0 ∷ 0 ∷ []) 2 ≡ some empty.ring
unfolding create
create_empty = refl

pub empty-IsSound : IsSound empty
empty-IsSound = record {
  power = record { exponent = 1; is_power = refl };
  allocated = refl;
  counted = omega arith;
  ordered = omega arith;
  room = omega arith;
  complete = refl;
  phases = λ i. tt;
  apart = λ i j ne n e. cc;
  shown = λ p lt near. absurd (omega arith);
}

abbrev slot : ℕ → Slot
slot n = record { start = n; size = 1; discard = false }

-- Thread 1 claims after thread 0, stores before it, and is published after it.
abbrev pub last : System ℕ
last = record {
  ring = record { buffer = 7 ∷ 8 ∷ []; capacity = 2; cursor = 2; reserved = 2 };
  phase = λ j.
      if 1 == j
      then idle
      else (if 0 == j
          then idle
          else (if 0 == j
              then stored (slot 0) 7
              else (if 1 == j
                  then stored (slot 1) 8
                  else (if 1 == j
                      then claimed (slot 1) 8
                      else (if 0 == j then claimed (slot 0) 7 else idle)))));
  log = 7 ∷ 8 ∷ [];
}

pub reach : Reach empty last
unfolding reserve store publish publish_at
reach =
    later
      (later
        (later
          (later
            (later (later start (claims 0 7 refl (omega arith) (omega arith)))
              (claims 1 8 refl (omega arith) (omega arith)))
            (stores 1 (slot 1) 8 refl))
          (stores 0 (slot 0) 7 refl))
        (publishes 0 (slot 0) 7 _ refl refl))
      (publishes 1 (slot 1) 8 _ refl refl)

at-eq-log_example : (a : ℕ) × (at last.ring 1 ≡ some a) × (get_elem? last.log 1 ≡ some a)
unfolding available
at-eq-log_example = at-eq-log 1 empty-IsSound reach (omega arith) (omega arith)

all_published_example :
    (w : System ℕ) × Reach last w × (w.ring.cursor ≡ last.ring.reserved) × (w.log ≡ last.log)
all_published_example = all_published empty-IsSound refl reach
