-- ===== src/Service/Registry/Lock.antt =====
-- `spin_lock` of src/socket_service.cpp, and `socket_service::global` under it in any interleaving of
-- any number of threads.
pub mod Exclusion
use slicksocket.Base.{
  ℕ, ◌≡◌, ◌≢◌, Bool, true, false, Option, none, some, List, [], ◌∷◌, ◌==◌, if◌then◌else◌,
}
use slicksocket.Service.Registry.{Registry, Shared, find, Call, answer_with}

-- Where a thread stands in `global`: before the lock, after it, after `find`, and after the answer
-- is known.
pub data Phase : Type 0 where
  outside : Phase
  locked : ℕ → List ℕ → Phase
  found : ℕ → List ℕ → Option ℕ → Phase
  answered : ℕ → Phase

abbrev pub is_inside : Phase → Bool
is_inside outside = false
is_inside _ = true

pub record System : Type 0 where
  pub flag : Bool
  pub services : Registry
  pub phase : ℕ → Phase
  -- The calls that have their answer, the newest first.
  pub log : List Call

abbrev pub update : (ℕ → Phase) → ℕ → Phase → ℕ → Phase
update f i p j = if i == j then p else f j

-- `test_and_set`: what was there, and the flag that is left.
unfoldable pub test_and_set : Bool → Bool × Bool
test_and_set flag = (flag, true)

-- One atomic step of one thread.
pub data Step (s : System) : System → Type 0 where
  spins :
      (i : ℕ)
      → s.phase i ≡ outside
      → (test_and_set s.flag).0 ≡ true
      → Step s (record s { flag = (test_and_set s.flag).1 })
  locks :
      (i made : ℕ) (path : List ℕ)
      → s.phase i ≡ outside
      → (test_and_set s.flag).0 ≡ false
      → Step s
          (record s { flag = (test_and_set s.flag).1; phase = update s.phase i (locked made path) })
  finds :
      (i made : ℕ) (path : List ℕ)
      → s.phase i ≡ locked made path
      → Step s (record s { phase = update s.phase i (found made path (find path s.services)) })
  answers :
      (i made : ℕ) (path : List ℕ) (o : Option ℕ)
      → s.phase i ≡ found made path o
      → Step s (record s {
        services = (answer_with o made path s.services).1;
        phase = update s.phase i (answered (answer_with o made path s.services).0);
        log =
            record { path = path; made = made; answer = (answer_with o made path s.services).0 }
            ∷ s.log;
      })
  unlocks :
      (i a : ℕ)
      → s.phase i ≡ answered a
      → Step s (record s { flag = false; phase = update s.phase i outside })

pub data Reach (s : System) : System → Type 0 where
  start : Reach s s
  later : {t u : System} → Reach s t → Step t u → Reach s u

-- Before any call.
abbrev pub at_start : System
at_start = record { flag = false; services = []; phase = λ i. outside; log = [] }
