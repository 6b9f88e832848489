-- ===== src/Ring/Threads.antt =====
-- Threads that put one element each time, as `socket_service::request` does, in any interleaving.
mod Phases
pub mod Sound
pub mod Progress
pub mod Order
use slicksocket.Base.{
  ℕ, zero, suc, ◌+◌, ◌%◌, ◌^◌, ◌≤◌, ◌<◌, ◌≡◌, ◌≢◌, refl, sym, ap, ◌∙◌, true, false, none, some,
  Option, List, [], ◌∷◌, ◌++◌, arith, ◌==◌, if◌then◌else◌, length, length-append, get_elem?, set,
  length-set, mod-between, mod-apart, mod-lt, bit_and-mask, IsPowerOfTwo, pow-pos, add64,
}
use slicksocket.Ring.{Ring, Slot, index, at, reserve, store, publish}

-- Where a thread stands in `request`.
pub data Phase (A : Type 0) : Type 0 where
  idle : Phase A
  claimed : Slot → A → Phase A
  stored : Slot → A → Phase A

pub record System (A : Type 0) : Type 0 where
  pub ring : Ring A
  pub phase : ℕ → Phase A
  -- What was claimed, in the order of the claims: the queue that the threads mean to make.
  pub log : List A

module _ {A : Type 0} where
  abbrev pub update : (ℕ → Phase A) → ℕ → Phase A → ℕ → Phase A
  update f i p j = if i == j then p else f j

  -- One atomic step of one thread. A thread claims a slot only while fewer are claimed and not
  -- published than the ring has: there are no more threads than slots.
  pub data Step (s : System A) : System A → Type 0 where
    claims :
        (i : ℕ) (a : A)
        → s.phase i ≡ idle
        → s.ring.reserved < s.ring.cursor + s.ring.capacity
        → s.ring.reserved + 1 < 2 ^ 64
        → Step s (record {
          ring = (reserve s.ring 1).1;
          phase = update s.phase i (claimed (reserve s.ring 1).0 a);
          log = s.log ++ a ∷ [];
        })
    stores :
        (i : ℕ) (t : Slot) (a : A)
        → s.phase i ≡ claimed t a
        → Step s (record {
          ring = store s.ring t 0 a;
          phase = update s.phase i (stored t a);
          log = s.log;
        })
    publishes :
        (i : ℕ) (t : Slot) (a : A) (r : Ring A)
        → s.phase i ≡ stored t a
        → publish s.ring t ≡ some r
        → Step s (record { ring = r; phase = update s.phase i idle; log = s.log })

  pub data Reach (s : System A) : System A → Type 0 where
    start : Reach s s
    later : {t u : System A} → Reach s t → Step t u → Reach s u

  -- A thread holds the slot of one position, and its value is the one logged there.
  pub record Owns (s : System A) (t : Slot) (a : A) : Type 0 where
    pub lo : s.ring.cursor ≤ t.start
    pub hi : t.start < s.ring.reserved
    pub one : t.size ≡ 1
    pub logged : get_elem? s.log t.start ≡ some a

  abbrev pub position : Phase A → Option ℕ
  position idle = none
  position (claimed t a) = some t.start
  position (stored t a) = some t.start

  abbrev pub PhaseIsSound : System A → Phase A → Type 0
  PhaseIsSound s idle = Unit {0}
  PhaseIsSound s (claimed t a) = Owns s t a
  PhaseIsSound s (stored t a) =
      Owns s t a × (get_elem? s.ring.buffer (t.start % s.ring.capacity) ≡ some a)

  abbrev pub Apart : Phase A → Phase A → Type 0
  Apart p q = (n : ℕ) → position p ≡ some n → position q ≢ some n

  pub record IsSound (s : System A) : Type 0 where
    pub power : IsPowerOfTwo s.ring.capacity
    pub allocated : length s.ring.buffer ≡ s.ring.capacity
    pub counted : s.ring.reserved < 2 ^ 64
    pub ordered : s.ring.cursor ≤ s.ring.reserved
    pub room : s.ring.reserved ≤ s.ring.cursor + s.ring.capacity
    pub complete : length s.log ≡ s.ring.reserved
    pub phases : (i : ℕ) → PhaseIsSound s (s.phase i)
    pub apart : (i j : ℕ) → i ≢ j → Apart (s.phase i) (s.phase j)
    -- A reader at a published position that no claim has come round to finds the logged value.
    pub shown :
        (p : ℕ)
        → p < s.ring.cursor
        → s.ring.reserved ≤ p + s.ring.capacity
        → get_elem? s.ring.buffer (p % s.ring.capacity) ≡ get_elem? s.log p
