-- ===== src/Ring/Threads/Sound.antt =====
-- Every interleaving keeps the slots apart and makes one queue of them.
use native.Mathlib.Decide.{dec_lt}
use slicksocket.Base.{
  bit_and-self_mask, IsPowerOfTwo, Bool, List, length, ℕ, ◌+◌, ◌%◌, ◌^◌, ◌≤◌, ◌<◌, ◌≡◌, ◌≢◌, refl,
  sym, ap, subst, ◌∙◌, some, Option, [], ◌∷◌, ◌++◌, arith, length-append, get_elem?, set,
  length-set, get_elem?-set_self, get_elem?-set_ne, get_elem?-append_left, get_elem?-snoc,
  get_elem?-some, mod-apart, mod-lt, bit_and-mask, pow-pos, add64,
}
use mathlib.Core.Option.{some-injective}
use slicksocket.Ring.{Ring, create, Slot, index, at, reserve, store, publish, publish_at, available}
use slicksocket.Ring.Threads.Phases.{
  update-all, update-Apart, Owns-transfer, position-bounds, PhaseIsSound-transfer,
}
use slicksocket.Ring.Threads.{
  idle, claimed, stored, System, update, Step, claims, stores, publishes, Reach, start, later, Owns,
  position, PhaseIsSound, IsSound,
}

module _ {A : Type 0} where
  module _ {s : System A} (v : IsSound s) where
    module _ (i : ℕ) (a : A) (few : s.ring.reserved < s.ring.cursor + s.ring.capacity)
        (bound : s.ring.reserved + 1 < 2 ^ 64) where
      slot : Slot
      slot = (reserve s.ring 1).0

      after_claim : System A
      after_claim = record {
        ring = (reserve s.ring 1).1;
        phase = update s.phase i (claimed slot a);
        log = s.log ++ a ∷ [];
      }

      log-old : (n : ℕ) → n < s.ring.reserved → get_elem? (s.log ++ a ∷ []) n ≡ get_elem? s.log n
      log-old n h = get_elem?-append_left s.log (a ∷ []) n (omega (arith, v.complete))

      slot-Owns : Owns after_claim slot a
      unfolding after_claim reserve slot
      slot-Owns = record {
        lo = v.ordered;
        hi = omega arith;
        one = refl;
        logged = get_elem?-snoc s.log a s.ring.reserved (sym v.complete);
      }

      claim-IsSound : IsSound after_claim
      unfolding after_claim reserve slot
      claim-IsSound = record {
        power = v.power;
        allocated = v.allocated;
        counted = omega arith;
        ordered = omega (arith, v.ordered);
        room = omega arith;
        complete = omega (arith, length-append s.log (a ∷ []), v.complete);
        phases =
            update-all (λ j q. PhaseIsSound after_claim q) s.phase i (claimed slot a) slot-Owns
              (λ j _.
                PhaseIsSound-transfer {s = s} {u = after_claim} (s.phase j)
                  (λ t b e o. Owns-transfer t b o.lo (omega arith) (log-old t.start) o)
                  (λ n e. refl) (v.phases j));
        apart =
            update-Apart s.phase i (claimed slot a)
              (λ j _ n e f. omega (
                arith,
                position-bounds s (s.phase j) n (v.phases j) f,
                some-injective s.ring.reserved n e,
              ))
              v.apart;
        shown =
            λ p lt near. v.shown p lt (omega arith) ∙ sym (log-old p (omega (arith, v.ordered)));
      }

    module _ (i : ℕ) (t : Slot) (a : A) (mine : s.phase i ≡ claimed t a) where
      own : Owns s t a
      own = subst (PhaseIsSound s) mine (v.phases i)

      place : index s.ring (add64 t.start 0) ≡ t.start % s.ring.capacity
      place =
          ap (index s.ring) (omega (arith, own.hi, v.counted))
          ∙ bit_and-mask s.ring.capacity t.start v.power

      after_store : System A
      after_store = record {
        ring = store s.ring t 0 a;
        phase = update s.phase i (stored t a);
        log = s.log;
      }

      -- Another position in reach has another index.
      elsewhere :
          (n : ℕ)
          → n ≢ t.start
          → n < s.ring.reserved
          → s.ring.reserved ≤ n + s.ring.capacity
          → get_elem? (store s.ring t 0 a).buffer (n % s.ring.capacity)
            ≡ get_elem? s.ring.buffer (n % s.ring.capacity)
      unfolding store
      elsewhere n ne hi near = get_elem?-set_ne s.ring.buffer a (
          rw place (elim (dec_lt n t.start) [
            | yes before ↦ mod-apart n t.start s.ring.capacity before (omega (arith, own.hi))
            | no after ↦ λ e.
                mod-apart t.start n s.ring.capacity (omega arith) (omega (arith, own.lo, v.room))
                  (sym e)
          ]))

      other_slot : (j n : ℕ) → i ≢ j → position (s.phase j) ≡ some n → n ≢ t.start
      other_slot j n ne e same =
          v.apart i j ne t.start (ap position mine) (e ∙ ap {B = Option ℕ} some same)

      store-IsSound : IsSound after_store
      unfolding after_store store
      store-IsSound = record {
        power = v.power;
        allocated = (length-set s.ring.buffer (index s.ring (add64 t.start 0)) a ∙ v.allocated);
        counted = v.counted;
        ordered = v.ordered;
        room = v.room;
        complete = v.complete;
        phases =
            update-all (λ j q. PhaseIsSound after_store q) s.phase i (stored t a)
              (
                Owns-transfer t a own.lo (omega arith) (λ _. refl) own,
                ap (λ k. get_elem? (set s.ring.buffer k a) (t.start % s.ring.capacity)) place
                    ∙ get_elem?-set_self s.ring.buffer (t.start % s.ring.capacity) a (
                        omega
                          (arith, v.allocated, mod-lt t.start (pow-pos s.ring.capacity v.power))),
              )
              (λ j ne.
                PhaseIsSound-transfer {s = s} {u = after_store} (s.phase j)
                  (λ t' b e o. Owns-transfer t' b o.lo (omega arith) (λ _. refl) o)
                  (λ n e.
                    let within = position-bounds s (s.phase j) n (v.phases j) e in
                    elsewhere n (other_slot j n ne e) within.1 (omega (arith, within, v.room)))
                  (v.phases j));
        apart =
            update-Apart s.phase i (stored t a)
              (λ j ne n e f. v.apart i j ne n (ap position mine ∙ e) f) v.apart;
        shown = λ p lt near.
            elsewhere p (omega (arith, own.lo)) (omega (arith, v.ordered)) near ∙ v.shown p lt near;
      }

    module _ (i : ℕ) (t : Slot) (a : A) (mine : s.phase i ≡ stored t a)
        (next : s.ring.cursor ≡ t.start) where
      pub held : Owns s t a × (get_elem? s.ring.buffer (t.start % s.ring.capacity) ≡ some a)
      held = subst (PhaseIsSound s) mine (v.phases i)

      after_publish : System A
      after_publish = record {
        ring = record s.ring { cursor = s.ring.cursor + 1 };
        phase = update s.phase i idle;
        log = s.log;
      }

      -- The slots of the others lie behind.
      behind : (j n : ℕ) → i ≢ j → position (s.phase j) ≡ some n → s.ring.cursor + 1 ≤ n
      behind j n ne e =
          let differ : n ≢ t.start =
            λ same. v.apart i j ne t.start (ap position mine) (e ∙ ap {B = Option ℕ} some same) in
          omega (arith, position-bounds s (s.phase j) n (v.phases j) e)

      publish-IsSound : IsSound after_publish
      unfolding after_publish
      publish-IsSound = record {
        power = v.power;
        allocated = v.allocated;
        counted = v.counted;
        ordered = omega (arith, held.0.hi);
        room = omega (arith, v.room);
        complete = v.complete;
        phases =
            update-all (λ j q. PhaseIsSound after_publish q) s.phase i idle tt
              (λ j ne.
                PhaseIsSound-transfer {s = s} {u = after_publish} (s.phase j)
                  (λ t' b e o.
                    Owns-transfer t' b (behind j t'.start ne e) (omega arith) (λ _. refl) o)
                  (λ n e. refl) (v.phases j));
        apart = update-Apart s.phase i idle (λ j ne n e f. cc) v.apart;
        shown = λ p lt near. elim (dec_lt p s.ring.cursor) [
          | yes old ↦ v.shown p old near
          | no new ↦ let same : p ≡ t.start = omega arith in rw same (held.1 ∙ sym held.0.logged)
        ];
      }

  pub publish-inv :
      (r : Ring A) (t : Slot) {r' : Ring A}
      → publish r t ≡ some r'
      → (r.cursor ≡ t.start) × (r' ≡ record r { cursor = add64 r.cursor t.size })
  unfolding publish publish_at
  publish-inv r t e = ground arith

  -- One step of any thread keeps the ring sound.
  pub Step-IsSound : {s u : System A} → Step s u → IsSound s → IsSound u
  Step-IsSound (claims i a free few bound) v =
      unfold after_claim slot in claim-IsSound v i a few bound
  Step-IsSound (stores i t a mine) v = unfold after_store in store-IsSound v i t a mine
  Step-IsSound {s} (publishes i t a r mine e) v =
      let (next, made) = publish-inv s.ring t e in
      let own = (held v i t a mine next).0 in
      let one_more : add64 s.ring.cursor t.size ≡ s.ring.cursor + 1 =
        omega (arith, own.one, own.hi, own.lo, v.counted) in
      subst (λ q. IsSound (record { ring = q; phase = update s.phase i idle; log = s.log }))
        (sym (made ∙ ap (λ c. record s.ring { cursor = c }) one_more))
        (unfold after_publish in publish-IsSound v i t a mine next)

  pub Reach-IsSound : {s u : System A} → IsSound s → Reach s u → IsSound u
  Reach-IsSound v start = v
  Reach-IsSound v (later r st) = Step-IsSound st (Reach-IsSound v r)

-- The constructor gives a ring in which nothing is claimed.
pub create-some_IsSound :
    {A : Type 0} (debug : Bool) (memory : List A) (size : ℕ)
    → IsPowerOfTwo size
    → length memory ≡ size
    → (r : Ring A) × (create debug memory size ≡ some r)
      × IsSound (record { ring = r; phase = λ i. idle; log = [] })
unfolding create
create-some_IsSound debug memory size power len = (
  record { buffer = memory; capacity = size; cursor = 0; reserved = 0 },
  ground (arith, bit_and-self_mask size power, pow-pos size power),
  record {
    power = power;
    allocated = len;
    counted = omega arith;
    ordered = omega arith;
    room = omega arith;
    complete = refl;
    phases = λ i. tt;
    apart = λ i j ne n e. cc;
    shown = λ p lt near. absurd (omega arith);
  },
)

-- Whatever the interleaving, as long as there are never more claims that are not published than the
-- ring has slots, and claims stay below 2 ^ 64: a read at a position that is published, and that no
-- later claim has come round to, gives the element of the claim of that number.
pub at-eq-log :
    {A : Type 0} {s u : System A} (p : ℕ)
    → IsSound s
    → Reach s u
    → p < available u.ring
    → u.ring.reserved ≤ p + u.ring.capacity
    → (a : A) × (at u.ring p ≡ some a) × (get_elem? u.log p ≡ some a)
unfolding at available
at-eq-log {u = u} p v r lt near =
    let w = Reach-IsSound v r in
    let (a, e) = get_elem?-some u.log p (omega (arith, w.complete, w.ordered)) in
    (
      a,
      ap (get_elem? u.ring.buffer) (bit_and-mask u.ring.capacity p w.power) ∙ w.shown p lt near ∙ e,
      e,
    )
