-- ===== src/Ring/Threads/Progress.antt =====
-- No claim is lost: the thread that holds the next slot can always go on.
use native.Mathlib.Decide.{dec_lt, ℕ_discrete}
use mathlib.Core.Option.{some-injective}
use slicksocket.Base.{
  ℕ, zero, suc, ◌+◌, ◌-◌, ◌≤◌, ◌<◌, ◌≡◌, refl, sym, ap, ◌∙◌, some, Option, arith, add64,
}
use slicksocket.Ring.{Ring, Slot, reserve, store, publish, publish_at}
use slicksocket.Ring.Threads.Phases.{update_self, update-ne}
use slicksocket.Ring.Threads.Sound.{Step-IsSound, Reach-IsSound, publish-inv, held}
use slicksocket.Ring.Threads.{
  Phase, idle, claimed, stored, System, update, Step, claims, stores, publishes, Reach, start,
  later, position, IsSound,
}

module _ {A : Type 0} where
  -- Each slot that is claimed and not published is held by some thread.
  pub Covered : System A → Type 0
  Covered s =
      (n : ℕ) → s.ring.cursor ≤ n → n < s.ring.reserved → (i : ℕ) × (position (s.phase i) ≡ some n)

  keeps :
      (f : ℕ → Phase A) (i : ℕ) (p : Phase A) (n : ℕ)
      → (position (f i) ≡ some n → position p ≡ some n)
      → ((j : ℕ) × (position (f j) ≡ some n))
      → (j : ℕ) × (position (update f i p j) ≡ some n)
  keeps f i p n same (j, e) = elim (ℕ_discrete i j) [
    | yes here ↦ (i, ap position (update_self f i p) ∙ same (rw here e))
    | no other ↦ (j, ap position (update-ne f i p j other) ∙ e)
  ]

  Step-Covered : {s u : System A} → IsSound s → Step s u → Covered s → Covered u
  unfolding Covered reserve store
  Step-Covered {s = s} v (claims i a free few bound) c n lo hi = elim (dec_lt n s.ring.reserved) [
    | yes old ↦
        keeps s.phase i (claimed (reserve s.ring 1).0 a) n
          (λ e. let nothing = sym (ap position free) ∙ e in cc) (c n lo old)
    | no new ↦ (
      i,
      ap position (update_self s.phase i (claimed (reserve s.ring 1).0 a))
          ∙ ap {B = Option ℕ} some (omega (arith, bound, v.counted)),
    )
  ]
  Step-Covered {s = s} v (stores i t a mine) c n lo hi =
      keeps s.phase i (stored t a) n (λ e. sym (ap position mine) ∙ e) (c n lo hi)
  Step-Covered {s = s} v (publishes i t a r mine e) c n lo hi =
      let (next, made) = publish-inv s.ring t e in
      let o = (held v i t a mine next).0 in
      let count = ap (λ (q : Ring A). q.cursor) made in
      let claims_kept = ap (λ (q : Ring A). q.reserved) made in
      keeps s.phase i idle n
        (λ f.
          let same = some-injective t.start n (sym (ap position mine) ∙ f) in
          absurd (omega (arith, o.one, o.hi, v.counted)))
        (c n (omega (arith, o.one, o.hi, v.counted)) (omega arith))

  Reach-Covered : {s u : System A} → IsSound s → Reach s u → Covered s → Covered u
  Reach-Covered v start c = c
  Reach-Covered v (later r st) c = Step-Covered (Reach-IsSound v r) st (Reach-Covered v r c)

  pub Reach-trans : {s t u : System A} → Reach s t → Reach t u → Reach s u
  Reach-trans r start = r
  Reach-trans r (later q st) = later (Reach-trans r q) st

  publish-next :
      (r : Ring A) (t : Slot)
      → r.cursor ≡ t.start
      → publish r t ≡ some (record r { cursor = add64 r.cursor t.size })
  unfolding publish publish_at
  publish-next r t next = ground arith

  -- One more element is published, and nothing else has changed for the reader or the queue.
  record Advances (s u : System A) : Type 0 where
    reach : Reach s u
    one_more : u.ring.cursor ≡ s.ring.cursor + 1
    claims_kept : u.ring.reserved ≡ s.ring.reserved
    log_kept : u.log ≡ s.log

  stored-Advances :
      {s : System A} (v : IsSound s) (i : ℕ) (t : Slot) (a : A)
      → s.phase i ≡ stored t a
      → s.ring.cursor ≡ t.start
      → (u : System A) × Advances s u
  stored-Advances {s} v i t a mine next =
      let o = (held v i t a mine next).0 in
      let r = record s.ring { cursor = add64 s.ring.cursor t.size } in
      (
        record { ring = r; phase = update s.phase i idle; log = s.log },
        record {
          reach = later start (publishes i t a r mine (publish-next s.ring t next));
          one_more = omega (arith, o.one, o.hi, v.counted);
          claims_kept = refl;
          log_kept = refl;
        },
      )

  claimed-Advances :
      {s : System A} (v : IsSound s) (i : ℕ) (t : Slot) (a : A)
      → s.phase i ≡ claimed t a
      → s.ring.cursor ≡ t.start
      → (u : System A) × Advances s u
  unfolding store
  claimed-Advances {s} v i t a mine next =
      let st = stores i t a mine in
      let (u, w) =
        stored-Advances (Step-IsSound st v) i t a (update_self s.phase i (stored t a)) next in
      (
        u,
        record {
          reach = Reach-trans (later start st) w.reach;
          one_more = w.one_more;
          claims_kept = w.claims_kept;
          log_kept = w.log_kept;
        },
      )

  owner-Advances :
      {s : System A} (v : IsSound s) (i : ℕ) (p : Phase A)
      → s.phase i ≡ p
      → position p ≡ some s.ring.cursor
      → (u : System A) × Advances s u
  owner-Advances v i idle e at = absurd (cc)
  owner-Advances {s} v i (claimed t a) e at =
      claimed-Advances v i t a e (sym (some-injective t.start s.ring.cursor at))
  owner-Advances {s} v i (stored t a) e at =
      stored-Advances v i t a e (sym (some-injective t.start s.ring.cursor at))

  drains :
      (d : ℕ) (s : System A)
      → IsSound s
      → Covered s
      → s.ring.cursor + d ≡ s.ring.reserved
      → (u : System A) × Reach s u × (u.ring.cursor ≡ s.ring.reserved) × (u.log ≡ s.log)
  unfolding Covered
  drains zero s v c e = (s, start, omega arith, refl)
  drains (suc d) s v c e =
      let (i, at) = c s.ring.cursor (omega arith) (omega arith) in
      let (t, w) = owner-Advances v i (s.phase i) refl at in
      let (u, r, done, same) =
        drains d t (Reach-IsSound v w.reach) (Reach-Covered v w.reach c)
          (omega (arith, w.one_more, w.claims_kept)) in
      (u, Reach-trans w.reach r, done ∙ w.claims_kept, same ∙ w.log_kept)

-- From a ring in which all that is claimed is published, the threads never come to a state that
-- they cannot leave: from each that they reach they can go on, without another claim, until every
-- claim is published.
pub all_published :
    {A : Type 0} {s u : System A}
    → IsSound s
    → s.ring.cursor ≡ s.ring.reserved
    → Reach s u
    → (w : System A) × Reach u w × (w.ring.cursor ≡ u.ring.reserved) × (w.log ≡ u.log)
unfolding Covered
all_published {s = s} {u = u} v none_left r =
    let w = Reach-IsSound v r in
    let c = Reach-Covered v r (λ n lo hi. absurd (omega arith)) in
    drains (u.ring.reserved - u.ring.cursor) u w c (omega (arith, w.ordered))
