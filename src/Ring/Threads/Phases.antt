-- ===== src/Ring/Threads/Phases.antt =====
-- The phases of the other threads, when one thread takes a step.
use slicksocket.Base.{
  ℕ, ◌%◌, ◌≤◌, ◌<◌, ◌≡◌, ◌≢◌, ◌⊎◌, inl, inr, refl, sym, subst, ◌∙◌, some, arith, get_elem?,
}
use slicksocket.Ring.{Slot}
use slicksocket.Ring.Threads.{
  Phase, idle, claimed, stored, System, update, Owns, position, PhaseIsSound, Apart,
}

module _ {A : Type 0} where
  update_cases :
      (f : ℕ → Phase A) (i : ℕ) (p : Phase A) (j : ℕ)
      → ((i ≡ j) × (update f i p j ≡ p)) ⊎ ((i ≢ j) × (update f i p j ≡ f j))
  update_cases f i p j = ground arith

  pub update_self : (f : ℕ → Phase A) (i : ℕ) (p : Phase A) → update f i p i ≡ p
  update_self f i p = ground arith

  pub update-ne : (f : ℕ → Phase A) (i : ℕ) (p : Phase A) (j : ℕ) → i ≢ j → update f i p j ≡ f j
  update-ne f i p j ne = ground arith

  -- What holds of the new phase, and stays true of the others, holds after the update.
  pub update-all :
      (P : ℕ → Phase A → Type 0) (f : ℕ → Phase A) (i : ℕ) (p : Phase A)
      → P i p
      → ((j : ℕ) → i ≢ j → P j (f j))
      → (j : ℕ) → P j (update f i p j)
  update-all P f i p new old j = elim (update_cases f i p j) [
    | inl (same, e) ↦ subst (P j) (sym e) (subst (λ k. P k p) same new)
    | inr (other, e) ↦ subst (P j) (sym e) (old j other)
  ]

  pub Apart-sym : (p q : Phase A) → Apart p q → Apart q p
  Apart-sym p q h n e f = h n f e

  -- A phase that holds a slot of its own keeps the threads apart.
  pub update-Apart :
      (f : ℕ → Phase A) (i : ℕ) (p : Phase A)
      → ((j : ℕ) → i ≢ j → Apart p (f j))
      → ((j k : ℕ) → j ≢ k → Apart (f j) (f k))
      → (j k : ℕ) → j ≢ k
      → Apart (update f i p j) (update f i p k)
  update-Apart f i p new old j =
      update-all (λ j q. (k : ℕ) → j ≢ k → Apart q (update f i p k)) f i p
        (λ k ne.
          update-all (λ k q. i ≢ k → Apart p q) f i p (λ h. absurd (h refl)) (λ k ne _. new k ne) k
            ne)
        (λ j ij k jk.
          update-all (λ k q. j ≢ k → Apart (f j) q) f i p (λ _. Apart-sym p (f j) (new j ij))
            (λ k _ h. old j k h) k jk)
        j

  -- Only the slots count that others hold.
  Apart-position : (p p' q : Phase A) → position p ≡ position p' → Apart p q → Apart p' q
  Apart-position p p' q e h n f = h n (e ∙ f)

  pub Owns-transfer :
      {s u : System A} (t : Slot) (a : A)
      → u.ring.cursor ≤ t.start
      → s.ring.reserved ≤ u.ring.reserved
      → (t.start < s.ring.reserved → get_elem? u.log t.start ≡ get_elem? s.log t.start)
      → Owns s t a
      → Owns u t a
  Owns-transfer t a lo hi same o = record {
    lo = lo;
    hi = omega (arith, o.hi);
    one = o.one;
    logged = same o.hi ∙ o.logged;
  }

  pub position-bounds :
      (s : System A) (q : Phase A) (n : ℕ)
      → PhaseIsSound s q
      → position q ≡ some n
      → (s.ring.cursor ≤ n) × (n < s.ring.reserved)
  position-bounds s idle n h e = cc
  position-bounds s (claimed t a) n h e = ground (arith, h.lo, h.hi)
  position-bounds s (stored t a) n h e = ground (arith, h.0.lo, h.0.hi)

  pub PhaseIsSound-transfer :
      {s u : System A} (q : Phase A)
      → ((t : Slot) (a : A) → position q ≡ some t.start → Owns s t a → Owns u t a)
      → ((n : ℕ)
          → position q ≡ some n
          → get_elem? u.ring.buffer (n % u.ring.capacity)
            ≡ get_elem? s.ring.buffer (n % s.ring.capacity))
      → PhaseIsSound s q
      → PhaseIsSound u q
  PhaseIsSound-transfer idle own fill h = tt
  PhaseIsSound-transfer (claimed t a) own fill h = own t a refl h
  PhaseIsSound-transfer (stored t a) own fill h = (own t a refl h.0, fill t.start refl ∙ h.1)
