-- ===== src/Ring/Threads/Order.antt =====
-- What the threads of `Ring.Threads` do later leaves the claims before in place, and what was
-- published stays so.
use slicksocket.Base.{
  ℕ, ◌≤◌, arith, ap, ◌≡◌, ◌∙◌, some, [], ◌∷◌, get_elem?, get_elem?-append_left, get_elem?-length,
}
use slicksocket.Ring.Threads.{System, IsSound, Step, Reach, claims, stores, publishes, start, later}
use slicksocket.Ring
use slicksocket.Ring.{publish}
use slicksocket.Ring.Threads.Sound.{held, publish-inv, Reach-IsSound}

module _ {A : Type 0} where
  Step-log :
      {s u : System A} (n : ℕ) {a : A}
      → Step s u
      → get_elem? s.log n ≡ some a
      → get_elem? u.log n ≡ some a
  Step-log {s = s} n (claims i a f h k) e =
      get_elem?-append_left s.log (a ∷ []) n (get_elem?-length s.log n e) ∙ e
  Step-log n (stores i t a f) e = e
  Step-log n (publishes i t a r f g) e = e

  -- What is logged stays logged.
  pub Reach-log :
      {s u : System A} (n : ℕ) {a : A}
      → Reach s u
      → get_elem? s.log n ≡ some a
      → get_elem? u.log n ≡ some a
  Reach-log n start e = e
  Reach-log n (later r t) e = Step-log n t (Reach-log n r e)

  Step-cursor : {s u : System A} → IsSound s → Step s u → s.ring.cursor ≤ u.ring.cursor
  unfolding Ring.reserve Ring.store
  Step-cursor v (claims i a f h k) = omega arith
  Step-cursor v (stores i t a f) = omega arith
  Step-cursor {s} v (publishes i t a r f g) =
      let (next, made) = publish-inv s.ring t g in
      let own = (held v i t a f next).0 in
      omega (arith, ap (λ q. q.cursor) made, own.one, own.hi, own.lo, v.counted)

  pub Reach-cursor : {s u : System A} → IsSound s → Reach s u → s.ring.cursor ≤ u.ring.cursor
  Reach-cursor v start = omega arith
  Reach-cursor v (later r t) = omega (arith, Reach-cursor v r, Step-cursor (Reach-IsSound v r) t)
