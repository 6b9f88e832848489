-- ===== src/Pool/Threads/Giving.antt =====
-- `release_obj` keeps what holds of the threads of an `object_pool`.
use slicksocket.Base.{
  ℕ, ◌+◌, ◌-◌, ◌≤◌, ◌<◌, ◌≡◌, ap, subst, ◌∙◌, true, false, List, ◌∷◌, ◌++◌, ◌==◌, arith,
  if◌then◌else◌, bit_and, get_or-set_ne, length-set, bit_and-mask, mod-eq_of_lt, add64,
}
use slicksocket.Pool.{mask}
use slicksocket.Pool.Discipline.{owned, pooled, IsLive, remove}
use slicksocket.Pool.Discipline.Held.{pooled-remove}
use slicksocket.Pool.Threads.{Hands, store_index, tally, returning, times_held}
use slicksocket.Pool.Threads.Tally.{
  tally-remove, returning-middle, Targets, Targets-le, Targets-middle, objects-store,
}
use slicksocket.Pool.Threads.Safe.{IsSafe}

module _ {s : Hands} (v : IsSafe s) where
  pub count-IsSafe :
      (a : ℕ)
      → IsLive a s.live
      → owned s.pool.base s.pool.size a ≡ true
      → IsSafe (record s {
        live = remove a s.live;
        releasing = (s.pool.write_cursor, a) ∷ s.releasing;
        pool = record s.pool { write_cursor = add64 s.pool.write_cursor 1 };
      })
  count-IsSafe a live ours =
      let fewer : pooled s.pool.base s.pool.size s.live
          ≡ 1 + pooled s.pool.base s.pool.size (remove a s.live) =
        ground (arith, pooled-remove s.pool.base s.pool.size a s.live live, ours) in
      let w : add64 s.pool.write_cursor 1 ≡ s.pool.write_cursor + 1 =
        omega (arith, v.balance, v.ahead, v.small) in
      record {
        power = v.power;
        small = v.small;
        allocated = v.allocated;
        ahead = v.ahead;
        balance = omega (arith, v.balance, w, fewer);
        one_claim = v.one_claim;
        below_claim = v.below_claim;
        once = λ b. omega (arith, v.once b, tally-remove b a s.live live);
        ungiven = λ j lo hi.
            omega (arith, v.ungiven j lo hi, tally-remove (s.pool.base + j) a s.live live);
        targets = (
          omega (arith, w),
          ours,
          Targets-le s.pool.base s.pool.size s.pool.write_cursor (add64 s.pool.write_cursor 1)
              s.releasing (omega (arith, w)) v.targets,
        );
        untouched = v.untouched;
      }

  pub delete-IsSafe :
      (a : ℕ)
      → IsLive a s.live
      → owned s.pool.base s.pool.size a ≡ false
      → IsSafe (record s { live = remove a s.live })
  delete-IsSafe a live other = record {
    power = v.power;
    small = v.small;
    allocated = v.allocated;
    ahead = v.ahead;
    balance = ground (arith, v.balance, pooled-remove s.pool.base s.pool.size a s.live live, other);
    one_claim = v.one_claim;
    below_claim = v.below_claim;
    once = λ b. omega (arith, v.once b, tally-remove b a s.live live);
    ungiven =
        λ j lo hi. omega (arith, v.ungiven j lo hi, tally-remove (s.pool.base + j) a s.live live);
    targets = v.targets;
    untouched = v.untouched;
  }

  module _ (target a : ℕ) (before after : List (ℕ × ℕ))
      (at : s.releasing ≡ before ++ (target, a) ∷ after) where
    known :
        (target < s.pool.write_cursor)
        × (owned s.pool.base s.pool.size a ≡ true)
        × Targets s.pool.base s.pool.size s.pool.write_cursor (before ++ after)
    known =
        Targets-middle s.pool.base s.pool.size s.pool.write_cursor target a before after
          (subst (Targets s.pool.base s.pool.size s.pool.write_cursor) at v.targets)

    fewer_held :
        (b : ℕ)
        → times_held
            (record s { releasing = before ++ after; pool = store_index s.pool target a })
            b
          ≤ times_held s b
    fewer_held b =
        let (lt, ours, rest) = known in
        let base_le : s.pool.base ≤ a = ground (arith, ours) in
        let old : tally b (returning s.releasing)
            ≡ (if b == a then 1 else 0) + tally b (returning (before ++ after)) =
          ap (λ l. tally b (returning l)) at ∙ returning-middle b target a before after in
        let kept =
          objects-store s.pool target a b s.claimed v.power v.allocated
            (omega (arith, lt, v.balance, v.ahead)) base_le
            (λ i h. v.below_claim i (omega (arith, h, v.ahead))) in
        ground (arith, old, kept, v.one_claim target)

    pub store-IsSafe :
        IsSafe (record s { releasing = before ++ after; pool = store_index s.pool target a })
    store-IsSafe =
        let (lt, ours, rest) = known in
        let place : bit_and target (mask s.pool) ≡ target =
          bit_and-mask s.pool.size target v.power
          ∙ mod-eq_of_lt (omega (arith, lt, v.balance, v.ahead)) in
        record {
          power = v.power;
          small = v.small;
          allocated =
              length-set s.pool.index (bit_and target (mask s.pool)) (a - s.pool.base)
              ∙ v.allocated;
          ahead = v.ahead;
          balance = v.balance;
          one_claim = v.one_claim;
          below_claim = v.below_claim;
          once = λ b. omega (arith, fewer_held b, v.once b);
          ungiven = λ j lo hi. omega (arith, fewer_held (s.pool.base + j), v.ungiven j lo hi);
          targets = rest;
          untouched = λ j lo hi. rw place (
              get_or-set_ne s.pool.index (a - s.pool.base) 0 (omega (arith, lt, lo, v.balance))
              ∙ v.untouched j lo hi);
        }
