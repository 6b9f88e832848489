-- ===== src/Pool/Threads/Safe.antt =====
-- What holds in every interleaving of the threads of an `object_pool`; `get_obj` keeps it.
use slicksocket.Base.{
  ℕ, suc, ◌+◌, ◌^◌, ◌≤◌, ◌<◌, ◌≡◌, ◌≢◌, refl, inl, inr, ap, ◌∙◌, true, false, List, [], ◌∷◌, ◌==◌,
  ==_iff, Bool-cases, arith, get_or, bit_and, length, IsPowerOfTwo, bit_and-mask, mod-eq_of_lt,
  add64,
}
use slicksocket.Pool.{mask, object}
use slicksocket.Pool.Discipline.{owned, pooled, IsLive, remove}
use slicksocket.Pool.Threads.{Hands, test, is_good, tally, times_held}
use slicksocket.Pool.Threads.Tally.{tally-remove, objects-remove, Targets}

pub record IsSafe (s : Hands) : Type 0 where
  pub power : IsPowerOfTwo s.pool.size
  pub small : s.pool.size ≤ 2 ^ 62
  pub allocated : length s.pool.index ≡ s.pool.size
  pub ahead : s.pool.read_cursor + s.passed ≤ s.pool.size
  pub balance :
      s.pool.write_cursor + length s.claimed + pooled s.pool.base s.pool.size s.live
      ≤ s.pool.read_cursor
  pub one_claim : (i : ℕ) → tally i s.claimed ≤ 1
  pub below_claim : (i : ℕ) → s.pool.read_cursor ≤ i → tally i s.claimed ≡ 0
  pub once : (a : ℕ) → times_held s a ≤ 1
  pub ungiven :
      (j : ℕ) → s.pool.read_cursor ≤ j → j < s.pool.size → times_held s (s.pool.base + j) ≡ 0
  pub targets : Targets s.pool.base s.pool.size s.pool.write_cursor s.releasing
  pub untouched : (j : ℕ) → s.pool.read_cursor ≤ j → j < s.pool.size → get_or s.pool.index j 0 ≡ j

module _ {s : Hands} (v : IsSafe s) where
  pub test-IsSafe : s.passed < 2 → test s.pool ≡ true → IsSafe (record s { passed = suc s.passed })
  test-IsSafe few room = record {
    power = v.power;
    small = v.small;
    allocated = v.allocated;
    ahead = ground (arith, few, room, v.ahead);
    balance = v.balance;
    one_claim = v.one_claim;
    below_claim = v.below_claim;
    once = v.once;
    ungiven = v.ungiven;
    targets = v.targets;
    untouched = v.untouched;
  }

  not_own :
      (heap j : ℕ)
      → owned s.pool.base s.pool.size heap ≡ false
      → j < s.pool.size
      → s.pool.base + j ≢ heap
  not_own heap j outside lt = ground (arith, outside, lt)

  pub allocate-IsSafe :
      (heap : ℕ)
      → owned s.pool.base s.pool.size heap ≡ false
      → times_held s heap ≡ 0
      → IsSafe (record s { live = heap ∷ s.live })
  allocate-IsSafe heap outside free = record {
    power = v.power;
    small = v.small;
    allocated = v.allocated;
    ahead = v.ahead;
    balance = ground (arith, v.balance, outside);
    one_claim = v.one_claim;
    below_claim = v.below_claim;
    once = λ a. elim (Bool-cases (a == heap)) [
      | inl same ↦ rw same (omega (arith, free, ap (times_held s) ((==_iff a heap).0 same)))
      | inr other ↦ rw other (omega (arith, v.once a))
    ];
    ungiven = λ j lo hi. ground (arith, not_own heap j outside hi, v.ungiven j lo hi);
    targets = v.targets;
    untouched = v.untouched;
  }

  next_object :
      s.pool.read_cursor < s.pool.size
      → object s.pool s.pool.read_cursor ≡ s.pool.base + s.pool.read_cursor
  next_object lt =
      let i : bit_and s.pool.read_cursor (mask s.pool) ≡ s.pool.read_cursor =
        bit_and-mask s.pool.size s.pool.read_cursor v.power ∙ mod-eq_of_lt lt in
      rw i (omega (arith, v.untouched s.pool.read_cursor (omega arith) lt))

  pub claim-IsSafe :
      (n : ℕ)
      → s.passed ≡ suc n
      → IsSafe (record s {
        passed = n;
        claimed = s.pool.read_cursor ∷ s.claimed;
        pool = record s.pool { read_cursor = add64 s.pool.read_cursor 1 };
      })
  claim-IsSafe n some_one =
      let lt : s.pool.read_cursor < s.pool.size = omega (arith, v.ahead, some_one) in
      let c : add64 s.pool.read_cursor 1 ≡ s.pool.read_cursor + 1 = omega (arith, lt, v.small) in
      let o = next_object lt in
      record {
        power = v.power;
        small = v.small;
        allocated = v.allocated;
        ahead = omega (arith, c, v.ahead, some_one);
        balance = omega (arith, c, v.balance);
        one_claim = λ i. ground (arith, v.one_claim i, v.below_claim i);
        below_claim = λ i lo. ground (arith, c, v.below_claim i);
        once = λ a. elim (Bool-cases (a == object s.pool s.pool.read_cursor)) [
          | inl same ↦ rw same (
              omega (
                arith,
                v.ungiven s.pool.read_cursor (omega arith) lt,
                ap (times_held s) ((==_iff a (object s.pool s.pool.read_cursor)).0 same ∙ o),
              ))
          | inr other ↦ rw other (omega (arith, v.once a))
        ];
        ungiven = λ j lo hi. ground (arith, o, c, v.ungiven j);
        targets = v.targets;
        untouched = λ j lo hi. v.untouched j (omega (arith, c, lo)) hi;
      }

  claimed_below : (i : ℕ) → IsLive i s.claimed → i < s.pool.read_cursor
  claimed_below i live = ground (arith, v.below_claim i, tally-remove i i s.claimed live)

  length-remove : (i : ℕ) (l : List ℕ) → IsLive i l → length l ≡ suc (length (remove i l))
  length-remove i [] h = absurd h
  length-remove i (c ∷ l) (inl e) = rw (e, (==_iff c c).1 refl)
  length-remove i (c ∷ l) (inr h) = elim (Bool-cases (i == c)) [
    | inl same ↦ rw same
    | inr other ↦ rw other (ap suc (length-remove i l h))
  ]

  pub take-IsSafe :
      (i : ℕ)
      → IsLive i s.claimed
      → IsSafe (record s { claimed = remove i s.claimed; live = object s.pool i ∷ s.live })
  take-IsSafe i live = record {
    power = v.power;
    small = v.small;
    allocated = v.allocated;
    ahead = v.ahead;
    balance = ground (arith, v.balance, length-remove i s.claimed live);
    one_claim = λ k. omega (arith, v.one_claim k, tally-remove k i s.claimed live);
    below_claim = λ k lo. omega (arith, v.below_claim k lo, tally-remove k i s.claimed live);
    once = λ a. omega (arith, v.once a, objects-remove s.pool a i s.claimed live);
    ungiven = λ j lo hi.
        omega (arith, v.ungiven j lo hi, objects-remove s.pool (s.pool.base + j) i s.claimed live);
    targets = v.targets;
    untouched = v.untouched;
  }

  pub always_good : (i : ℕ) → IsLive i s.claimed → is_good s.pool i ≡ true
  always_good i live = ground (arith, claimed_below i live, v.ahead)
