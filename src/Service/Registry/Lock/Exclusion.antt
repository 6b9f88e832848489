-- ===== src/Service/Registry/Lock/Exclusion.antt =====
-- Mutual exclusion in `global`, and that its calls look as if they came one by one.
use slicksocket.Base.{
  some, ℕ, ◌≡◌, refl, sym, subst, ap, ◌∙◌, true, false, List, ◌∷◌, get_elem?, ◌==◌, ==_iff, arith,
  Bool-cases, inl, inr,
}
use slicksocket.Service.Registry.{
  Registry, find, Call, answer_with, replay, IsAnswered, IsAnswered-same, global,
}
use slicksocket.Service.Registry.Lock.{
  System, Phase, outside, locked, found, answered, is_inside, update, test_and_set, Step, spins,
  locks, finds, answers, unlocks, Reach, start, later, at_start,
}

-- What a thread that is past `find` has found.
abbrev PhaseIsSound : Registry → Phase → Type 0
PhaseIsSound l (found made path o) = find path l ≡ o
PhaseIsSound l _ = Unit {0}

record IsSound (s : System) : Type 0 where
  guarded : (i : ℕ) → is_inside (s.phase i) ≡ true → s.flag ≡ true
  alone : (i j : ℕ) → is_inside (s.phase i) ≡ true → is_inside (s.phase j) ≡ true → i ≡ j
  phases : (i : ℕ) → PhaseIsSound s.services (s.phase i)
  in_order : s.services ≡ replay s.log
  all_answered : IsAnswered s.log

at_start-IsSound : IsSound at_start
at_start-IsSound = record {
  guarded = λ i e. absurd (ground arith);
  alone = λ i j e f. absurd (ground arith);
  phases = λ i. tt;
  in_order = refl;
  all_answered = tt;
}

-- Nobody else is inside, once one is.
outside-IsSound : (l : Registry) (p : Phase) → is_inside p ≡ false → PhaseIsSound l p
outside-IsSound l outside e = tt
outside-IsSound l (locked made path) e = absurd (ground arith)
outside-IsSound l (found made path o) e = absurd (ground arith)
outside-IsSound l (answered a) e = absurd (ground arith)

update-other : (f : ℕ → Phase) (i : ℕ) (p : Phase) (j : ℕ) → (i == j) ≡ false → update f i p j ≡ f j
update-other f i p j e = rw e refl

update-inside :
    (f : ℕ → Phase) (i : ℕ) (p : Phase)
    → is_inside p ≡ is_inside (f i)
    → (j : ℕ) → is_inside (update f i p j) ≡ is_inside (f j)
update-inside f i p same j = elim (Bool-cases (i == j)) [
  | inl e ↦ rw e (same ∙ ap (λ k. is_inside (f k)) ((==_iff i j).0 e))
  | inr e ↦ rw e refl
]

others-outside :
    {s : System} (v : IsSound s) (i j : ℕ)
    → is_inside (s.phase i) ≡ true
    → (i == j) ≡ false
    → is_inside (s.phase j) ≡ false
others-outside {s = s} v i j inside other = elim (Bool-cases (is_inside (s.phase j))) [
  | inl e ↦ absurd (ground (arith, (==_iff i j).1 (v.alone i j inside e)))
  | inr e ↦ e
]

-- The one thread inside moves on.
moves-IsSound :
    {s : System} (v : IsSound s) (i : ℕ) (p : Phase) (l : Registry) (log : List Call)
    → is_inside (s.phase i) ≡ true
    → is_inside p ≡ true
    → PhaseIsSound l p
    → l ≡ replay log
    → IsAnswered log
    → IsSound (record s { services = l; phase = update s.phase i p; log = log })
moves-IsSound {s = s} v i p l log inside still sound replayed right =
    let kept = update-inside s.phase i p (still ∙ sym inside) in
    record {
      guarded = λ j e. v.guarded i inside;
      alone = λ j k e f. v.alone j k (sym (kept j) ∙ e) (sym (kept k) ∙ f);
      phases = λ j. elim (Bool-cases (i == j)) [
        | inl e ↦ rw e sound
        | inr e ↦ rw e (outside-IsSound l (s.phase j) (others-outside v i j inside e))
      ];
      in_order = replayed;
      all_answered = right;
    }

-- A thread gets the lock: nobody is inside.
locks-IsSound :
    {s : System} (v : IsSound s) (i made : ℕ) (path : List ℕ)
    → s.flag ≡ false
    → IsSound (record s { flag = true; phase = update s.phase i (locked made path) })
locks-IsSound {s = s} v i made path free = record {
  guarded = λ j e. refl;
  alone = λ j k e f. sym (it j e) ∙ it k f;
  phases = λ j. elim (Bool-cases (i == j)) [ inl e ↦ rw e tt | inr e ↦ rw e (v.phases j) ];
  in_order = v.in_order;
  all_answered = v.all_answered;
}
  where
    it : (j : ℕ) → is_inside (update s.phase i (locked made path) j) ≡ true → i ≡ j
    it j e = elim (Bool-cases (i == j)) [
      | inl same ↦ (==_iff i j).0 same
      | inr other ↦
          let was : is_inside (s.phase j) ≡ true =
            ap is_inside (sym (update-other s.phase i (locked made path) j other)) ∙ e in
          absurd (ground (arith, v.guarded j was))
    ]

unlocks-IsSound :
    {s : System} (v : IsSound s) (i : ℕ)
    → is_inside (s.phase i) ≡ true
    → IsSound (record s { flag = false; phase = update s.phase i outside })
unlocks-IsSound {s = s} v i inside = record {
  guarded = λ j e. absurd (ground (arith, nobody j));
  alone = λ j k e f. absurd (ground (arith, nobody j));
  phases = λ j. elim (Bool-cases (i == j)) [ inl e ↦ rw e tt | inr e ↦ rw e (v.phases j) ];
  in_order = v.in_order;
  all_answered = v.all_answered;
}
  where
    nobody : (j : ℕ) → is_inside (update s.phase i outside j) ≡ false
    nobody j = elim (Bool-cases (i == j)) [
      | inl e ↦ rw e refl
      | inr e ↦ rw e (others-outside v i j inside e)
    ]

Step-IsSound : {s t : System} → IsSound s → Step s t → IsSound t
unfolding test_and_set
Step-IsSound {s = s} v (spins i idle taken) = subst (λ b. IsSound (record s { flag = b })) taken v
Step-IsSound {s = s} v (locks i made path idle unset) = locks-IsSound v i made path unset
Step-IsSound {s = s} v (finds i made path at) =
    moves-IsSound v i (found made path (find path s.services)) s.services s.log (ap is_inside at)
      refl refl v.in_order v.all_answered
Step-IsSound {s = s} v (answers i made path o at) =
    let known : find path s.services ≡ o = subst (PhaseIsSound s.services) at (v.phases i) in
    let out = answer_with o made path s.services in
    let same : global made path (replay s.log) ≡ out =
      ap (global made path) (sym v.in_order) ∙ ap (λ p. answer_with p made path s.services) known in
    moves-IsSound v i (answered out.0) out.1
      (record { path = path; made = made; answer = out.0 } ∷ s.log) (ap is_inside at) refl tt
      (sym (ap (λ p. p.1) same)) (ap (λ p. p.0) same, v.all_answered)
Step-IsSound {s = s} v (unlocks i a at) = unlocks-IsSound v i (ap is_inside at)

Reach-IsSound : {s t : System} → IsSound s → Reach s t → IsSound t
Reach-IsSound v start = v
Reach-IsSound v (later r t) = Step-IsSound (Reach-IsSound v r) t

-- Whatever the interleaving of the calls of any number of threads: two of them are never past the
-- lock together.
pub Reach-alone :
    {s : System} (i j : ℕ)
    → Reach at_start s
    → is_inside (s.phase i) ≡ true
    → is_inside (s.phase j) ≡ true
    → i ≡ j
Reach-alone i j r = (Reach-IsSound at_start-IsSound r).alone i j

-- Whatever the interleaving of the calls of `global` by any number of threads: two calls with the
-- same path, in any order and with any others between them, answer the same service.
pub Reach-same :
    {s : System} (m n : ℕ) {c d : Call}
    → Reach at_start s
    → get_elem? s.log m ≡ some c
    → get_elem? s.log n ≡ some d
    → c.path ≡ d.path
    → c.answer ≡ d.answer
Reach-same {s = s} m n r = IsAnswered-same s.log m n (Reach-IsSound at_start-IsSound r).all_answered
