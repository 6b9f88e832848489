-- ===== src/Service/Registry.antt =====
-- `s_global_service`, the services that clients share by the path of their certificates, and
-- `socket_service::global`. A service is named by its address.
pub mod Lock
use slicksocket.Base.{
  ℕ, ◌≡◌, refl, sym, subst, ap, ap₂, ◌∙◌, Bool, true, false, ◌&&◌, Option, none, some, List, [],
  ◌∷◌, arith, ◌==◌, ==_iff, get_elem?, if◌then◌else◌, Bool-cases, inl, inr, zero, suc, map,
}
use slicksocket.Url.{same_text}
use slicksocket.Url.Search.{same_text_refl, same_text-eq}

pub record Shared : Type 0 where
  pub path : List ℕ
  pub service : ℕ

abbrev pub Registry : Type 0
Registry = List Shared

abbrev pub find : List ℕ → Registry → Option ℕ
find path [] = none
find path (e ∷ l) = if same_text e.path path then some e.service else find path l

-- `global` after its `find`. `made` is what `new socket_service` gives.
abbrev pub answer_with : Option ℕ → ℕ → List ℕ → Registry → ℕ × Registry
answer_with (some a) made path l = (a, l)
answer_with none made path l = (made, record { path = path; service = made } ∷ l)

-- `global`, when no other thread runs it.
abbrev pub global : ℕ → List ℕ → Registry → ℕ × Registry
global made path l = answer_with (find path l) made path l

-- The destructor of `s_destroyer`: the services that it deletes, and the map that is left.
pub destroy_all : Registry → List ℕ × Registry
destroy_all l = (map (λ e. e.service) l, [])

pub record Call : Type 0 where
  pub path : List ℕ
  pub made : ℕ
  pub answer : ℕ

-- The calls one by one, the newest first.
abbrev pub replay : List Call → Registry
replay [] = []
replay (c ∷ l) = (global c.made c.path (replay l)).1

abbrev pub IsAnswered : List Call → Type 0
IsAnswered [] = Unit {0}
IsAnswered (c ∷ l) = ((global c.made c.path (replay l)).0 ≡ c.answer) × IsAnswered l

-- What `global` answers is in the map from then on.
answer_with-find :
    (o : Option ℕ) (made : ℕ) (path : List ℕ) (l : Registry)
    → find path l ≡ o
    → find path (answer_with o made path l).1 ≡ some (answer_with o made path l).0
answer_with-find (some a) made path l e = e
answer_with-find none made path l e = rw (same_text_refl path) refl

-- What is in the map stays there.
answer_with-kept :
    (o : Option ℕ) (made : ℕ) (path q : List ℕ) (l : Registry) {b : ℕ}
    → find path l ≡ o
    → find q l ≡ some b
    → find q (answer_with o made path l).1 ≡ some b
answer_with-kept (some a) made path q l e f = f
answer_with-kept none made path q l e f = elim (Bool-cases (same_text path q)) [
  | inl same ↦ absurd (none-ne-some (sym e ∙ ap (λ p. find p l) (same_text-eq path q same) ∙ f))
  | inr other ↦ rw other f
]
  where
    none-ne-some : {a : ℕ} → none ≡ some a → ⊥
    none-ne-some e = ground arith

some-inj : {A : Type 0} {a b : A} → some a ≡ some b → a ≡ b
some-inj e = ground arith

-- Every answer is in the map.
IsAnswered-find :
    (l : List Call) (n : ℕ) {c : Call}
    → IsAnswered l
    → get_elem? l n ≡ some c
    → find c.path (replay l) ≡ some c.answer
IsAnswered-find [] n v e = absurd (ground arith)
IsAnswered-find (d ∷ l) zero {c} (answered, v) e =
    let same : d ≡ c = some-inj e in
    subst (λ x. find x.path (replay (d ∷ l)) ≡ some x.answer) same
      (answer_with-find (find d.path (replay l)) d.made d.path (replay l) refl ∙ ap some answered)
IsAnswered-find (d ∷ l) (suc n) {c} (answered, v) e =
    answer_with-kept (find d.path (replay l)) d.made d.path c.path (replay l) refl
      (IsAnswered-find l n v e)

-- One service for one path: whatever calls come before, between and after, two calls of `global`
-- with the same path have the same answer.
pub IsAnswered-same :
    (l : List Call) (m n : ℕ) {c d : Call}
    → IsAnswered l
    → get_elem? l m ≡ some c
    → get_elem? l n ≡ some d
    → c.path ≡ d.path
    → c.answer ≡ d.answer
IsAnswered-same l m n v e f same =
    some-inj
      (sym (IsAnswered-find l m v e) ∙ ap (λ p. find p (replay l)) same ∙ IsAnswered-find l n v f)
