-- ===== src/StringRing/View.antt =====
-- The strings that a `ring_string_buffer` holds, oldest first, as a predicate on its bytes.
use slicksocket.Base.{
  ℕ, ◌+◌, ◌-◌, ◌%◌, ◌^◌, ◌≤◌, ◌<◌, ◌≡◌, refl, sym, ◌∙◌, ◌⊎◌, inl, inr, false, List, [], ◌∷◌, ◌++◌,
  arith, length, get_or, read_at, read_at-agree, u32_bytes, mod-ahead, IsPowerOfTwo,
}
use slicksocket.StringRing.{StringRing, flag_ok, flag_skip}

-- At position q stands the header of the string m, and behind it m, in one piece.
pub record Entry (mem : List ℕ) (size q : ℕ) (m : List ℕ) : Type 0 where
  pub flag : get_or mem (q % size) 0 ≡ flag_ok
  pub fits : q % size + 5 + length m < size
  pub nonempty : 0 < length m
  pub len : read_at mem (q % size + 1) 4 ≡ u32_bytes (length m)
  pub body : read_at mem (q % size + 5) (length m) ≡ m

-- The string that comes next after position p starts at q: there, or at the start of the buffer
-- behind a SKIP mark.
abbrev pub Starts : List ℕ → ℕ → ℕ → ℕ → Type 0
Starts mem size p q =
    (q ≡ p) ⊎ ((get_or mem (p % size) 0 ≡ flag_skip) × (q ≡ p + (size - p % size)))

-- From p up to e the buffer holds these strings and nothing else.
abbrev pub Holds : List ℕ → ℕ → ℕ → ℕ → List (List ℕ) → Type 0
Holds mem size p e [] = p ≡ e
Holds mem size p e (m ∷ ms) =
    (q : ℕ) × Starts mem size p q × Entry mem size q m × Holds mem size (q + 5 + length m) e ms

-- Between two calls of `write`, with the strings that wait for the reader.
pub record IsReady (s : StringRing) (ms : List (List ℕ)) : Type 0 where
  pub power : IsPowerOfTwo s.size
  pub small : s.size ≤ 2 ^ 31
  pub allocated : length s.buffer ≡ s.size
  pub unskipped : s.skip ≡ false
  pub idle : s.writing_cursor ≡ 0
  pub quiet : s.resetting ≡ false
  pub unlocked : s.writing ≡ false
  pub published : s.writing_begin ≡ s.cursor
  pub claimed : s.reserved ≡ s.cursor
  pub bounded : s.cursor < 2 ^ 64
  pub behind : s.reading_cursor ≤ s.cursor
  pub room : s.cursor < s.reading_cursor + s.size
  pub reader : s.reading_begin ≡ s.reading_cursor % s.size
  pub strings : Holds s.buffer s.size s.reading_cursor s.cursor ms

abbrev pub AgreeFrom : List ℕ → List ℕ → ℕ → ℕ → ℕ → Type 0
AgreeFrom mem mem' size p e =
    (x : ℕ) → p ≤ x → x < e → get_or mem (x % size) 0 ≡ get_or mem' (x % size) 0

module _ (mem : List ℕ) (size : ℕ) where
  pub Starts-le : (p q : ℕ) → Starts mem size p q → p ≤ q
  Starts-le p q st = omega arith

  pub Holds-le : (p e : ℕ) (ms : List (List ℕ)) → Holds mem size p e ms → p ≤ e
  Holds-le p e [] h = omega arith
  Holds-le p e (m ∷ ms) (q, st, en, h) = omega (arith, Holds-le (q + 5 + length m) e ms h)

module _ (mem mem' : List ℕ) (size : ℕ) where
  -- A block that does not go round the end, seen through positions.
  agree-block :
      (q i d n : ℕ)
      → q % size + d + n ≤ size
      → i ≡ q % size + d
      → AgreeFrom mem mem' size (q + d) (q + d + n)
      → read_at mem i n ≡ read_at mem' i n
  agree-block q i d n fits e agree = read_at-agree mem mem' i n λ j lo hi.
      let x : ℕ = q + (j - q % size) in
      let same : x % size ≡ j = omega (arith, mod-ahead q (j - q % size) size) in
      rw (← same) (agree x (omega arith) (omega arith))

  pub Entry-frame :
      (q : ℕ) (m : List ℕ)
      → AgreeFrom mem mem' size q (q + 5 + length m)
      → Entry mem size q m
      → Entry mem' size q m
  Entry-frame q m agree e = record {
    flag = sym (agree q (omega arith) (omega arith)) ∙ e.flag;
    fits = e.fits;
    nonempty = e.nonempty;
    len =
        sym (
          agree-block q (q % size + 1) 1 4 (omega (arith, e.fits)) refl
            λ x lo hi. agree x (omega arith) (omega arith))
        ∙ e.len;
    body =
        sym (
          agree-block q (q % size + 5) 5 (length m) (omega (arith, e.fits)) refl
            λ x lo hi. agree x (omega arith) (omega arith))
        ∙ e.body;
  }

  pub Starts-frame :
      (p q e : ℕ) → p < e → AgreeFrom mem mem' size p e → Starts mem size p q → Starts mem' size p q
  Starts-frame p q e h agree (inl same) = inl same
  Starts-frame p q e h agree (inr (mark, next)) = inr (sym (agree p (omega arith) h) ∙ mark, next)

  -- Bytes outside the region do not matter.
  pub Holds-frame :
      (p e : ℕ) (ms : List (List ℕ))
      → 0 < size
      → AgreeFrom mem mem' size p e
      → Holds mem size p e ms
      → Holds mem' size p e ms
  Holds-frame p e [] pos agree h = h
  Holds-frame p e (m ∷ ms) pos agree (q, st, en, h) =
      let after = Holds-le mem size (q + 5 + length m) e ms h in
      let before : p < e = omega (arith, Starts-le mem size p q st) in
      (
        q,
        Starts-frame p q e before agree st,
        Entry-frame q m
            (λ x lo hi. agree x (omega (arith, Starts-le mem size p q st)) (omega arith)) en,
        Holds-frame (q + 5 + length m) e ms pos
            (λ x lo hi. agree x (omega (arith, Starts-le mem size p q st)) (omega arith)) h,
      )

pub Holds-snoc :
    (mem : List ℕ) (size p e q : ℕ) (ms : List (List ℕ)) (m : List ℕ)
    → Holds mem size p e ms
    → Starts mem size e q
    → Entry mem size q m
    → Holds mem size p (q + 5 + length m) (ms ++ m ∷ [])
Holds-snoc mem size p e q [] m h st en = (q, rw h st, en, refl)
Holds-snoc mem size p e q (n ∷ ms) m (q', st', en', h) st en =
    (q', st', en', Holds-snoc mem size (q' + 5 + length n) e q ms m h st en)
