-- ===== src/Base/Memory.antt =====
-- Byte memory: `memcpy` into a list of bytes, and what a reader finds there.
use Prim.Native.Nat.{ℕ, zero, suc, ◌+◌, ◌*◌, ◌/◌, ◌%◌, ◌^◌, ◌≤◌, ◌<◌}
use mathlib.Core.Path.{◌≡◌, refl, ap, ap₂, ◌∙◌}
use mathlib.Core.Logic.{◌⊎◌, inl}
use mathlib.Core.List.{List, [], ◌∷◌, ◌++◌}
use native.Mathlib.Omega.{arith}
use slicksocket.Base.Lists.{length, get_or, set, length-set, get_or-set_self, get_or-set_ne}

abbrev pub write_at : List ℕ → ℕ → List ℕ → List ℕ
write_at mem i [] = mem
write_at mem i (x ∷ xs) = write_at (set mem i x) (suc i) xs

abbrev pub read_at : List ℕ → ℕ → ℕ → List ℕ
read_at mem i zero = []
read_at mem i (suc n) = get_or mem i 0 ∷ read_at mem (suc i) n

pub length-write_at : (mem : List ℕ) (i : ℕ) (xs : List ℕ) → length (write_at mem i xs) ≡ length mem
length-write_at mem i [] = refl
length-write_at mem i (x ∷ xs) = length-write_at (set mem i x) (suc i) xs ∙ length-set mem i x

pub length-read_at : (mem : List ℕ) (i n : ℕ) → length (read_at mem i n) ≡ n
length-read_at mem i zero = refl
length-read_at mem i (suc n) = ap suc (length-read_at mem (suc i) n)

pub write_at-append :
    (mem : List ℕ) (i : ℕ) (xs ys : List ℕ)
    → write_at mem i (xs ++ ys) ≡ write_at (write_at mem i xs) (i + length xs) ys
write_at-append mem i [] ys = ap (λ k. write_at mem k ys) (omega arith)
write_at-append mem i (x ∷ xs) ys =
    write_at-append (set mem i x) (suc i) xs ys
    ∙ ap (λ k. write_at (write_at (set mem i x) (suc i) xs) k ys) (omega arith)

-- A cell outside the block that is written keeps its value.
pub get_or-write_at :
    (mem : List ℕ) (i : ℕ) (xs : List ℕ) (j : ℕ)
    → (j < i) ⊎ (i + length xs ≤ j)
    → get_or (write_at mem i xs) j 0 ≡ get_or mem j 0
get_or-write_at mem i [] j h = refl
get_or-write_at mem i (x ∷ xs) j h =
    get_or-write_at (set mem i x) (suc i) xs j (omega arith) ∙ get_or-set_ne mem x 0 (omega arith)

-- What is written is read back.
pub read_at-write_at :
    (mem : List ℕ) (i : ℕ) (xs : List ℕ)
    → i + length xs ≤ length mem
    → read_at (write_at mem i xs) i (length xs) ≡ xs
read_at-write_at mem i [] h = refl
read_at-write_at mem i (x ∷ xs) h =
    ap₂ ◌∷◌
      (get_or-write_at (set mem i x) (suc i) xs i (inl (omega arith))
        ∙ get_or-set_self mem i x 0 (omega arith))
      (read_at-write_at (set mem i x) (suc i) xs (omega (arith, length-set mem i x)))

-- Two memories that agree on a block hold the same bytes there.
pub read_at-agree :
    (mem mem' : List ℕ) (i n : ℕ)
    → ((j : ℕ) → i ≤ j → j < i + n → get_or mem j 0 ≡ get_or mem' j 0)
    → read_at mem i n ≡ read_at mem' i n
read_at-agree mem mem' i zero h = refl
read_at-agree mem mem' i (suc n) h =
    ap₂ ◌∷◌ (h i (omega arith) (omega arith))
      (read_at-agree mem mem' (suc i) n (λ j p q. h j (omega arith) (omega arith)))

-- A `uint32_t` in memory, lowest byte first.
abbrev pub u32_bytes : ℕ → List ℕ
u32_bytes n = n % 256 ∷ (n / 2 ^ 8 % 256) ∷ (n / 2 ^ 16 % 256) ∷ (n / 2 ^ 24 % 256) ∷ []

abbrev pub u32_of : List ℕ → ℕ
u32_of (a ∷ b ∷ c ∷ d ∷ []) = a + b * 2 ^ 8 + c * 2 ^ 16 + d * 2 ^ 24
u32_of _ = 0

pub u32_of-bytes : (n : ℕ) → n < 2 ^ 32 → u32_of (u32_bytes n) ≡ n
u32_of-bytes n h = omega arith
