-- ===== src/StringRing/Write/Block.antt =====
-- The bytes of one string as `write` lays them down: flag, length, content.
use slicksocket.Base.{
  ℕ, ◌+◌, ◌%◌, ◌≤◌, ◌<◌, ◌≡◌, sym, ◌∙◌, ap, ◌⊎◌, inl, List, arith, length, get_or, set, length-set,
  get_or-set_self, get_or-set_ne, write_at, read_at, read_at-write_at, read_at-agree,
  get_or-write_at, length-write_at, u32_bytes,
}
use slicksocket.StringRing.{flag_ok}
use slicksocket.StringRing.View.{Entry}

module _ (mem : List ℕ) (i : ℕ) (m : List ℕ) where
  abbrev pub with_header : List ℕ
  with_header = write_at (set mem i flag_ok) (i + 1) (u32_bytes (length m))

  abbrev pub block : List ℕ
  block = write_at with_header (i + 5) m

  length-with_header : length with_header ≡ length mem
  length-with_header =
      length-write_at (set mem i flag_ok) (i + 1) (u32_bytes (length m)) ∙ length-set mem i flag_ok

  pub length-block : length block ≡ length mem
  length-block = length-write_at with_header (i + 5) m ∙ length-with_header

  pub get_or-block : (j : ℕ) → (j < i) ⊎ (i + 5 + length m ≤ j) → get_or mem j 0 ≡ get_or block j 0
  get_or-block j h =
      sym (get_or-set_ne mem flag_ok 0 (omega arith))
      ∙ sym (get_or-write_at (set mem i flag_ok) (i + 1) (u32_bytes (length m)) j (omega arith))
      ∙ sym (get_or-write_at with_header (i + 5) m j (omega arith))

  pub block-Entry :
      (size q : ℕ)
      → q % size ≡ i
      → i + 5 + length m < size
      → length mem ≡ size
      → 0 < length m
      → Entry block size q m
  block-Entry size q e fits len pos = record {
    flag = rw e (
        get_or-write_at with_header (i + 5) m i (inl (omega arith))
        ∙ get_or-write_at (set mem i flag_ok) (i + 1) (u32_bytes (length m)) i (inl (omega arith))
        ∙ get_or-set_self mem i flag_ok 0 (omega arith));
    fits = omega arith;
    nonempty = pos;
    len =
        ap (λ k. read_at block (k + 1) 4) e
        ∙ read_at-agree block with_header (i + 1) 4
            (λ j lo hi. get_or-write_at with_header (i + 5) m j (inl (omega arith)))
        ∙ read_at-write_at (set mem i flag_ok) (i + 1) (u32_bytes (length m))
            (omega (arith, length-set mem i flag_ok));
    body =
        ap (λ k. read_at block (k + 5) (length m)) e
        ∙ read_at-write_at with_header (i + 5) m (omega (arith, length-with_header));
  }
