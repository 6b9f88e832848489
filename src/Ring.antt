-- ===== src/Ring.antt =====
-- `ring_buffer` of src/ring_buffer.h: many threads claim slots, fill them and publish them in the
-- order of their claims; one thread reads. Each function is one call by one thread; the atomic
-- steps of several threads are interleaved in `Threads`.
pub mod Threads
pub mod Tests
use slicksocket.Base.{
  ℕ, ◌+◌, ◌-◌, Bool, true, false, not, ◌&&◌, Option, none, some, List, bit_and, ◌==◌, leb,
  if◌then◌else◌, get_elem?, set, add64, sub64,
}

pub record Ring {ℓ} (A : Type ℓ) : Type ℓ where
  pub buffer : List A
  pub capacity : ℕ
  pub cursor : ℕ
  pub reserved : ℕ

-- `ring_buffer::slot`, without its pointer to the ring.
pub record Slot : Type 0 where
  pub start : ℕ
  pub size : ℕ
  pub discard : Bool

module _ {ℓ} {A : Type ℓ} where
  -- The constructor, over what `new T[size]` returns; `none` is a failed assertion.
  pub create : Bool → List A → ℕ → Option (Ring A)
  create debug memory size =
      if debug && not (not (size == 0) && bit_and size (size - 1) == 0)
      then none
      else some (record { buffer = memory; capacity = size; cursor = 0; reserved = 0 })

  abbrev pub index : Ring A → ℕ → ℕ
  index r position = bit_and position (r.capacity - 1)

  -- How many elements can be read at all.
  pub size : Ring A → ℕ
  size r = if leb r.cursor r.capacity then r.cursor else r.capacity

  pub is_empty : Ring A → Bool
  is_empty r = r.cursor == 0

  -- `operator[]`; `none` outside the memory.
  pub at : Ring A → ℕ → Option A
  at r position = get_elem? r.buffer (index r position)

  unfoldable pub available : Ring A → ℕ
  available r = r.cursor

  pub reserve : Ring A → ℕ → Slot × Ring A
  reserve r num = (
    record { start = r.reserved; size = num; discard = false },
    record r { reserved = add64 r.reserved num },
  )

  -- `slot[i] = value`.
  pub store : Ring A → Slot → ℕ → A → Ring A
  store r s i value = record r { buffer = set r.buffer (index r (add64 s.start i)) value }

  -- `ring_buffer::publish`; `none` while it waits for the slots before.
  pub publish_at : Ring A → ℕ → ℕ → Option (Ring A)
  publish_at r start num =
      if r.cursor == start then some (record r { cursor = add64 r.cursor num }) else none

  -- `slot::publish()`: all of the slot.
  pub publish : Ring A → Slot → Option (Ring A)
  publish r s = publish_at r s.start s.size

  -- `slot::publish(num)`: its first elements, and the slot that is left.
  pub publish_some : Ring A → Slot → ℕ → Option (Slot × Ring A)
  publish_some r s num = if s.size == 0 then some (s, r) else elim (publish_at r s.start num) [
    | none ↦ none
    | some r' ↦ some (record s { start = add64 s.start num; size = sub64 s.size num }, r')
  ]

pub invalidate : Slot → Slot
invalidate s = record s { discard = true }

pub is_valid : Slot → Bool
is_valid s = not s.discard
