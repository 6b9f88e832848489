-- ===== src/StringRing.antt =====
-- `ring_string_buffer` of src/ring_buffer.h: strings of bytes in a ring, one writing thread and one
-- reading thread. Each function takes the members of the object as a record and returns the new
-- ones. Here are the object, `read`, `reset` and `_notify`; `Write` has `write`.
pub mod Write
pub mod View
mod ReadEntry
pub mod Dequeue
pub mod Lifecycle
pub mod History
use slicksocket.Base.{
  ℕ, ◌+◌, ◌-◌, Bool, true, false, not, ◌&&◌, ◌||◌, Option, none, some, List, [], bit_and, ◌==◌,
  if◌then◌else◌, get_or, set, add64, add32, read_at, u32_of,
}

pub record StringRing : Type 0 where
  pub buffer : List ℕ
  pub size : ℕ
  pub writing_cursor : ℕ
  pub writing_begin : ℕ
  pub reading_cursor : ℕ
  pub total : ℕ
  pub remaining : ℕ
  pub reset_count : ℕ
  pub skip : Bool
  pub cursor : ℕ
  pub reserved : ℕ
  pub reading_begin : ℕ
  pub writing : Bool
  pub resetting : Bool

-- `enum class flag`, as the byte that is stored.
abbrev pub flag_ok : ℕ
flag_ok = 0

abbrev pub flag_invalid : ℕ
flag_invalid = 1

abbrev pub flag_skip : ℕ
flag_skip = 2

pub fresh : List ℕ → ℕ → StringRing
fresh memory size = record {
  buffer = memory;
  size = size;
  writing_cursor = 0;
  writing_begin = 0;
  reading_cursor = 0;
  total = 0;
  remaining = 0;
  reset_count = 0;
  skip = false;
  cursor = 0;
  reserved = 0;
  reading_begin = 0;
  writing = false;
  resetting = false;
}

-- The constructor. `memory` is what `new char[size]` returns; `debug` is false under NDEBUG, and
-- `none` is a failed assertion.
pub create : Bool → List ℕ → ℕ → Option StringRing
create debug memory size =
    if debug && not (not (size == 0) && bit_and size (size - 1) == 0)
    then none
    else some (fresh memory size)

-- `position & mask_`, where `mask_` is `size_ - 1`.
abbrev pub index : StringRing → ℕ → ℕ
index s position = bit_and position (s.size - 1)

pub store_flag : StringRing → ℕ → ℕ → StringRing
store_flag s position f = record s { buffer = set s.buffer (index s position) f }

-- `_notify`. Only the writer changes `cursor_` and `writing_begin_`: if they differ, the loop has
-- no end.
pub notify : StringRing → ℕ → Option StringRing
notify s num =
    if s.cursor == s.writing_begin
    then some (record s { cursor = add64 s.cursor num; writing_begin = add64 s.writing_begin num })
    else none

-- `read`: the place and the length of the next string, or `(nullptr, 0)`.
abbrev pub Slice : Type 0
Slice = Option ℕ × ℕ

pub advance : StringRing → ℕ → StringRing
advance s position = record s { reading_cursor = position; reading_begin = index s position }

pub stored_length : StringRing → ℕ → ℕ
stored_length s position = u32_of (read_at s.buffer (index s position) 4)

-- What `read` does with the flag that it has loaded.
pub read_rest : ℕ → StringRing → Slice × StringRing
unfolding advance stored_length
read_rest flg s =
    if flg == flag_skip
    then ((none, 0), advance s (if index s at == 0 then at else add64 at (s.size - index s at)))
    else if flg == flag_invalid
    then ((none, 0), advance s (add64 at (add32 len 4)))
    else ((some (index s (add64 at 4)), len), advance s (add64 at (add32 len 4)))
  where
    at : ℕ
    at = add64 s.reading_cursor 1

    len : ℕ
    len = stored_length s at

abbrev pub next_flag : StringRing → ℕ
next_flag s = get_or s.buffer (index s s.reading_cursor) 0

pub read_entry : StringRing → Slice × StringRing
unfolding read_rest
read_entry s = read_rest (next_flag s) s

-- The test of `read`, on the value of `cursor_` that it has loaded.
abbrev pub has_more : StringRing → ℕ → Bool
has_more s cursor = not s.resetting && not (s.reading_begin == index s cursor)

pub read : StringRing → Slice × StringRing
read s = if has_more s s.cursor then read_entry s else ((none, 0), s)

-- The bytes that the caller of `read` is pointed to.
abbrev pub bytes_of : StringRing → Slice → List ℕ
bytes_of s (none, n) = []
bytes_of s (some at, n) = read_at s.buffer at n

-- `reset`, up to its loop that waits for a `write` in progress, and from there on.
pub reset_begin : StringRing → StringRing
reset_begin s = record s { reset_count = add32 s.reset_count 1; resetting = true }

pub reset_end : StringRing → StringRing
reset_end s = record s {
  reserved = 0;
  cursor = 0;
  reading_cursor = 0;
  writing_begin = 0;
  writing_cursor = 0;
  reading_begin = index s 0;
  resetting = false;
}

-- `none`: it waits for the writer.
pub reset : StringRing → Option StringRing
unfolding reset_begin reset_end
reset s = if s.writing then none else some (reset_end (reset_begin s))
