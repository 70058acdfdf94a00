-- ===== src/LinearBuffer.antt =====
-- eestv/data/linear_buffer.hpp and eestv/data/linear_buffer.cpp: a byte buffer whose readable and
-- writable regions are contiguous. A pointer into `_buffer` is its index; a null pointer is `none`.
pub mod Invariant
pub mod Contents
pub mod Refine
mod Examples
use eestv_lib.Common.{
  ℕ, ◌+◌, ◌-◌, ◌^◌, Bool, true, false, Option, none, some, List, ltb, ◌==◌, if◌then◌else◌, u64,
  length, store, replicate,
}

-- `std::size_t` arithmetic wraps.
abbrev pub add_size : ℕ → ℕ → ℕ
add_size a b = u64 (a + b)

abbrev pub sub_size : ℕ → ℕ → ℕ
sub_size a b = u64 (a + 2 ^ 64 - b)

pub record LinearBuffer : Type 0 where
  pub buffer : List ℕ
  pub head : ℕ
  pub tail : ℕ
  pub size : ℕ

-- `std::vector<std::uint8_t> _buffer(size)` is `size` zero bytes.
unfoldable pub make : ℕ → LinearBuffer
make capacity = record { buffer = replicate capacity 0; head = 0; tail = 0; size = 0 }

-- `size_out` and the pointer.
unfoldable pub get_read_head : LinearBuffer → ℕ × Option ℕ
get_read_head b = (b.size, if ltb 0 b.size then some b.tail else none)

unfoldable pub reset_if_empty : LinearBuffer → LinearBuffer
reset_if_empty b = if b.size == 0 then record b { head = 0; tail = 0 } else b

unfoldable pub consume : ℕ → LinearBuffer → LinearBuffer × Bool
unfolding reset_if_empty
consume n b =
    if ltb b.size n
    then (b, false)
    else (reset_if_empty (record b { tail = add_size b.tail n; size = sub_size b.size n }), true)

unfoldable pub get_write_head : LinearBuffer → ℕ × Option ℕ
get_write_head b =
    let space_to_end = sub_size (length b.buffer) b.head in
    let total_free = sub_size (length b.buffer) b.size in
    let size_out = if ltb space_to_end total_free then space_to_end else total_free in
    (size_out, if ltb 0 size_out then some b.head else none)

unfoldable pub commit : ℕ → LinearBuffer → LinearBuffer × Bool
unfolding get_write_head
commit n b =
    if ltb (get_write_head b).0 n
    then (b, false)
    else (record b { head = add_size b.head n; size = add_size b.size n }, true)

-- A client's write of bytes through a pointer into the buffer, such as `std::memcpy`.
unfoldable pub write_at : ℕ → List ℕ → LinearBuffer → LinearBuffer
write_at p bytes b = record b { buffer = store b.buffer p bytes }
