-- ===== src/LinearBuffer/Invariant.antt =====
-- The representation invariant of `LinearBuffer` and the bounds that it gives.
use eestv_lib.Common.{
  ℕ, ◌+◌, ◌-◌, ◌^◌, ◌≤◌, ◌<◌, ◌≡◌, List, arith, length, length-store, length-replicate,
}
use eestv_lib.LinearBuffer.{
  LinearBuffer, make, get_read_head, consume, get_write_head, commit, write_at,
}

-- The data lies in `[tail, head)`, inside the storage, and an empty buffer starts at the front.
pub record IsValid (b : LinearBuffer) : Type 0 where
  pub filled : b.tail + b.size ≡ b.head
  pub inside : b.head ≤ length b.buffer
  pub small : length b.buffer < 2 ^ 64
  pub rewound : b.size ≡ 0 → b.head ≡ 0

-- A new buffer of any capacity that fits in `size_t` is valid.
pub make-IsValid : (n : ℕ) → n < 2 ^ 64 → IsValid (make n)
unfolding make
make-IsValid n h = omega (arith, length-replicate {A = ℕ} n 0)

-- `consume` keeps a buffer valid, whatever size is asked for.
pub consume-IsValid : (n : ℕ) {b : LinearBuffer} → IsValid b → IsValid (consume n b).0
unfolding consume
consume-IsValid n v = ground arith

-- `commit` keeps a buffer valid, whatever size is reported.
pub commit-IsValid : (n : ℕ) {b : LinearBuffer} → IsValid b → IsValid (commit n b).0
unfolding commit
commit-IsValid n v = ground arith

pub write_at-IsValid :
    (p : ℕ) (bytes : List ℕ) {b : LinearBuffer} → IsValid b → IsValid (write_at p bytes b)
unfolding write_at
write_at-IsValid p bytes {b} v = ground (arith, length-store b.buffer p bytes)

-- The writable region is what lies behind the head: freed space in front of the data does not count.
pub get_write_head_size :
    {b : LinearBuffer} → IsValid b → (get_write_head b).0 ≡ length b.buffer - b.head
unfolding get_write_head
get_write_head_size v = ground arith

-- In a valid buffer the regions handed to a client lie inside the storage, and the one to read ends at
-- or before the one to write.
pub heads_in_bounds :
    (b : LinearBuffer)
    → IsValid b
    → (b.tail + (get_read_head b).0 ≤ length b.buffer)
      × (b.head + (get_write_head b).0 ≤ length b.buffer)
      × (b.tail + (get_read_head b).0 ≤ b.head)
unfolding get_read_head get_write_head
heads_in_bounds b v = ground arith
