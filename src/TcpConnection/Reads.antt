-- ===== src/TcpConnection/Reads.antt =====
-- The receiving side of a connection: one read, over the region that the buffer hands out.
use eestv_lib.Common.{
  ℕ, ◌+◌, ◌≤◌, ◌<◌, ◌^◌, ◌≡◌, refl, Bool, List, [], ◌∷◌, arith, if◌then◌else◌, length, ltb, some,
  none,
}
use eestv_lib.Flags.{clear_flag}
use eestv_lib.LinearBuffer.{LinearBuffer, get_write_head}
use eestv_lib.LinearBuffer.Invariant.{IsValid, make-IsValid}
use eestv_lib.TcpConnection.{
  Connection, Region, start_receiving, resolve_on_stopped, cancel_async_operations, connect,
  async_receive, on_receive_error, async_send, begin_sending, on_send_error, on_send,
}

-- At most one read, over the region that the buffer hands out.
abbrev pub OneRead : List Region → LinearBuffer → Type 0
OneRead [] b = Unit {0}
OneRead ((p, n) ∷ []) b = (p ≡ b.head) × (n ≡ (get_write_head b).0)
OneRead (r ∷ q ∷ rest) b = ⊥

pub record ReadInv (c : Connection) : Type 0 where
  pub valid : IsValid c.receive_buffer
  pub region : OneRead c.reads c.receive_buffer
  pub one : c.posted_receive + length c.reads ≤ 1

abbrev pub SameIn : Connection → Connection → Type 0
SameIn c d =
    (d.receive_buffer ≡ c.receive_buffer)
    × (d.reads ≡ c.reads)
    × (d.posted_receive ≡ c.posted_receive)

resolve-SameIn : (c : Connection) → SameIn c (resolve_on_stopped c)
unfolding resolve_on_stopped
resolve-SameIn c = ground arith

pub cancel-SameIn : (c : Connection) → SameIn c (cancel_async_operations c)
unfolding cancel_async_operations resolve_on_stopped
cancel-SameIn c = ground arith

pub begin_sending-SameIn : (c : Connection) → SameIn c (begin_sending c)
unfolding begin_sending async_send resolve_on_stopped
begin_sending-SameIn c = ground arith

pub on_send-SameIn : (n : ℕ) (c : Connection) → SameIn c (on_send n c)
unfolding on_send async_send resolve_on_stopped
on_send-SameIn n c = ground arith

pub on_send_error-SameIn : (c : Connection) → SameIn c (on_send_error c)
unfolding on_send_error resolve_on_stopped
on_send_error-SameIn c = ground arith

pub on_receive_error-SameIn : (c : Connection) → SameIn c (on_receive_error c)
unfolding on_receive_error resolve_on_stopped
on_receive_error-SameIn c = ground arith

write_pointer :
    (b : LinearBuffer)
    → (get_write_head b).1 ≡ (if ltb 0 (get_write_head b).0 then some b.head else none)
unfolding get_write_head
write_pointer b = refl

-- With nothing outstanding, `async_receive` keeps the buffer and reads over the region that it hands
-- out, if it reads.
pub async_receive-ReadInv :
    (c : Connection)
    → IsValid c.receive_buffer
    → c.reads ≡ []
    → c.posted_receive ≡ 0
    → ReadInv (async_receive c) × ((async_receive c).receive_buffer ≡ c.receive_buffer)
unfolding async_receive
async_receive-ReadInv c v r p = ground (
  arith,
  write_pointer c.receive_buffer,
  resolve-SameIn (record c { flags = clear_flag c.flags start_receiving }),
)

pub idle_reads : (c : Connection) → length c.reads ≡ 0 → c.reads ≡ []
idle_reads c h = nothing c.reads h
  where
    nothing : (rs : List Region) → length rs ≡ 0 → rs ≡ []
    nothing [] h = refl
    nothing (r ∷ rs) h = absurd (omega (arith, h))

-- A new connection has its receiving side in order.
pub connect-ReadInv :
    (receive_buffer_size send_buffer_size : ℕ) (lost : Bool)
    → receive_buffer_size < 2 ^ 64
    → ReadInv (connect receive_buffer_size send_buffer_size lost)
unfolding connect
connect-ReadInv r s l h = ground (arith, make-IsValid r h)
