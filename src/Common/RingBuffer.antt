-- ===== src/Common/RingBuffer.antt =====
-- common/src/ring_buffer.rs: the buffer of the last items. A `VecDeque` is a list, its front first.
pub mod History
use veloce_ce.Base.{
  ℕ, Bool, List, [], ◌∷◌, ◌++◌, length, drop, is_empty as has_no_items, leb, if◌then◌else◌,
}

pub record RingBuffer {ℓ} (A : Type ℓ) : Type ℓ where
  pub buffer : List A
  pub capacity : ℕ

module _ {ℓ} {A : Type ℓ} where
  pub new : ℕ → RingBuffer A
  new capacity = record { buffer = []; capacity = capacity }

  -- `pop_front` of an empty queue does nothing.
  pub push : A → RingBuffer A → RingBuffer A
  push item r = record r {
    buffer = (if leb r.capacity (length r.buffer) then drop 1 r.buffer else r.buffer) ++ item ∷ [];
  }

  pub pop_all : RingBuffer A → RingBuffer A × List A
  pop_all r = (record r { buffer = [] }, r.buffer)

  pub is_empty : RingBuffer A → Bool
  is_empty r = has_no_items r.buffer

  pub len : RingBuffer A → ℕ
  len r = length r.buffer
