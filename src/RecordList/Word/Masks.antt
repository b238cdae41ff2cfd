-- ===== src/RecordList/Word/Masks.antt =====
-- The masks of `nextRecord`, as the macros compute them from the layout, on the 64 bits of a `long`.
mod Examples
use Prim.Native.Nat.{bit_and, bit_xor}
use psly_algorithm.Base.{ℕ, ◌-◌, ◌/◌, ◌^◌}
use psly_algorithm.Pool.{Layout}

-- `((m - 1) & m) ^ m`, the lowest bit of a mask
unfoldable pub lowest_bit : ℕ → ℕ
lowest_bit m = bit_xor (bit_and (m - 1) m) m

module _ (l : Layout) where
  -- `m ^ (m >> NODEB)`, the highest bits of a block of ones
  unfoldable pub highest_bits : ℕ → ℕ
  highest_bits m = bit_xor m (m / 2 ^ ((64 - l.ref_num - l.arr_num - l.idx_num) / 2))

  -- `REFCBITS`
  unfoldable pub ref_mask : ℕ
  ref_mask = 2 ^ 64 - 2 ^ (64 - l.ref_num)

  -- `NODEBITS` and `NODEONE`
  unfoldable pub node_mask : ℕ
  unfolding highest_bits
  node_mask = highest_bits (2 ^ (64 - l.ref_num) - 1)

  unfoldable pub node_mask_one : ℕ
  unfolding lowest_bit node_mask
  node_mask_one = lowest_bit node_mask

  -- `NEXTBITS` and `NEXTONE`
  unfoldable pub next_mask : ℕ
  unfolding highest_bits node_mask_one
  next_mask = highest_bits (node_mask_one - 1)

  unfoldable pub next_mask_one : ℕ
  unfolding lowest_bit next_mask
  next_mask_one = lowest_bit next_mask
