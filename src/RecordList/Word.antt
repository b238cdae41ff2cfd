-- ===== src/RecordList/Word.antt =====
-- The fields of `nextRecord`: a reference count, a version of the node, a version of the link, and
-- the number of the record that follows, from the highest bit to the lowest.
pub mod Fields
pub mod Masks
use psly_algorithm.Base.{ℕ, ◌+◌, ◌-◌, ◌*◌, ◌/◌, ◌%◌, ◌^◌, Bool, ◌==◌, ◌&&◌, ◌||◌, not}
use psly_algorithm.Pool.{Layout}

module _ (l : Layout) where
  -- `NODEB` and `NEXTB`
  abbrev pub version_num : ℕ
  version_num = (64 - l.ref_num - l.arr_num - l.idx_num) / 2

  -- one more than `ARRIDXBIT_`
  abbrev pub addresses : ℕ
  addresses = 2 ^ (l.idx_num + l.arr_num)

  -- the number of versions of a node, and of a link
  abbrev pub versions : ℕ
  versions = 2 ^ version_num

  abbrev pub counts : ℕ
  counts = 2 ^ l.ref_num

  -- `REFONE`
  abbrev pub ref_one : ℕ
  ref_one = versions * (versions * addresses)

  -- `w & ARRIDXBIT_`, and the number that `idx_Record(w)` points to
  unfoldable pub address : ℕ → ℕ
  address w = w % addresses

  -- `w & NEXTBITS`, shifted down
  unfoldable pub link_version : ℕ → ℕ
  link_version w = w / addresses % versions

  -- `w & NODEBITS`, shifted down
  unfoldable pub node_version : ℕ → ℕ
  node_version w = w / addresses / versions % versions

  -- `(w >> RECBW) & REFCBITS_`; it is zero where `(w & REFCBITS) == DELETED`
  unfoldable pub ref_count : ℕ → ℕ
  ref_count w = w / addresses / versions / versions % counts

  -- four fields put together
  abbrev pub word : ℕ → ℕ → ℕ → ℕ → ℕ
  word refs node link at = ((refs * versions + node) * versions + link) * addresses + at

  -- `NEXTONE` and `NODEONE`, the lowest bit of each version
  abbrev pub next_one : ℕ
  next_one = addresses

  abbrev pub node_one : ℕ
  node_one = versions * addresses

  -- `w & REFCBITS`, `w & NODEBITS` and `w & NEXTBITS`: a field where it stands. The bits that an
  -- addition carries out of the field, or past the word, are masked away.
  unfoldable pub ref_bits : ℕ → ℕ
  unfolding ref_count
  ref_bits w = ref_count w * ref_one

  unfoldable pub node_bits : ℕ → ℕ
  unfolding node_version
  node_bits w = node_version w * node_one

  unfoldable pub next_bits : ℕ → ℕ
  unfolding link_version
  next_bits w = link_version w * next_one

  -- `nxtAddrV(old, replace)`, for the `self` of `replace`
  unfoldable pub next_address_version : ℕ → ℕ → ℕ
  unfolding address ref_bits node_bits next_bits
  next_address_version old self =
      ref_bits old + node_bits old + next_bits (old + next_one) + address self

  -- `plusRecord(old)`
  unfoldable pub plus_record : ℕ → ℕ
  unfolding address ref_bits node_bits next_bits
  plus_record old = ref_bits (old + ref_one) + node_bits old + next_bits old + address old

  -- `newNext(old, replace)`, for the `self` of `replace`
  unfoldable pub new_next : ℕ → ℕ → ℕ
  unfolding address node_bits next_bits
  new_next old self = ref_one + node_bits (old + node_one) + next_bits old + address self

  -- what `__sync_sub_and_fetch(&found->nextRecord, REFONE)` leaves
  unfoldable pub minus_record : ℕ → ℕ
  minus_record w = (w + 2 ^ 64 - ref_one) % 2 ^ 64

  -- `(a & NODEBITS) != (b & NODEBITS) || (b & REFCBITS) == DELETED`
  unfoldable pub moved_on : ℕ → ℕ → Bool
  unfolding node_version ref_count
  moved_on a b = not (node_version a == node_version b) || (ref_count b == 0)

  -- `(a & NEXTTT) != (b & NEXTTT)`
  unfoldable pub link_changed : ℕ → ℕ → Bool
  unfolding address link_version
  link_changed a b = not ((link_version a == link_version b) && (address a == address b))
