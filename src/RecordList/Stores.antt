-- ===== src/RecordList/Stores.antt =====
-- What a store into one field of a record leaves in the fields of all.
use psly_algorithm.Base.{ℕ, ◌≡◌, false, arith, ◌==◌}
use psly_algorithm.Pool.{Memory}
use psly_algorithm.RecordList.{with_word, with_pointer}
use psly_algorithm.RecordList.Round.{word_of, key_of}

abbrev pub self_of : Memory → ℕ → ℕ
self_of m r = (m.records r).self

module _ (m : Memory) (r w x : ℕ) where
  pub self-with_word : self_of (with_word m r w) x ≡ self_of m x
  self-with_word = ground arith

  pub self-with_pointer : self_of (with_pointer m r w) x ≡ self_of m x
  self-with_pointer = ground arith

  pub word-with_pointer : word_of (with_pointer m r w) x ≡ word_of m x
  word-with_pointer = ground arith

  pub next-with_word : ((with_word m r w).records x).next ≡ (m.records x).next
  next-with_word = ground arith

  pub next-with_pointer : ((with_pointer m r w).records x).next ≡ (m.records x).next
  next-with_pointer = ground arith

  pub key-with_word : key_of (with_word m r w) x ≡ key_of m x
  key-with_word = ground arith

  pub word-with_word : (r == x) ≡ false → word_of (with_word m r w) x ≡ word_of m x
  word-with_word h = ground arith

  pub key-with_pointer : (r == x) ≡ false → key_of (with_pointer m r w) x ≡ key_of m x
  key-with_pointer h = ground arith

module _ (m : Memory) (r w : ℕ) where
  pub word-with_word_here : word_of (with_word m r w) r ≡ w
  word-with_word_here = ground arith

  pub key-with_pointer_here : key_of (with_pointer m r w) r ≡ w
  key-with_pointer_here = ground arith
