-- ===== src/Pool/Worker/History.antt =====
-- The words that `next` had before: what a change of a queue by one access is made of.
pub mod Rules
pub mod Calls
pub mod Threads
use psly_algorithm.Base.{ℕ, ◌≡◌, refl, ◌∙◌, true, ◌||◌, has, List, [], ◌∷◌, arith, ◌==◌, ==_refl}
use psly_algorithm.Pool.{Layout, Memory, index_of, is_last, mark_last, slot, move_end, link_to}

module _ (l : Layout) (had : ℕ → ℕ → Type 0) where
  -- A head or a tail of array `a` stays, or gets its next version with the index of a word that the
  -- `next` of its record had.
  pub data Advanced (a w : ℕ) : ℕ → Type 0 where
    stays : Advanced a w w
    advances : (n : ℕ) → had (slot l a (index_of l w)) n → Advanced a w (move_end l w n)

  -- A `next` stays, or, where it has the tail bit, gets its next version with the index of a record
  -- that some thread returns, or, where some thread returns the record, is a word that it had, with
  -- the tail bit.
  pub data Rewritten (returned : ℕ → Type 0) (self : ℕ → ℕ) (r w : ℕ) : ℕ → Type 0 where
    kept : Rewritten returned self r w w
    linked :
        (q : ℕ)
        → returned q
        → is_last l w ≡ true
        → Rewritten returned self r w (link_to l w (self q))
    marked : (n : ℕ) → returned r → had r n → Rewritten returned self r w (mark_last l n)

  -- One access.
  pub record Versioned (returned : ℕ → Type 0) (self : ℕ → ℕ) (m m' : Memory) : Type 0 where
    pub heads : (a : ℕ) → Advanced a (m.queues a).head (m'.queues a).head
    pub tails : (a : ℕ) → Advanced a (m.queues a).tail (m'.queues a).tail
    pub nexts : (r : ℕ) → Rewritten returned self r (m.records r).next (m'.records r).next
    pub selves : (r : ℕ) → (m'.records r).self ≡ (m.records r).self
    pub words : (r : ℕ) → (m'.records r).next_record ≡ (m.records r).next_record
    pub pointers : (r : ℕ) → (m'.records r).pointer ≡ (m.records r).pointer
    pub lists : m'.lists ≡ m.lists
