-- ===== src/Pool/Worker.antt =====
-- Threads that take and return records, in any number and any order of their accesses, and what
-- one access of one of them may change.
pub mod Tags
pub mod Same
pub mod History
use psly_algorithm.Base.{ℕ, ◌≡◌, Option, none, some, List, [], ◌∷◌, true}
use psly_algorithm.Prog.{Prog, ret, ◌>>=◌, ◌>>◌}
use psly_algorithm.Pool.{Layout, Memory, is_last, move_end, link_to, get_record, return_record}

-- One call that a thread makes.
pub data Call : Type 0 where
  get : Call
  give : (record_address : ℕ) → Call

module _ (l : Layout) (fuel : ℕ) where
  unfoldable pub worker : List Call → Prog Memory (Unit {0})
  worker [] = ret tt
  worker (get ∷ calls) = get_record l fuel >>= λ _. worker calls
  worker (give r ∷ calls) = return_record l fuel r >> worker calls

module _ (l : Layout) where
  -- A head or a tail stays, or gets its next version with the index of some word.
  pub data Moved (w : ℕ) : ℕ → Type 0 where
    stays : Moved w w
    moves : (i : ℕ) → Moved w (move_end l w i)

  -- A `next` stays, or, where it has the tail bit, gets its next version with the index of the
  -- record that is appended, or, where a thread returns the record, is stored with the tail bit.
  pub data Relinked (returned : Type 0) (w : ℕ) : ℕ → Type 0 where
    kept : Relinked returned w w
    linked : (i : ℕ) → is_last l w ≡ true → Relinked returned w (link_to l w i)
    stored : {w' : ℕ} → returned → is_last l w' ≡ true → Relinked returned w w'

  -- What one access changes, where `returned r` says that some thread returns record `r`.
  pub record Tagged (returned : ℕ → Type 0) (m m' : Memory) : Type 0 where
    pub heads : (a : ℕ) → Moved (m.queues a).head (m'.queues a).head
    pub tails : (a : ℕ) → Moved (m.queues a).tail (m'.queues a).tail
    pub nexts : (r : ℕ) → Relinked (returned r) (m.records r).next (m'.records r).next
    pub selves : (r : ℕ) → (m'.records r).self ≡ (m.records r).self
    pub words : (r : ℕ) → (m'.records r).next_record ≡ (m.records r).next_record
    pub pointers : (r : ℕ) → (m'.records r).pointer ≡ (m.records r).pointer
    pub lists : m'.lists ≡ m.lists

-- The record is among those that the calls return.
pub data Gives (r : ℕ) : List Call → Type 0 where
  first : (calls : List Call) → Gives r (give r ∷ calls)
  rest : (c : Call) {calls : List Call} → Gives r calls → Gives r (c ∷ calls)
