-- ===== src/RecordList/Readers.antt =====
-- Threads that search and remove, in any number and any order of their accesses, and what one access
-- of one of them may change.
pub mod Changes
pub mod Calls
pub mod Threads
use psly_algorithm.Base.{ℕ, ◌≡◌, false, List, [], ◌∷◌, ◌==◌}
use psly_algorithm.Prog.{Prog, ret, ◌>>=◌, ◌>>◌, access, System}
use psly_algorithm.Pool.{Layout, Memory}
use psly_algorithm.RecordList.{psly_search, psly_remove}
use psly_algorithm.RecordList.Word.{ref_count, next_address_version, minus_record}
use psly_algorithm.RecordList.Round.{word_of, key_of}
use psly_algorithm.RecordList.Stores.{self_of}

-- The key of a record stays, or is cleared when the record goes back to the pool.
pub data Cleared (k : ℕ) : ℕ → Type 0 where
  kept : Cleared k k
  cleared : Cleared k 0

module _ (l : Layout) (had : ℕ → ℕ → Type 0) (self : ℕ → ℕ) where
  -- The word of record `r` stays, gets the next version of its link, to some record, or, where it had
  -- a reference in the run, has one less, modulo the number of counts.
  pub data Stepped (r w : ℕ) : ℕ → Type 0 where
    stays : Stepped r w w
    relinked : (q : ℕ) → Stepped r w (next_address_version l w (self q))
    counted_down : (v : ℕ) → had r v → (ref_count l v == 0) ≡ false → Stepped r w (minus_record l w)

  -- What one access changes of the list: words by a step, keys to nothing else than 0, and nothing of
  -- the numbers and the lists.
  pub record Shrinks (m m' : Memory) : Type 0 where
    pub words : (r : ℕ) → Stepped r (word_of m r) (word_of m' r)
    pub keys : (r : ℕ) → Cleared (key_of m r) (key_of m' r)
    pub selves : (r : ℕ) → self_of m' r ≡ self_of m r
    pub lists : m'.lists ≡ m.lists

-- One call that a thread makes.
pub data ReadCall : Type 0 where
  search : (key : ℕ) → ReadCall
  remove : (key : ℕ) → ReadCall

unfoldable pub reader : Layout → ℕ → ℕ → List ReadCall → Prog Memory (Unit {0})
reader l fuel n [] = ret tt
reader l fuel n (search key ∷ calls) = psly_search l fuel n key >>= λ _. reader l fuel n calls
reader l fuel n (remove key ∷ calls) = psly_remove l fuel n key >>= λ _. reader l fuel n calls

-- The system of the threads: thread `i` makes the calls `calls i`.
abbrev pub readers : Layout → ℕ → ℕ → (ℕ → List ReadCall) → Memory → System Memory (Unit {0})
readers l fuel n calls m = record { mem = m; thread = λ i. reader l fuel n (calls i) }
