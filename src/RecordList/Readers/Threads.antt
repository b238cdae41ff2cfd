-- ===== src/RecordList/Readers/Threads.antt =====
-- Any number of threads that search and remove: which words an access may leave in the list, by the
-- words that its records had earlier in the same run.
use psly_algorithm.Base.{ℕ, refl, List}
use psly_algorithm.Prog.{System, Step, Reach}
use psly_algorithm.Prog.History.{Had, interleaved-change}
use psly_algorithm.Pool.{Layout, Memory}
use psly_algorithm.RecordList.Round.{word_of}
use psly_algorithm.RecordList.Stores.{self_of}
use psly_algorithm.RecordList.Readers.{Shrinks, ReadCall, readers}
use psly_algorithm.RecordList.Readers.Changes.{lives}
use psly_algorithm.RecordList.Readers.Calls.{reader-Ok}

-- In every interleaving of any number of threads that search and remove, one access leaves the word
-- of a record as it is, gives it, in the next version of its link, a link to some record, or, where
-- the word of that record had a reference earlier in the run, subtracts one reference, so that the
-- count wraps around where others took the last one in between; and it leaves the key of a record or
-- clears it. The numbers of the records and the ends of the lists never change.
pub interleaved-Shrinks :
    (l : Layout) (fuel n : ℕ) (calls : ℕ → List ReadCall) (m : Memory)
    {s t : System Memory (Unit {0})}
    → Reach (readers l fuel n calls m) s
    → Step s t
    → Shrinks l (Had word_of (readers l fuel n calls m) s) (self_of m) s.mem t.mem
interleaved-Shrinks l fuel n calls m re st =
    interleaved-change (lives l (self_of m)) (readers l fuel n calls m) (λ r. refl)
      (λ i d. reader-Ok l (self_of m) i fuel n (calls i) m d) re st
