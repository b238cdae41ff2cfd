-- ===== src/Pool/Worker/History/Threads.antt =====
-- The tags against reuse, in every interleaving: which words an access may leave in a queue, by the
-- words that its links had earlier in the same run.
use psly_algorithm.Base.{ℕ, refl, List}
use psly_algorithm.Prog.{System, Step, Reach}
use psly_algorithm.Prog.History.{Had, interleaved-change}
use psly_algorithm.Pool.{Layout, Memory}
use psly_algorithm.Pool.Worker.{Call, Gives, worker}
use psly_algorithm.Pool.Worker.History.{Versioned}
use psly_algorithm.Pool.Worker.History.Rules.{tags}
use psly_algorithm.Pool.Worker.History.Calls.{worker-Ok}

-- The system of the workers: thread `i` makes the calls `calls i`.
abbrev pub workers : Layout → ℕ → (ℕ → List Call) → Memory → System Memory (Unit {0})
workers l fuel calls m = record { mem = m; thread = λ i. worker l fuel (calls i) }

abbrev pub next_of : Memory → ℕ → ℕ
next_of m r = (m.records r).next

-- Some thread returns the record.
abbrev pub Returned : (ℕ → List Call) → ℕ → Type 0
Returned calls r = (i : ℕ) × Gives r (calls i)

-- In every interleaving of any number of threads that take and return records, one access changes a
-- head or a tail only to its next version, with the index of a word that the `next` of the record
-- at its own index had before in the run; and it changes a `next` only, where it has the tail bit, to
-- its next version with the index of a record that some thread returns, or, where some thread
-- returns the record, to a word that this `next` had before in the run, with the tail bit set. The
-- numbers of the records, their list words, their pointers and the lists never change.
pub interleaved-Versioned :
    (l : Layout) (fuel : ℕ) (calls : ℕ → List Call) (m : Memory) {s t : System Memory (Unit {0})}
    → Reach (workers l fuel calls m) s
    → Step s t
    → Versioned l
        (Had next_of (workers l fuel calls m) s)
        (Returned calls)
        (λ r. (m.records r).self)
        s.mem
        t.mem
interleaved-Versioned l fuel calls m {s} {t} re st =
    interleaved-change (tags l (Returned calls) (λ r. (m.records r).self)) (workers l fuel calls m)
      (λ r. refl)
      (λ i w.
        worker-Ok l (Returned calls) (λ r. (m.records r).self) i fuel (calls i) m w (λ r g. (i, g)))
      re st
