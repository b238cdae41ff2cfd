-- ===== src/HandleQueue/Threads.antt =====
-- Any number of threads that enqueue and dequeue with counted keys, in any order of their accesses.
use psly_algorithm.Base.{ℕ, List, [], ◌∷◌, arith, ==_refl}
use psly_algorithm.Prog.{Prog, ◌>>=◌, System, Step, Reach}
use psly_algorithm.Prog.Rely.{IsSafe, IsSafe->>=, IsSafe-post, Step-Safe, Reach-Safe}
use psly_algorithm.Hazard.{Heap, Settings, scan, allocate_hp_rec}
use psly_algorithm.Hazard.Quiet.{scan-Quiet, allocate_hp_rec-Quiet}
use psly_algorithm.NodeQueue.Shared.{IsQueue, Moves, queue, queue-IsProtocol}
use psly_algorithm.NodeQueue.Shared.Rules.{Quiet-IsSafe}
use psly_algorithm.NodeQueue.Shared.Known.{Fresh, Fresh-Sees}
use psly_algorithm.NodeQueue.Threads.{Call, put, take, nodes_of, Distinct}
use psly_algorithm.HandleQueue.{Handles, has_handle, enqueue, dequeue}
use psly_algorithm.HandleQueue.Rules.{has_handle-Quiet}
use psly_algorithm.HandleQueue.Enqueue.{enqueue-IsSafe}
use psly_algorithm.HandleQueue.Dequeue.{dequeue-IsSafe}

module _ {X : Type 0} (ops : Handles X) (set : Settings) (fuel : ℕ) where
  unfoldable pub worker : ℕ → List Call → Prog (Heap X) ℕ
  worker me [] = scan (has_handle ops) me fuel
  worker me (put node value ∷ calls) = enqueue ops fuel node value >>= λ _. worker me calls
  worker me (take ∷ calls) = dequeue ops set me fuel >>= λ _. worker me calls

  -- A client takes a record of retired nodes, `fresh` where there is none to take over, makes its
  -- calls, and scans.
  unfoldable pub client : ℕ → List Call → Prog (Heap X) ℕ
  client fresh calls = allocate_hp_rec set fuel fresh >>= λ me. worker me calls

  -- The system of the threads: thread `i` makes the calls `calls i`.
  abbrev pub threads : (ℕ → ℕ) → (ℕ → List Call) → Heap X → System (Heap X) ℕ
  threads fresh calls m = record { mem = m; thread = λ i. client (fresh i) (calls i) }

  module _ (owner : ℕ → ℕ) (i : ℕ) where
    worker-IsSafe :
        (me : ℕ) (calls : List Call) (m : Heap X) (s : List ℕ)
        → Distinct (nodes_of calls)
        → Fresh owner i (nodes_of calls) s
        → IsSafe (queue owner) i (λ _ _ _. Unit) (worker me calls) m s
    unfolding worker
    worker-IsSafe me [] m s d f =
        IsSafe-post (queue owner) i _ m s (λ _ _ _ _. tt)
          (Quiet-IsSafe owner i m s (scan-Quiet (has_handle ops) (has_handle-Quiet ops) me fuel))
    worker-IsSafe me (put node value ∷ calls) m s d f =
        IsSafe->>= (queue owner) (queue-IsProtocol owner) i _ m s
          (enqueue-IsSafe ops owner i (nodes_of calls) fuel node value d.0 m s
            (f node (ground (arith, ==_refl node))) (λ r h. f r (ground arith)))
          (λ _ m' s' f'. worker-IsSafe me calls m' s' d.1 f')
    worker-IsSafe me (take ∷ calls) m s d f =
        IsSafe->>= (queue owner) (queue-IsProtocol owner) i _ m s
          (dequeue-IsSafe ops owner i (nodes_of calls) set me fuel m s f)
          (λ _ m' s' f'. worker-IsSafe me calls m' s' d f')

    client-IsSafe :
        (fresh : ℕ) (calls : List Call) (m : Heap X) (s : List ℕ)
        → Distinct (nodes_of calls)
        → Fresh owner i (nodes_of calls) s
        → IsSafe (queue owner) i (λ _ _ _. Unit) (client fresh calls) m s
    unfolding client
    client-IsSafe fresh calls m s d f =
        IsSafe->>= (queue owner) (queue-IsProtocol owner) i _ m s
          (Quiet-IsSafe owner i m s (allocate_hp_rec-Quiet set fuel fresh))
          (λ me m' s' r.
            worker-IsSafe me calls m' s' d (Fresh-Sees owner i (nodes_of calls) m' s' f r))

-- The same for the queue of hazard_long.c, whatever the three operations on the keys do to their
-- own memory: in every interleaving of any number of threads that allocate, enqueue, dequeue and
-- scan, where every node is enqueued by one call of one thread, once, and none is linked at the
-- start, between two accesses the nodes ever linked form a chain that contains Head and Tail, and
-- one access links at most one node, of its own thread, behind the last, moves Head or Tail at most
-- to the node that follows, and changes neither the value nor the link of another linked node, nor a
-- node of another thread.
pub handles-IsQueue :
    {X : Type 0} (ops : Handles X) (set : Settings) (fuel : ℕ) (fresh : ℕ → ℕ)
    (calls : ℕ → List Call) (owner : ℕ → ℕ) (m : Heap X) (all : List ℕ) {y z : System (Heap X) ℕ}
    → IsQueue m all
    → ((i : ℕ) → Distinct (nodes_of (calls i)))
    → ((i : ℕ) → Fresh owner i (nodes_of (calls i)) all)
    → Reach (threads ops set fuel fresh calls m) y
    → Step y z
    → (before : List ℕ) × IsQueue y.mem before
      × (i : ℕ) × (after : List ℕ) × IsQueue z.mem after
      × Moves owner i y.mem before z.mem after
handles-IsQueue ops set fuel fresh calls owner m all {y} {z} v d f r st =
    let p = queue-IsProtocol owner in
    let b =
      Reach-Safe (queue owner) p (λ _ _ _ _. Unit) (threads ops set fuel fresh calls m) y all v
        (λ i. (client-IsSafe ops set fuel owner i (fresh i) (calls i) m all (d i) (f i)).safe) r in
    let a = Step-Safe (queue owner) p (λ _ _ _ _. Unit) y z b.0 b.1 b.2 st in
    (b.0, b.1, a.0, a.1, a.2, a.3)
