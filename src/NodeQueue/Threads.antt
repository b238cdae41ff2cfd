-- ===== src/NodeQueue/Threads.antt =====
-- Any number of threads that enqueue and dequeue, in any order of their accesses.
use psly_algorithm.Base.{ℕ, ◌≡◌, false, List, [], ◌∷◌, has, arith, ==_refl}
use psly_algorithm.Prog.{Prog, ret, ◌>>=◌, System, Step, Reach}
use psly_algorithm.Prog.Rely.{IsSafe, IsSafe->>=, ret-IsSafe, Step-Safe, Reach-Safe}
use psly_algorithm.Hazard.{Heap, Settings, allocate_hp_rec}
use psly_algorithm.Hazard.Quiet.{allocate_hp_rec-Quiet}
use psly_algorithm.NodeQueue.{enqueue, dequeue}
use psly_algorithm.NodeQueue.Shared.{IsQueue, Moves, queue, queue-IsProtocol}
use psly_algorithm.NodeQueue.Shared.Rules.{Quiet-IsSafe}
use psly_algorithm.NodeQueue.Shared.Known.{Fresh, Fresh-Sees}
use psly_algorithm.NodeQueue.Enqueue.{enqueue-IsSafe}
use psly_algorithm.NodeQueue.Dequeue.{dequeue-IsSafe}

-- One call that a thread makes, an enqueue with the node that `malloc` gives it.
pub data Call : Type 0 where
  put : (node value : ℕ) → Call
  take : Call

-- The nodes that the calls enqueue.
abbrev pub nodes_of : List Call → List ℕ
nodes_of [] = []
nodes_of (put node value ∷ calls) = node ∷ nodes_of calls
nodes_of (take ∷ calls) = nodes_of calls

abbrev pub Distinct : List ℕ → Type 0
Distinct [] = Unit
Distinct (x ∷ xs) = (has x xs ≡ false) × Distinct xs

module _ {X : Type 0} (set : Settings) (fuel : ℕ) where
  unfoldable pub worker : ℕ → List Call → Prog (Heap X) ℕ
  worker me [] = ret 0
  worker me (put node value ∷ calls) = enqueue me fuel node value >>= λ _. worker me calls
  worker me (take ∷ calls) = dequeue set me fuel >>= λ _. worker me calls

  -- A client takes a record of hazard pointers, `fresh` where there is none to take over, and
  -- makes its calls.
  unfoldable pub client : ℕ → List Call → Prog (Heap X) ℕ
  client fresh calls = allocate_hp_rec set fuel fresh >>= λ me. worker me calls

  -- The system of the threads: thread `i` makes the calls `calls i`.
  abbrev pub threads : (ℕ → ℕ) → (ℕ → List Call) → Heap X → System (Heap X) ℕ
  threads fresh calls m = record { mem = m; thread = λ i. client (fresh i) (calls i) }

  module _ (owner : ℕ → ℕ) (i : ℕ) where
    worker-IsSafe :
        (me : ℕ) (calls : List Call) (m : Heap X) (s : List ℕ)
        → Distinct (nodes_of calls)
        → Fresh owner i (nodes_of calls) s
        → IsSafe (queue owner) i (λ _ _ _. Unit) (worker me calls) m s
    unfolding worker
    worker-IsSafe me [] m s d f = ret-IsSafe m s 0 (λ _ _ _. tt)
    worker-IsSafe me (put node value ∷ calls) m s d f =
        IsSafe->>= (queue owner) (queue-IsProtocol owner) i _ m s
          (enqueue-IsSafe owner i me (nodes_of calls) fuel node value d.0 m s
            (f node (ground (arith, ==_refl node))) (λ r h. f r (ground arith)))
          (λ _ m' s' f'. worker-IsSafe me calls m' s' d.1 f')
    worker-IsSafe me (take ∷ calls) m s d f =
        IsSafe->>= (queue owner) (queue-IsProtocol owner) i _ m s
          (dequeue-IsSafe owner i me (nodes_of calls) set fuel m s f)
          (λ _ m' s' f'. worker-IsSafe me calls m' s' d f')

    client-IsSafe :
        (fresh : ℕ) (calls : List Call) (m : Heap X) (s : List ℕ)
        → Distinct (nodes_of calls)
        → Fresh owner i (nodes_of calls) s
        → IsSafe (queue owner) i (λ _ _ _. Unit) (client fresh calls) m s
    unfolding client
    client-IsSafe fresh calls m s d f =
        IsSafe->>= (queue owner) (queue-IsProtocol owner) i _ m s
          (Quiet-IsSafe owner i m s (allocate_hp_rec-Quiet set fuel fresh))
          (λ me m' s' r.
            worker-IsSafe me calls m' s' d (Fresh-Sees owner i (nodes_of calls) m' s' f r))

-- In every interleaving of any number of threads that take a record of hazard pointers and then
-- enqueue and dequeue, where `malloc` gives every node to one call of one thread, once, and none
-- that is linked at the start: between two accesses the nodes ever linked form a chain that
-- contains Head and Tail, and one access links at most one node, of its own thread, behind the
-- last, moves Head or Tail at most to the node that follows, and changes neither the value nor the
-- link of another linked node, nor a node of another thread.
pub interleaved-IsQueue :
    {X : Type 0} (set : Settings) (fuel : ℕ) (fresh : ℕ → ℕ) (calls : ℕ → List Call) (owner : ℕ → ℕ)
    (m : Heap X) (all : List ℕ) {y z : System (Heap X) ℕ}
    → IsQueue m all
    → ((i : ℕ) → Distinct (nodes_of (calls i)))
    → ((i : ℕ) → Fresh owner i (nodes_of (calls i)) all)
    → Reach (threads set fuel fresh calls m) y
    → Step y z
    → (before : List ℕ) × IsQueue y.mem before
      × (i : ℕ) × (after : List ℕ) × IsQueue z.mem after
      × Moves owner i y.mem before z.mem after
interleaved-IsQueue set fuel fresh calls owner m all {y} {z} v d f r st =
    let p = queue-IsProtocol owner in
    let b =
      Reach-Safe (queue owner) p (λ _ _ _ _. Unit) (threads set fuel fresh calls m) y all v
        (λ i. (client-IsSafe set fuel owner i (fresh i) (calls i) m all (d i) (f i)).safe) r in
    let a = Step-Safe (queue owner) p (λ _ _ _ _. Unit) y z b.0 b.1 b.2 st in
    (b.0, b.1, a.0, a.1, a.2, a.3)
