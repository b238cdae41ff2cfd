-- ===== src/NodeQueue/Shared/Slots.antt =====
-- A store into a hazard pointer leaves the queue alone.
use psly_algorithm.Base.{ℕ, ◌+◌, refl, List}
use psly_algorithm.Prog.{Prog, ◌>>=◌}
use psly_algorithm.Prog.Rely.{IsSafe}
use psly_algorithm.Hazard.{Heap, set_hp, with_slot}
use psly_algorithm.NodeQueue.Shared.{IsQueue, Sees, queue}
use psly_algorithm.NodeQueue.Shared.Rules.{store-IsSafe}
use psly_algorithm.Hazard.Quiet.{Quiet}

module _ {X : Type 0} (owner : ℕ → ℕ) (i me : ℕ) where
  hp-Quiet : (j v : ℕ) (n : Heap X) → Quiet n (with_slot n ((n.recs me).base + j) v)
  hp-Quiet j v n = record { nodes = refl; head = refl; tail = refl }

  pub set_hp-IsSafe :
      {A : Type 0} {post : A → Heap X → List ℕ → Type 0} {k : ℕ → Prog (Heap X) A} (m : Heap X)
      (s : List ℕ) (j v : ℕ)
      → ((n : Heap X) (t : List ℕ)
          → Sees owner i m s n t
          → IsQueue n t
          → IsSafe (queue owner) i post (k 0) n t)
      → IsSafe (queue owner) i post (set_hp me j v >>= k) m s
  set_hp-IsSafe m s j v next = store-IsSafe owner i m s (hp-Quiet j v) next
