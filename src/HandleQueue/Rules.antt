-- ===== src/HandleQueue/Rules.antt =====
-- The accesses of the list leave the queue alone, whatever they are.
use psly_algorithm.Base.{ℕ, refl, List}
use psly_algorithm.Prog.{
  Prog, ret, act, out_of_fuel, crash, ◌>>=◌, Obeys, finish, access, give_up, fail, Obeys->>=,
}
use psly_algorithm.Prog.Rely.{IsSafe, IsSafe->>=}
use psly_algorithm.Hazard.{Heap}
use psly_algorithm.Hazard.Quiet.{Quiet}
use psly_algorithm.NodeQueue.Shared.{Sees, queue, queue-IsProtocol}
use psly_algorithm.NodeQueue.Shared.Rules.{Quiet-IsSafe}
use psly_algorithm.HandleQueue.{Handles, guarded, has_handle}

module _ {X : Type 0} where
  pub guarded-Quiet : {A : Type 0} (p : Prog X A) → Obeys Quiet (guarded p)
  unfolding guarded
  guarded-Quiet (ret a) = finish a
  guarded-Quiet (act f k) =
      access (λ m. record { nodes = refl; head = refl; tail = refl }) (λ m. guarded-Quiet (k _))
  guarded-Quiet out_of_fuel = give_up
  guarded-Quiet crash = fail

  pub has_handle-Quiet : (ops : Handles X) (node : ℕ) → Obeys Quiet (has_handle ops node)
  unfolding has_handle
  has_handle-Quiet ops node = Obeys->>= _ (guarded-Quiet (ops.psly_search node)) (λ n. finish _)

  pub guarded-IsSafe :
      (owner : ℕ → ℕ) (i : ℕ) {A B : Type 0} {post : B → Heap X → List ℕ → Type 0}
      {k : A → Prog (Heap X) B} (p : Prog X A) (m : Heap X) (s : List ℕ)
      → ((w : A) (n : Heap X) (t : List ℕ)
          → Sees owner i m s n t
          → IsSafe (queue owner) i post (k w) n t)
      → IsSafe (queue owner) i post (guarded p >>= k) m s
  guarded-IsSafe owner i p m s next =
      IsSafe->>= (queue owner) (queue-IsProtocol owner) i _ m s
        (Quiet-IsSafe owner i m s (guarded-Quiet p)) next
