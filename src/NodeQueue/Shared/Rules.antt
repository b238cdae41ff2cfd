-- ===== src/NodeQueue/Shared/Rules.antt =====
-- One rule for each kind of access to the queue.
use psly_algorithm.Base.{
  ℕ, ◌≡◌, ◌≢◌, refl, sym, ◌∙◌, true, inl, inr, List, ◌∉◌, has, ◌==◌, Bool-cases, eq-of-==,
}
use psly_algorithm.Prog.{Prog, ◌>>=◌, Obeys}
use psly_algorithm.Prog.Rely.{IsSafe, Safe-Obeys}
use psly_algorithm.Hazard.{Heap, load, store, swap}
use psly_algorithm.Hazard.Quiet.{Quiet, Quiet-refl}
use psly_algorithm.NodeQueue.Chain.{Chain-next, Chain-frame}
use psly_algorithm.NodeQueue.Shared.{
  nxt, IsQueue, Advances, stays, follows, same, Moves, Sees, queue, Sees-refl, Sees-trans,
  queue-IsProtocol,
}

Advances-eq : (f : ℕ → ℕ) (r r' : ℕ) → r' ≡ r → Advances f r r'
Advances-eq f r r' e = rw e stays

-- A node that `malloc` gave to the thread and that is not linked yet.
pub record IsFresh (owner : ℕ → ℕ) (i : ℕ) (n : ℕ) (s : List ℕ) : Type 0 where
  pub mine : owner n ≡ i
  pub out : n ∉ s
  pub not_null : n ≢ 0

module _ {X : Type 0} where
  pub Quiet-IsQueue : (m m' : Heap X) (s : List ℕ) → Quiet m m' → IsQueue m s → IsQueue m' s
  Quiet-IsQueue m m' s q v = record {
    chain = Chain-frame (nxt m) (nxt m') s (λ r h. rw q.nodes refl) v.chain;
    no_null = v.no_null;
    head_on = rw q.head v.head_on;
    tail_on = rw q.tail v.tail_on;
  }

  module _ (owner : ℕ → ℕ) (i : ℕ) where
    pub Quiet-Moves : (m m' : Heap X) (s : List ℕ) → Quiet m m' → Moves owner i m s m' s
    Quiet-Moves m m' s q = record {
      links = same;
      head = Advances-eq _ _ _ q.head;
      tail = Advances-eq _ _ _ q.tail;
      kept = λ r h n. rw q.nodes refl;
      values = λ r h. rw q.nodes refl;
      others = λ r o h. (rw q.nodes refl, rw q.nodes refl);
    }

    Quiet-Sees : (m m' : Heap X) (s : List ℕ) → Quiet m m' → Sees owner i m s m' s
    Quiet-Sees m m' s q = record {
      grows = λ r h. h;
      kept = λ r h n. rw q.nodes refl;
      values = λ r h. rw q.nodes refl;
      mine = λ r o h. (h, rw q.nodes refl, rw q.nodes refl);
    }

    pub IsFresh-Sees :
        (n : ℕ) (m : Heap X) (s : List ℕ) (m' : Heap X) (s' : List ℕ)
        → Sees owner i m s m' s'
        → IsFresh owner i n s
        → IsFresh owner i n s'
    IsFresh-Sees n m s m' s' r f = record {
      mine = f.mine;
      out = (r.mine n f.mine f.out).0;
      not_null = f.not_null;
    }

    -- An end that stands at `old` goes to the node behind it.
    module _ (m : Heap X) (s : List ℕ) (old new : ℕ) (on : has old s ≡ true) (e : nxt m old ≡ new)
        (not_null : new ≢ 0) where
      pub follows_lem : (n : Heap X) (t : List ℕ) → Sees owner i m s n t → nxt n old ≡ new
      follows_lem n t r = r.kept old on (λ z. not_null (sym e ∙ z)) ∙ e

      pub on_lem : (n : Heap X) (t : List ℕ) → Sees owner i m s n t → IsQueue n t → has new t ≡ true
      on_lem n t r v = rw (← follows_lem n t r) (
          Chain-next (nxt n) t old v.chain (r.grows old on)
            (λ z. not_null (sym (follows_lem n t r) ∙ z)))

      pub Advances-to :
          (n : Heap X) (t : List ℕ)
          → Sees owner i m s n t
          → (x : ℕ) → (x == old) ≡ true
          → Advances (nxt n) x new
      Advances-to n t r x here =
          rw (eq-of-== x old here, ← follows_lem n t r)
            (follows (λ z. not_null (sym (follows_lem n t r) ∙ z)))

    module _ {A : Type 0} {post : A → Heap X → List ℕ → Type 0} {k : ℕ → Prog (Heap X) A}
        (m : Heap X) (s : List ℕ) where
      pub load-IsSafe :
          (f : Heap X → ℕ)
          → ((n : Heap X) (t : List ℕ)
              → Sees owner i m s n t
              → IsQueue n t
              → IsSafe (queue owner) i post (k (f n)) n t)
          → IsSafe (queue owner) i post (load f >>= k) m s
      load-IsSafe f next = record {
        safe = λ n t r v. (t, v, Quiet-Moves n n t (Quiet-refl n), (next n t r v).safe);
      }

      pub store-IsSafe :
          {f : Heap X → Heap X}
          → ((n : Heap X) → Quiet n (f n))
          → ((n : Heap X) (t : List ℕ)
              → Sees owner i m s n t
              → IsQueue n t
              → IsSafe (queue owner) i post (k 0) n t)
          → IsSafe (queue owner) i post (store f >>= k) m s
      store-IsSafe {f} quiet next = record {
        safe = λ n t r v.
            let v' = Quiet-IsQueue n (f n) t (quiet n) v in
            (
              t,
              v',
              Quiet-Moves n (f n) t (quiet n),
              (next (f n) t (Sees-trans owner i m s n t (f n) t r (Quiet-Sees n (f n) t (quiet n)))
                  v').safe,
            );
      }

      pub swap-IsSafe :
          (get : Heap X → ℕ) (put : Heap X → ℕ → Heap X) (old new : ℕ)
          → ((n : Heap X) (t : List ℕ)
              → Sees owner i m s n t
              → IsQueue n t
              → (get n == old) ≡ true
              → (u : List ℕ) × IsQueue (put n new) u
                × Moves owner i n t (put n new) u
                × IsSafe (queue owner) i post (k 1) (put n new) u)
          → ((n : Heap X) (t : List ℕ)
              → Sees owner i m s n t
              → IsQueue n t
              → IsSafe (queue owner) i post (k 0) n t)
          → IsSafe (queue owner) i post (swap get put old new >>= k) m s
      swap-IsSafe get put old new won lost = record {
        safe = λ n t r v. elim (Bool-cases (get n == old)) [
          | inl e ↦ let x = won n t r v e in rw e (x.0, x.1, x.2, x.3.safe)
          | inr e ↦ rw e (t, v, Quiet-Moves n n t (Quiet-refl n), (lost n t r v).safe)
        ];
      }

    -- A program whose accesses all leave the queue.
    pub Quiet-IsSafe :
        {A : Type 0} {q : Prog (Heap X) A} (m : Heap X) (s : List ℕ)
        → Obeys Quiet q
        → IsSafe (queue owner) i (λ _ m' s'. Sees owner i m s m' s') q m s
    Quiet-IsSafe m s o = record {
      safe =
          Safe-Obeys (queue owner) (queue-IsProtocol owner) i {Q = Quiet} m s m s
            (λ n n' t q v. (Quiet-IsQueue n n' t q v, Quiet-Moves n n' t q, Quiet-Sees n n' t q))
            (Sees-refl owner i m s) o;
    }
