-- ===== src/NodeQueue/Shared.antt =====
-- What the threads of the queue may do to it and what they may rely on, where `owner` says whose a
-- node is that `malloc` gives; the value beside the memory is the list of all nodes ever linked.
pub mod Rules
pub mod Swaps
pub mod Known
pub mod Slots
use psly_algorithm.Base.{
  ℕ, ◌≡◌, ◌≢◌, refl, true, false, ◌⊎◌, inl, inr, List, [], ◌∷◌, ◌++◌, ◌∉◌, has, arith, ◌==◌, ◌||◌,
  Bool-cases, eq-of-==, ==_refl,
}
use psly_algorithm.Prog.Rely.{Protocol, IsProtocol}
use psly_algorithm.Hazard.{Heap}
use psly_algorithm.NodeQueue.Chain.{Chain, has-append}

abbrev pub nxt : {X : Type 0} → Heap X → ℕ → ℕ
nxt m r = (m.nodes r).next

abbrev pub val : {X : Type 0} → Heap X → ℕ → ℕ
val m r = (m.nodes r).value

-- The memory holds a queue: `all` are the nodes ever linked, `Head` and `Tail` are among them.
pub record IsQueue {X : Type 0} (m : Heap X) (all : List ℕ) : Type 0 where
  pub chain : Chain (nxt m) all
  pub no_null : 0 ∉ all
  pub head_on : has m.head all ≡ true
  pub tail_on : has m.tail all ≡ true

-- An end of the queue stays, or goes to the node that follows.
pub data Advances (f : ℕ → ℕ) (r : ℕ) : ℕ → Type 0 where
  stays : Advances f r r
  follows : f r ≢ 0 → Advances f r (f r)

-- No node is linked, or one node of thread `i` behind the others.
pub data Links (owner : ℕ → ℕ) (i : ℕ) (all : List ℕ) : List ℕ → Type 0 where
  same : Links owner i all all
  linked : (n : ℕ) → owner n ≡ i → n ∉ all → Links owner i all (all ++ n ∷ [])

-- One access of thread `i`.
pub record Moves {X : Type 0} (owner : ℕ → ℕ) (i : ℕ) (m : Heap X) (all : List ℕ) (m' : Heap X)
    (all' : List ℕ) : Type 0 where
  pub links : Links owner i all all'
  pub head : Advances (nxt m) m.head m'.head
  pub tail : Advances (nxt m) m.tail m'.tail
  pub kept : (r : ℕ) → has r all ≡ true → nxt m r ≢ 0 → nxt m' r ≡ nxt m r
  pub values : (r : ℕ) → has r all ≡ true → val m' r ≡ val m r
  pub others :
      (r : ℕ) → (owner r == i) ≡ false → r ∉ all → (nxt m' r ≡ nxt m r) × (val m' r ≡ val m r)

-- Accesses of the others, as thread `i` sees them.
pub record Sees {X : Type 0} (owner : ℕ → ℕ) (i : ℕ) (m : Heap X) (all : List ℕ) (m' : Heap X)
    (all' : List ℕ) : Type 0 where
  pub grows : (r : ℕ) → has r all ≡ true → has r all' ≡ true
  pub kept : (r : ℕ) → has r all ≡ true → nxt m r ≢ 0 → nxt m' r ≡ nxt m r
  pub values : (r : ℕ) → has r all ≡ true → val m' r ≡ val m r
  pub mine :
      (r : ℕ) → owner r ≡ i → r ∉ all → (r ∉ all') × (nxt m' r ≡ nxt m r) × (val m' r ≡ val m r)

module _ (owner : ℕ → ℕ) where
  Links-grows :
      (i : ℕ) {s s' : List ℕ} → Links owner i s s' → (r : ℕ) → has r s ≡ true → has r s' ≡ true
  Links-grows i same r h = h
  Links-grows i {s} (linked n o f) r h = ground (arith, has-append r n s)

  Links-mine :
      (i : ℕ) {s s' : List ℕ}
      → Links owner i s s'
      → (r : ℕ) → (owner r == i) ≡ false
      → r ∉ s
      → r ∉ s'
  Links-mine i same r o h = h
  Links-mine i {s} (linked n e f) r o h = elim (Bool-cases (r == n)) [
    | inl here ↦ absurd (ground (arith, eq-of-== r n here, ==_refl i))
    | inr other ↦ ground (arith, has-append r n s)
  ]

module _ {X : Type 0} (owner : ℕ → ℕ) where
  abbrev pub queue : Protocol (Heap X) (List ℕ)
  queue = record { inv = IsQueue; may = Moves owner; sees = Sees owner }

  pub Sees-refl : (i : ℕ) (m : Heap X) (s : List ℕ) → Sees owner i m s m s
  Sees-refl i m s = record {
    grows = λ r h. h;
    kept = λ r h n. refl;
    values = λ r h. refl;
    mine = λ r o h. (h, refl, refl);
  }

  pub Sees-trans :
      (i : ℕ) (m : Heap X) (s : List ℕ) (m' : Heap X) (s' : List ℕ) (m'' : Heap X) (s'' : List ℕ)
      → Sees owner i m s m' s'
      → Sees owner i m' s' m'' s''
      → Sees owner i m s m'' s''
  Sees-trans i m s m' s' m'' s'' a b = record {
    grows = λ r h. b.grows r (a.grows r h);
    kept = λ r h n. let e = a.kept r h n in rw (← e) (b.kept r (a.grows r h) (λ z. n (rw e at z)));
    values = λ r h. rw (← a.values r h) (b.values r (a.grows r h));
    mine = λ r o h.
        let x = a.mine r o h in let y = b.mine r o x.0 in (y.0, rw (← x.1) y.1, rw (← x.2) y.2);
  }

  Sees-Moves :
      (i j : ℕ) (m : Heap X) (s : List ℕ) (m' : Heap X) (s' : List ℕ)
      → (j == i) ≡ false
      → IsQueue m s
      → Moves owner i m s m' s'
      → Sees owner j m s m' s'
  Sees-Moves i j m s m' s' other v mv = record {
    grows = Links-grows owner i mv.links;
    kept = mv.kept;
    values = mv.values;
    mine = λ r o h.
        let e : (owner r == i) ≡ false = rw o other in
        let x = mv.others r e h in (Links-mine owner i mv.links r e h, x.0, x.1);
  }

  pub queue-IsProtocol : IsProtocol queue
  queue-IsProtocol = record {
    sees_refl = Sees-refl;
    sees_trans = Sees-trans;
    sees_may = Sees-Moves;
  }
