-- ===== src/NodeQueue/Take.antt =====
-- `dequeue` run alone: the first value goes.
use mathlib.Core.Path.{subst}
use psly_algorithm.Base.{
  ℕ, suc, ◌≡◌, ◌≢◌, refl, sym, ◌∙◌, true, false, inl, inr, List, [], ◌∷◌, ◌++◌, ◌∉◌, arith, ◌==◌,
  Bool-cases, eq-of-==, ==_refl,
}
use psly_algorithm.Prog.{run, done}
use psly_algorithm.Hazard.{Heap, Settings}
use psly_algorithm.NodeQueue.{with_tail, with_head, dequeue, retire_head, no_value}
use psly_algorithm.NodeQueue.Shared.{nxt, val}
use psly_algorithm.NodeQueue.Chain.{Chain}
use psly_algorithm.NodeQueue.Holds.{Holds, values_of, hasnt-suffix, values_of-same}
use psly_algorithm.NodeQueue.Link.{held}

-- What `dequeue` answers, and what is left.
abbrev pub first_value : List ℕ → ℕ
first_value [] = no_value
first_value (v ∷ vs) = v

abbrev pub without_first : List ℕ → List ℕ
without_first [] = []
without_first (v ∷ vs) = vs

module _ {X : Type 0} (set : Settings) (me fuel : ℕ) (m : Heap X) where
  -- The hazard pointers that a round sets.
  abbrev Looked : Heap X
  Looked = held (held m me 0 m.head) me 1 (nxt m m.head)

  dequeue-none :
      (nxt m m.head == 0) ≡ true → run (dequeue set me (suc fuel)) m ≡ done no_value Looked
  unfolding dequeue
  dequeue-none e = ground (arith, ==_refl m.head)

  dequeue-behind :
      (nxt m m.head == 0) ≡ false
      → (m.head == m.tail) ≡ true
      → run (dequeue set me (suc fuel)) m
        ≡ run (dequeue set me fuel) (with_tail Looked (nxt m m.head))
  unfolding dequeue
  dequeue-behind e t = ground (arith, ==_refl m.head, ==_refl m.tail)

  -- The memory when the head has moved.
  abbrev Popped : Heap X
  Popped = with_head (held (held Looked me 1 0) me 0 0) (nxt m m.head)

  dequeue-pop :
      (nxt m m.head == 0) ≡ false
      → (m.head == m.tail) ≡ false
      → run (dequeue set me (suc fuel)) m
        ≡ run (retire_head set me fuel m.head (val m (nxt m m.head))) Popped
  unfolding dequeue
  dequeue-pop e t = ground (arith, ==_refl m.head)

-- A chain that ends does not come back to its first node.
no_loop : (f : ℕ → ℕ) (x : ℕ) (ns : List ℕ) → f x ≡ x → x ≢ 0 → Chain f (x ∷ ns) → ⊥
no_loop f x [] e z c = z (sym e ∙ c)
no_loop f x (y ∷ ns) e z c =
    no_loop f x ns e z (subst (λ (w : ℕ). Chain f (w ∷ ns)) (sym c.0 ∙ e) c.1)

-- What `dequeue` leaves.
pub record Dequeued {X : Type 0} (set : Settings) (me fuel : ℕ) (m : Heap X) (ns : List ℕ)
    : Type 0 where
  pub after : Heap X
  pub returns : run (dequeue set me fuel) m ≡ done (first_value (values_of m ns)) after
  pub holds : Holds after (without_first ns)
  pub values : values_of after (without_first ns) ≡ without_first (values_of m ns)

module _ {X : Type 0} (set : Settings) (keeps : set.flag_ret ≡ false) (me : ℕ) where
  -- `Tail` is behind the dummy.
  pop-Dequeued :
      (fuel : ℕ) (m : Heap X) (n : ℕ) (ns : List ℕ) (x : ℕ) (b a : List ℕ)
      → Chain (nxt m) (m.head ∷ n ∷ ns)
      → 0 ∉ (m.head ∷ n ∷ ns)
      → m.head ∷ n ∷ ns ≡ x ∷ b ++ m.tail ∷ a
      → (m.head == m.tail) ≡ false
      → Dequeued set me (suc fuel) m (n ∷ ns)
  unfolding retire_head
  pop-Dequeued fuel m n ns x b a c z e t = record {
    after = Popped set me fuel m;
    returns = dequeue-pop set me fuel m (rw c.0 (ground arith)) t ∙ rw (keeps, c.0) refl;
    holds = record {
      chain = rw c.0 c.1;
      no_null = rw c.0 (hasnt-suffix 0 (m.head ∷ []) n ns z);
      before = b;
      after = a;
      split = rw c.0 (cc);
    };
    values = values_of-same m (Popped set me fuel m) ns (λ r h. refl);
  }

  apart :
      (m : Heap X) (n : ℕ) (ns : List ℕ)
      → Chain (nxt m) (m.head ∷ n ∷ ns)
      → 0 ∉ (m.head ∷ n ∷ ns)
      → (m.head == n) ≡ false
  apart m n ns c z = elim (Bool-cases (m.head == n)) [
    | inr other ↦ other
    | inl here ↦
        let e = eq-of-== m.head n here in
        absurd
          (no_loop (nxt m) m.head (n ∷ ns) (c.0 ∙ sym e) (λ y. absurd (ground (arith, z, y))) c)
  ]

  -- Run alone with two rounds on a queue that holds `ns`, where the head is not retired, `dequeue`
  -- answers the first value, and the others stay, or, where there is none, -1000000.
  pub dequeue-Dequeued :
      (fuel : ℕ) (m : Heap X) (ns : List ℕ) → Holds m ns → Dequeued set me (suc (suc fuel)) m ns
  dequeue-Dequeued fuel m [] h = record {
    after = Looked set me fuel m;
    returns = dequeue-none set me (suc fuel) m (rw h.chain refl);
    holds = record {
      chain = h.chain;
      no_null = h.no_null;
      before = h.before;
      after = h.after;
      split = h.split;
    };
    values = refl;
  }
  dequeue-Dequeued fuel m (n ∷ ns) h = elim (Bool-cases (m.head == m.tail)) [
    | inr t ↦ found h.before h.after h.split t
    | inl t ↦
        let m1 = with_tail (Looked set me fuel m) (nxt m m.head) in
        let x =
          pop-Dequeued fuel m1 n ns m.head [] ns h.chain h.no_null (rw h.chain.0 refl)
            (rw h.chain.0 (apart m n ns h.chain h.no_null)) in
        record {
          after = x.after;
          returns = dequeue-behind set me (suc fuel) m (rw h.chain.0 n_pos) t ∙ x.returns;
          holds = x.holds;
          values = x.values;
        }
  ]
    where
      n_pos : (n == 0) ≡ false
      n_pos = ground (arith, hasnt-suffix 0 (m.head ∷ []) n ns h.no_null)

      found :
          (b a : List ℕ)
          → m.head ∷ n ∷ ns ≡ b ++ m.tail ∷ a
          → (m.head == m.tail) ≡ false
          → Dequeued set me (suc (suc fuel)) m (n ∷ ns)
      found [] a e t = absurd (ground (arith, e, ==_refl m.tail))
      found (x ∷ b) a e t = pop-Dequeued (suc fuel) m n ns x b a h.chain h.no_null e t
