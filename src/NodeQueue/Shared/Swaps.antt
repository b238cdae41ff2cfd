-- ===== src/NodeQueue/Shared/Swaps.antt =====
-- The accesses that change the queue: its ends move, a node is linked, a thread prepares its node.
use psly_algorithm.Base.{
  ℕ, ◌≡◌, ◌≢◌, refl, ap, ◌∙◌, true, false, inl, inr, List, [], ◌∷◌, ◌++◌, has, arith, ◌==◌,
  Bool-cases, eq-of-==, ==_refl, if◌then◌else◌,
}
use psly_algorithm.Prog.{Prog, ◌>>=◌}
use psly_algorithm.Prog.Rely.{IsSafe}
use psly_algorithm.Hazard.{Node, Heap, store}
use psly_algorithm.NodeQueue.{with_next, with_head, with_tail, swap_tail, swap_head, swap_next}
use psly_algorithm.NodeQueue.Chain.{Chain-frame, Chain-append, has-append}
use psly_algorithm.NodeQueue.Shared.{nxt, val, IsQueue, stays, same, linked, Moves, Sees, queue}
use psly_algorithm.NodeQueue.Shared.Rules.{IsFresh, IsFresh-Sees, swap-IsSafe, on_lem, Advances-to}

module _ {X : Type 0} (owner : ℕ → ℕ) (i : ℕ) where
  module _ {A : Type 0} {post : A → Heap X → List ℕ → Type 0} {k : ℕ → Prog (Heap X) A} (m : Heap X)
      (s : List ℕ) (old new : ℕ) (on : has old s ≡ true) (e : nxt m old ≡ new) (not_null : new ≢ 0)
      (next : (w : ℕ) (n : Heap X) (t : List ℕ)
        → Sees owner i m s n t
        → IsQueue n t
        → IsSafe (queue owner) i post (k w) n t) where
    pub swap_tail-IsSafe : IsSafe (queue owner) i post (swap_tail old new >>= k) m s
    swap_tail-IsSafe =
        swap-IsSafe owner i m s (λ m. m.tail) with_tail old new
          (λ n t r v here.
            let v' : IsQueue (with_tail n new) t = record {
              chain = v.chain;
              no_null = v.no_null;
              head_on = v.head_on;
              tail_on = on_lem owner i m s old new on e not_null n t r v;
            } in
            (
              t,
              v',
              record {
                links = same;
                head = stays;
                tail = Advances-to owner i m s old new on e not_null n t r n.tail here;
                kept = λ r h z. refl;
                values = λ r h. refl;
                others = λ r o h. (refl, refl);
              },
              next 1 (with_tail n new) t
                  (record { grows = r.grows; kept = r.kept; values = r.values; mine = r.mine }) v',
            ))
          (λ n t r v. next 0 n t r v)

    pub swap_head-IsSafe : IsSafe (queue owner) i post (swap_head old new >>= k) m s
    swap_head-IsSafe =
        swap-IsSafe owner i m s (λ m. m.head) with_head old new
          (λ n t r v here.
            let v' : IsQueue (with_head n new) t = record {
              chain = v.chain;
              no_null = v.no_null;
              tail_on = v.tail_on;
              head_on = on_lem owner i m s old new on e not_null n t r v;
            } in
            (
              t,
              v',
              record {
                links = same;
                tail = stays;
                head = Advances-to owner i m s old new on e not_null n t r n.head here;
                kept = λ r h z. refl;
                values = λ r h. refl;
                others = λ r o h. (refl, refl);
              },
              next 1 (with_head n new) t
                  (record { grows = r.grows; kept = r.kept; values = r.values; mine = r.mine }) v',
            ))
          (λ n t r v. next 0 n t r v)

  nxt-with_next :
      (m : Heap X) (a w r : ℕ) → nxt (with_next m a w) r ≡ (if r == a then w else nxt m r)
  nxt-with_next m a w r = ground arith

  val-with_next : (m : Heap X) (a w r : ℕ) → val (with_next m a w) r ≡ val m r
  val-with_next m a w r = ground arith

  -- The node of the thread goes behind the last.
  module _ (n : Heap X) (t : List ℕ) (old node : ℕ) (v : IsQueue n t) (on : has old t ≡ true)
      (last : (nxt n old == 0) ≡ true) (f : IsFresh owner i node t) (e : nxt n node ≡ 0) where
    apart : (node == old) ≡ false
    apart = elim (Bool-cases (node == old)) [
      | inl here ↦ absurd (ground (arith, eq-of-== node old here, f.out, on))
      | inr other ↦ other
    ]

    at_old : nxt (with_next n old node) old ≡ node
    at_old = ground (arith, ==_refl old)

    at_others : (r : ℕ) → (r == old) ≡ false → nxt (with_next n old node) r ≡ nxt n r
    at_others r h = ground arith

    pub linked-IsQueue : IsQueue (with_next n old node) (t ++ node ∷ [])
    linked-IsQueue = record {
      chain =
          Chain-append (nxt n) (nxt (with_next n old node)) t old node v.chain on
            (eq-of-== _ _ last) v.no_null at_old (at_others node apart ∙ e) at_others;
      no_null = ground (arith, has-append 0 node t, v.no_null, f.not_null);
      head_on = ground (arith, has-append n.head node t, v.head_on);
      tail_on = ground (arith, has-append n.tail node t, v.tail_on);
    }

    pub linked-Moves : Moves owner i n t (with_next n old node) (t ++ node ∷ [])
    linked-Moves = record {
      links = linked node f.mine f.out;
      head = stays;
      tail = stays;
      kept = λ r h z. elim (Bool-cases (r == old)) [
        | inl here ↦ absurd (ground (arith, eq-of-== r old here, last, z))
        | inr other ↦ at_others r other
      ];
      values = λ r h. val-with_next n old node r;
      others = λ r o h. elim (Bool-cases (r == old)) [
        | inl here ↦ absurd (ground (arith, eq-of-== r old here, on, h))
        | inr other ↦ (at_others r other, val-with_next n old node r)
      ];
    }

  -- A store into a node of the thread that is not linked yet.
  pub record Own (node : ℕ) (m m' : Heap X) : Type 0 where
    pub head : m'.head ≡ m.head
    pub tail : m'.tail ≡ m.tail
    pub others : (r : ℕ) → (r == node) ≡ false → m'.nodes r ≡ m.nodes r

  module _ (node : ℕ) (n n' : Heap X) (t : List ℕ) (o : Own node n n')
      (f : IsFresh owner i node t) where
    on-others : (r : ℕ) → has r t ≡ true → n'.nodes r ≡ n.nodes r
    on-others r h = elim (Bool-cases (r == node)) [
      | inl here ↦ absurd (ground (arith, eq-of-== r node here, f.out, h))
      | inr other ↦ o.others r other
    ]

    Own-IsQueue : IsQueue n t → IsQueue n' t
    Own-IsQueue v = record {
      chain =
          Chain-frame (nxt n) (nxt n') t (λ r h. ap (λ (x : Node). x.next) (on-others r h)) v.chain;
      no_null = v.no_null;
      head_on = rw o.head v.head_on;
      tail_on = rw o.tail v.tail_on;
    }

    Own-Moves : Moves owner i n t n' t
    Own-Moves = record {
      links = same;
      head = rw o.head stays;
      tail = rw o.tail stays;
      kept = λ r h z. ap (λ (x : Node). x.next) (on-others r h);
      values = λ r h. ap (λ (x : Node). x.value) (on-others r h);
      others = λ r e h.
          let far : (r == node) ≡ false = elim (Bool-cases (r == node)) [
            | inl here ↦ absurd (ground (arith, eq-of-== r node here, f.mine, ==_refl i))
            | inr other ↦ other
          ] in
          (ap (λ (x : Node). x.next) (o.others r far), ap (λ (x : Node). x.value) (o.others r far));
    }

  module _ {A : Type 0} {post : A → Heap X → List ℕ → Type 0} {k : ℕ → Prog (Heap X) A} (m : Heap X)
      (s : List ℕ) (node : ℕ) (f : IsFresh owner i node s) where
    pub Own-IsSafe :
        {g : Heap X → Heap X}
        → ((n : Heap X) → Own node n (g n))
        → ((n : Heap X) (t : List ℕ)
            → ((r : ℕ) → IsFresh owner i r s → IsFresh owner i r t)
            → IsQueue (g n) t
            → IsSafe (queue owner) i post (k 0) (g n) t)
        → IsSafe (queue owner) i post (store g >>= k) m s
    Own-IsSafe {g} own next = record {
      safe = λ n t r v.
          let f' = IsFresh-Sees owner i node m s n t r f in
          let v' = Own-IsQueue node n (g n) t (own n) f' v in
          (
            t,
            v',
            Own-Moves node n (g n) t (own n) f',
            (next n t (λ x y. IsFresh-Sees owner i x m s n t r y) v').safe,
          );
    }

    pub swap_next-IsSafe :
        (old : ℕ)
        → has old s ≡ true
        → nxt m node ≡ 0
        → ((n : Heap X) (t : List ℕ)
            → has old t ≡ true
            → nxt n old ≡ node
            → ((r : ℕ) → (r == node) ≡ false → IsFresh owner i r s → IsFresh owner i r t)
            → IsQueue n t
            → IsSafe (queue owner) i post (k 1) n t)
        → ((n : Heap X) (t : List ℕ)
            → Sees owner i m s n t
            → IsQueue n t
            → IsSafe (queue owner) i post (k 0) n t)
        → IsSafe (queue owner) i post (swap_next old 0 node >>= k) m s
    swap_next-IsSafe old on e won lost =
        swap-IsSafe owner i m s (λ m. (m.nodes old).next) (λ m v. with_next m old v) 0 node
          (λ n t r v last.
            let f' = IsFresh-Sees owner i node m s n t r f in
            let e' = (r.mine node f.mine f.out).1 ∙ e in
            let v' = linked-IsQueue n t old node v (r.grows old on) last f' e' in
            (
              t ++ node ∷ [],
              v',
              linked-Moves n t old node v (r.grows old on) last f' e',
              won (with_next n old node) (t ++ node ∷ [])
                  (ground (arith, has-append old node t, r.grows old on))
                  (ground (arith, ==_refl old))
                  (λ x far y.
                    let y' = IsFresh-Sees owner i x m s n t r y in
                    record {
                      mine = y'.mine;
                      out = ground (arith, has-append x node t, y'.out);
                      not_null = y'.not_null;
                    })
                  v',
            ))
          lost
