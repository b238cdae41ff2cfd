-- ===== src/NodeQueue/Put.antt =====
-- `enqueue` run alone: the value goes behind the others.
use mathlib.Core.Path.{subst}
use psly_algorithm.Base.{
  ℕ, suc, ◌+◌, ◌≡◌, ◌≢◌, ◌<◌, refl, sym, ◌∙◌, ap, true, false, inl, inr, List, [], ◌∷◌, ◌++◌, ◌∉◌,
  has, length, length-append, arith, ◌==◌, Bool-cases, eq-of-==, ==_refl,
}
use psly_algorithm.Prog.{Prog, ◌>>=◌, run, done, run->>=}
use psly_algorithm.Hazard.{Heap, set_hp}
use psly_algorithm.NodeQueue.{with_value, with_next, with_tail, swap_tail, link_loop, enqueue}
use psly_algorithm.NodeQueue.Shared.{nxt, val}
use psly_algorithm.NodeQueue.Chain.{Chain, Chain-frame, Chain-append, has-append}
use psly_algorithm.NodeQueue.Holds.{
  Holds, values_of, Chain-suffix, has-suffix, hasnt-suffix, values_of-same, values_of-append,
}
use psly_algorithm.NodeQueue.Link.{held, IsLinked, link_loop-IsLinked}

module _ {X : Type 0} (me fuel node value : ℕ) (m : Heap X) (ns : List ℕ) (h : Holds m ns)
    (out : node ∉ (m.head ∷ ns)) (not_null : node ≢ 0) (enough : length ns < fuel) where
  -- The node is prepared.
  abbrev Ready : Heap X
  Ready = with_next (with_value m node value) node 0

  far : (r : ℕ) → has r (m.head ∷ ns) ≡ true → (r == node) ≡ false
  far r e = elim (Bool-cases (r == node)) [
    | inl here ↦ absurd (ground (arith, eq-of-== r node here))
    | inr other ↦ other
  ]

  ready-Chain : Chain (nxt Ready) (m.head ∷ ns)
  ready-Chain =
      Chain-frame (nxt m) (nxt Ready) (m.head ∷ ns) (λ r e. ground (arith, far r e)) h.chain

  -- The memory at the end, when the loop has left `m3`.
  abbrev Ended : Heap X → Heap X
  Ended m3 = held (with_tail m3 node) me 0 0

  module _ (last : ℕ) (m3 : Heap X) (e : run (link_loop me fuel node) Ready ≡ done last m3)
      (l : IsLinked node last Ready m3) (on : has last (m.head ∷ ns) ≡ true)
      (end_lem : nxt Ready last ≡ 0) where
    g : ℕ → Prog (Heap X) ℕ
    g t = swap_tail t node >>= λ _. set_hp me 0 0

    run-Ended : run (enqueue me fuel node value) m ≡ done 0 (Ended m3)
    unfolding enqueue g
    run-Ended =
        run->>= (link_loop me fuel node) g Ready ∙ rw (e, l.tail) (ground (arith, ==_refl last))

    next-last : nxt (Ended m3) last ≡ node
    next-last = rw (nxt, l.nodes) (ground (arith, ==_refl last))

    next-others : (r : ℕ) → (r == last) ≡ false → nxt (Ended m3) r ≡ nxt Ready r
    next-others r o = rw (nxt, l.nodes) (ground (arith))

    val-others : (r : ℕ) → val (Ended m3) r ≡ val Ready r
    val-others r = rw (val, l.nodes) (ground (arith))

    no_null_lem : 0 ∉ ((m.head ∷ ns) ++ node ∷ [])
    no_null_lem = has-append 0 node (m.head ∷ ns) ∙ rw h.no_null (ground (arith, not_null))

    Ended-Holds : Holds (Ended m3) (ns ++ node ∷ [])
    Ended-Holds =
        let node_end : nxt Ready node ≡ 0 = ground (arith, ==_refl node) in
        record {
          chain = rw l.head (
              Chain-append (nxt Ready) (nxt (Ended m3)) (m.head ∷ ns) last node ready-Chain on
                end_lem h.no_null next-last
                (next-others node (ground (arith, far last on)) ∙ node_end) next-others);
          no_null = rw l.head no_null_lem;
          before = m.head ∷ ns;
          after = [];
          split = rw l.head refl;
        }

    Ended-values : values_of (Ended m3) (ns ++ node ∷ []) ≡ values_of m ns ++ value ∷ []
    Ended-values =
        values_of-append (Ended m3) ns node
        ∙ rw
            (
              values_of-same m (Ended m3) ns
                  (λ r e. val-others r ∙ ground (arith, far r (ground arith))),
              val-others node,
            )
            (ground (arith, ==_refl node))

  -- Run alone on a queue that holds `ns`, with more rounds than it has nodes, `enqueue` of a node
  -- that is not in the queue ends and the queue holds that node, too, behind the others, with the
  -- value behind the other values.
  pub enqueue-Holds :
      (m' : Heap X) × (run (enqueue me fuel node value) m ≡ done 0 m')
      × Holds m' (ns ++ node ∷ [])
      × (values_of m' (ns ++ node ∷ []) ≡ values_of m ns ++ value ∷ [])
  enqueue-Holds =
      let size : suc (length ns) ≡ length h.before + suc (length h.after) =
        ap length h.split ∙ length-append h.before (m.tail ∷ h.after) in
      let x =
        link_loop-IsLinked me node fuel Ready m.tail h.after refl
          (Chain-suffix (nxt Ready) h.before m.tail h.after
            (subst (Chain (nxt Ready)) h.split ready-Chain))
          (hasnt-suffix 0 h.before m.tail h.after
            (subst (λ (l : List ℕ). has 0 l ≡ false) h.split h.no_null))
          (omega arith) in
      let on : has x.0 (m.head ∷ ns) ≡ true =
        subst (λ (l : List ℕ). has x.0 l ≡ true) (sym h.split)
          (has-suffix x.0 h.before m.tail h.after x.4) in
      (
        Ended x.1,
        run-Ended x.0 x.1 x.2 x.3 on x.5,
        Ended-Holds x.0 x.1 x.2 x.3 on x.5,
        Ended-values x.0 x.1 x.2 x.3 on x.5,
      )
