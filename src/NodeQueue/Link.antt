-- ===== src/NodeQueue/Link.antt =====
-- The loop of `enqueue` run alone: it moves `Tail` to the last node and links behind it.
use psly_algorithm.Base.{
  ℕ, zero, suc, ◌+◌, ◌≡◌, ◌<◌, refl, ◌∙◌, true, false, List, [], ◌∷◌, ◌∉◌, has, length, arith, ◌==◌,
  ==_refl,
}
use psly_algorithm.Prog.{run, done}
use psly_algorithm.Hazard.{Heap, with_slot}
use psly_algorithm.NodeQueue.{with_next, with_tail, link_loop}
use psly_algorithm.NodeQueue.Shared.{nxt}
use psly_algorithm.NodeQueue.Chain.{Chain}

module _ {X : Type 0} where
  -- `HP[j] = v` of the thread `me`.
  abbrev pub held : Heap X → ℕ → ℕ → ℕ → Heap X
  held m me j v = with_slot m ((m.recs me).base + j) v

  module _ (me fuel node : ℕ) (m : Heap X) where
    link-last :
        (nxt m m.tail == 0) ≡ true
        → run (link_loop me (suc fuel) node) m
          ≡ done m.tail (with_next (held m me 0 m.tail) m.tail node)
    unfolding link_loop
    link-last e = ground (arith, ==_refl m.tail)

    link-behind :
        (nxt m m.tail == 0) ≡ false
        → run (link_loop me (suc fuel) node) m
          ≡ run (link_loop me fuel node) (with_tail (held m me 0 m.tail) (nxt m m.tail))
    unfolding link_loop
    link-behind e = ground (arith, ==_refl m.tail)

  -- What the loop leaves when it has linked `node` behind `last`.
  pub record IsLinked (node last : ℕ) (m m' : Heap X) : Type 0 where
    pub nodes : m'.nodes ≡ (with_next m last node).nodes
    pub head : m'.head ≡ m.head
    pub tail : m'.tail ≡ last

  pub link_loop-IsLinked :
      (me node fuel : ℕ) (m : Heap X) (t : ℕ) (after : List ℕ)
      → m.tail ≡ t
      → Chain (nxt m) (t ∷ after)
      → 0 ∉ (t ∷ after)
      → length after < fuel
      → (last : ℕ) × (m' : Heap X) × (run (link_loop me fuel node) m ≡ done last m')
        × IsLinked node last m m'
        × (has last (t ∷ after) ≡ true)
        × (nxt m last ≡ 0)
  link_loop-IsLinked me node zero m t after e c z h = absurd (omega arith)
  link_loop-IsLinked me node (suc fuel) m t [] e c z h = (
    m.tail,
    with_next (held m me 0 m.tail) m.tail node,
    link-last me fuel node m (rw (e, c) refl),
    record { nodes = refl; head = refl; tail = refl },
    ground (arith, ==_refl t),
    rw e c,
  )
  link_loop-IsLinked me node (suc fuel) m t (x ∷ after) e c z h =
      let full : (nxt m m.tail == 0) ≡ false = rw (e, c.0) (ground arith) in
      let m1 = with_tail (held m me 0 m.tail) (nxt m m.tail) in
      let rest =
        link_loop-IsLinked me node fuel m1 x after (rw e c.0) c.1 (ground arith) (omega arith) in
      (
        rest.0,
        rest.1,
        link-behind me fuel node m full ∙ rest.2,
        record { nodes = rest.3.nodes; head = rest.3.head; tail = rest.3.tail },
        ground (arith, rest.4),
        rest.5,
      )
