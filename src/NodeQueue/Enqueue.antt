-- ===== src/NodeQueue/Enqueue.antt =====
-- `enqueue` among other threads.
use psly_algorithm.Base.{ℕ, zero, suc, ◌≡◌, refl, false, List, has, arith, ◌==◌, ==_refl}
use psly_algorithm.Prog.{Prog}
use psly_algorithm.Prog.Rely.{IsSafe, IsSafe-if, IsSafe->>=, give_up-IsSafe, ret-IsSafe}
use psly_algorithm.Hazard.{Heap}
use psly_algorithm.NodeQueue.{link_loop, enqueue}
use psly_algorithm.NodeQueue.Shared.{nxt, queue, queue-IsProtocol}
use psly_algorithm.NodeQueue.Shared.Rules.{IsFresh, load-IsSafe}
use psly_algorithm.NodeQueue.Shared.Swaps.{Own-IsSafe, swap_next-IsSafe, swap_tail-IsSafe}
use psly_algorithm.NodeQueue.Shared.Known.{
  ne-of-==, other_than, Fresh, Fresh-Sees, AllFresh, Linked, Linked-Sees, Ready, Ready-Sees, Known,
  Known-Sees,
}
use psly_algorithm.NodeQueue.Shared.Slots.{set_hp-IsSafe}

module _ {X : Type 0} (owner : ℕ → ℕ) (i me : ℕ) (later : List ℕ) where
  abbrev S :
      {A : Type 0} → (A → Heap X → List ℕ → Type 0) → Prog (Heap X) A → Heap X → List ℕ → Type 0
  S post q m s = IsSafe (queue owner) i post q m s

  link_loop-IsSafe :
      (fuel node : ℕ)
      → has node later ≡ false
      → (m : Heap X) (s : List ℕ) → Ready owner i later node m s
      → S (Linked owner i later node) (link_loop me fuel node) m s
  unfolding link_loop
  link_loop-IsSafe zero node out m s f = give_up-IsSafe m s
  link_loop-IsSafe (suc fuel) node out m s f =
      let again = λ (n : Heap X) (u : List ℕ). link_loop-IsSafe fuel node out n u in
      load-IsSafe owner i m s (λ m. m.tail)
        λ m1 s1 r1 v1.
          let t = m1.tail in
          let k1 : Known owner i later node t m1 s1 = record {
            ready = Ready-Sees owner i later node m s m1 s1 r1 f;
            on = v1.tail_on;
          } in
          set_hp-IsSafe owner i me m1 s1 0 t λ m2 s2 r2 v2.
            let k2 = Known-Sees owner i later node t m2 s2 k1 r2 in
            load-IsSafe owner i m2 s2 (λ m. m.tail)
              λ m3 s3 r3 v3.
                let k3 = Known-Sees owner i later node t m3 s3 k2 r3 in
                let reset = λ (n : Heap X) (u : List ℕ) (k : Known owner i later node t n u).
                  set_hp-IsSafe owner i me {k = λ _. link_loop me fuel node} n u 0 0
                    (λ n' u' r v. again n' u' (Known-Sees owner i later node t n' u' k r).ready) in
                IsSafe-if m3 s3 (m3.tail == t)
                  (λ _.
                    load-IsSafe owner i m3 s3 (λ m. (m.nodes t).next)
                      λ m4 s4 r4 v4.
                        let k4 = Known-Sees owner i later node t m4 s4 k3 r4 in
                        load-IsSafe owner i m4 s4 (λ m. m.tail)
                          λ m5 s5 r5 v5.
                            let k5 = Known-Sees owner i later node t m5 s5 k4 r5 in
                            IsSafe-if m5 s5 (m5.tail == t)
                              (λ _.
                                IsSafe-if m5 s5 (nxt m4 t == 0)
                                  (λ _.
                                    swap_next-IsSafe owner i m5 s5 node k5.ready.fresh t k5.on
                                      k5.ready.next
                                      (λ n u on e grow v. ret-IsSafe n u t (λ n' u' r.
                                        Linked-Sees owner i later node t f.fresh.not_null n u n' u'
                                          r
                                          (
                                            on,
                                            e,
                                            λ x h.
                                                grow x (other_than later node out x h)
                                                  (k5.ready.others x h),
                                          )))
                                      (λ n u r v.
                                        again n u (Known-Sees owner i later node t n u k5 r).ready))
                                  (λ full.
                                    swap_tail-IsSafe owner i m5 s5 t (nxt m4 t) k5.on
                                      (r5.kept t k4.on (ne-of-== _ full)) (ne-of-== _ full)
                                      (λ w n u r v.
                                        again n u
                                          (Known-Sees owner i later node t n u k5 r).ready)))
                              (λ _. reset m5 s5 k5))
                  (λ _. reset m3 s3 k3)

  -- `enqueue` of a node that no thread has linked.
  pub enqueue-IsSafe :
      (fuel node value : ℕ)
      → has node later ≡ false
      → (m : Heap X) (s : List ℕ) → IsFresh owner i node s
      → Fresh owner i later s
      → S (AllFresh owner i later) (enqueue me fuel node value) m s
  unfolding enqueue
  enqueue-IsSafe fuel node value out m s f others =
      Own-IsSafe owner i m s node f
        (λ n. record { head = refl; tail = refl; others = λ r h. ground arith })
        λ m1 s1 g1 v1.
          Own-IsSafe owner i _ s1 node (g1 node f)
            (λ n. record { head = refl; tail = refl; others = λ r h. ground arith })
            λ m2 s2 g2 v2.
              IsSafe->>= (queue owner) (queue-IsProtocol owner) i _ _ s2
                (link_loop-IsSafe fuel node out _ s2 (record {
                  fresh = g2 node (g1 node f);
                  next = ground (arith, ==_refl node);
                  others = λ x h. g2 x (g1 x (others x h));
                }))
                (λ t m3 s3 h.
                  swap_tail-IsSafe owner i m3 s3 t node h.0 h.1 f.not_null (λ w m4 s4 r4 v4.
                    set_hp-IsSafe owner i me m4 s4 0 0 (λ m5 s5 r5 v5.
                      ret-IsSafe m5 s5 0 (λ m6 s6 r6.
                        Fresh-Sees owner i later m6 s6
                          (Fresh-Sees owner i later m5 s5 (Fresh-Sees owner i later m4 s4 h.2 r4)
                            r5)
                          r6))))
