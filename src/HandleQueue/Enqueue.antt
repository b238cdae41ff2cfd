-- ===== src/HandleQueue/Enqueue.antt =====
-- `enqueue` of hazard_long.c among other threads.
use psly_algorithm.Base.{ℕ, zero, suc, ◌≡◌, refl, sym, ◌∙◌, false, List, has, arith, ◌==◌, ==_refl}
use psly_algorithm.Prog.{Prog}
use psly_algorithm.Prog.Rely.{
  IsSafe, IsSafe-if, IsSafe->>=, give_up-IsSafe, crash-IsSafe, ret-IsSafe,
}
use psly_algorithm.Hazard.{Heap}
use psly_algorithm.NodeQueue.Shared.{nxt, Sees, queue, queue-IsProtocol}
use psly_algorithm.NodeQueue.Shared.Rules.{IsFresh, load-IsSafe}
use psly_algorithm.NodeQueue.Shared.Swaps.{Own-IsSafe, swap_next-IsSafe, swap_tail-IsSafe}
use psly_algorithm.NodeQueue.Shared.Known.{
  ne-of-==, other_than, Fresh, Fresh-Sees, AllFresh, Linked, Linked-Sees, Ready, Ready-Sees, Known,
  Known-Sees,
}
use psly_algorithm.HandleQueue.{Handles, link_loop, enqueue}
use psly_algorithm.HandleQueue.Rules.{guarded-IsSafe}

module _ {X : Type 0} (ops : Handles X) (owner : ℕ → ℕ) (i : ℕ) (later : List ℕ) where
  abbrev S :
      {A : Type 0} → (A → Heap X → List ℕ → Type 0) → Prog (Heap X) A → Heap X → List ℕ → Type 0
  S post q m s = IsSafe (queue owner) i post q m s

  link_loop-IsSafe :
      (fuel node : ℕ)
      → has node later ≡ false
      → (m : Heap X) (s : List ℕ) → Ready owner i later node m s
      → S (Linked owner i later node) (link_loop ops fuel node) m s
  unfolding link_loop
  link_loop-IsSafe zero node out m s f = give_up-IsSafe m s
  link_loop-IsSafe (suc fuel) node out m s f =
      load-IsSafe owner i m s (λ m. m.tail)
        λ m1 s1 r1 v1.
          let t = m1.tail in
          let again = λ (n : Heap X) (u : List ℕ) (k : Known owner i later node t n u).
            link_loop-IsSafe fuel node out n u k.ready in
          let k1 : Known owner i later node t m1 s1 = record {
            ready = Ready-Sees owner i later node m s m1 s1 r1 f;
            on = v1.tail_on;
          } in
          let keep =
            λ (m : Heap X) (s : List ℕ) (n : Heap X) (u : List ℕ)
                (k : Known owner i later node t m s) (r : Sees owner i m s n u).
              Known-Sees owner i later node t {m = m} {s = s} n u k r in
          let released = λ (n : Heap X) (u : List ℕ) (k : Known owner i later node t n u).
            guarded-IsSafe owner i {k = λ _. link_loop ops fuel node} (ops.psly_remove t) n u
              (λ w n' u' r. again n' u' (keep n u n' u' k r)) in
          guarded-IsSafe owner i (ops.psly_record t) m1 s1 λ w2 m2 s2 r2.
            let k2 = keep m1 s1 m2 s2 k1 r2 in
            load-IsSafe owner i m2 s2 (λ m. m.tail)
              λ m3 s3 r3 v3.
                let k3 = keep m2 s2 m3 s3 k2 r3 in
                IsSafe-if m3 s3 (m3.tail == t)
                  (λ _.
                    load-IsSafe owner i m3 s3 (λ m. (m.nodes t).next)
                      λ m4 s4 r4 v4.
                        let k4 = keep m3 s3 m4 s4 k3 r4 in
                        load-IsSafe owner i m4 s4 (λ m. m.tail)
                          λ m5 s5 r5 v5.
                            let k5 = keep m4 s4 m5 s5 k4 r5 in
                            IsSafe-if m5 s5 (m5.tail == t)
                              (λ _.
                                IsSafe-if m5 s5 (nxt m4 t == 0)
                                  (λ _.
                                    swap_next-IsSafe owner i m5 s5 node k5.ready.fresh t k5.on
                                      k5.ready.next
                                      (λ n u on e grow v.
                                        let linked : Linked owner i later node t n u = (
                                          on,
                                          e,
                                          λ x h.
                                              grow x (other_than later node out x h)
                                                (k5.ready.others x h),
                                        ) in
                                        guarded-IsSafe owner i (ops.psly_remove t) n u (λ w n' u' r.
                                          let linked' =
                                            Linked-Sees owner i later node t f.fresh.not_null n u n'
                                              u' r linked in
                                          IsSafe-if n' u' (t == node) (λ _. crash-IsSafe n' u')
                                            (λ _. ret-IsSafe n' u' t (λ n'' u'' r'.
                                              Linked-Sees owner i later node t f.fresh.not_null n'
                                                u' n'' u'' r' linked'))))
                                      (λ n u r v. released n u (keep m5 s5 n u k5 r)))
                                  (λ full.
                                    guarded-IsSafe owner i (ops.psly_remove t) m5 s5 (λ w6 m6 s6 r6.
                                      let k6 = keep m5 s5 m6 s6 k5 r6 in
                                      let e5 = r5.kept t k4.on (ne-of-== _ full) in
                                      swap_tail-IsSafe owner i m6 s6 t (nxt m4 t) k6.on
                                        (r6.kept t k5.on (λ z. ne-of-== _ full (sym e5 ∙ z)) ∙ e5)
                                        (ne-of-== _ full)
                                        (λ w n u r v. again n u (keep m6 s6 n u k6 r)))))
                              (λ _. released m5 s5 k5))
                  (λ _. released m3 s3 k3)

  -- `enqueue` of a node that no thread has linked.
  pub enqueue-IsSafe :
      (fuel node value : ℕ)
      → has node later ≡ false
      → (m : Heap X) (s : List ℕ) → IsFresh owner i node s
      → Fresh owner i later s
      → S (AllFresh owner i later) (enqueue ops fuel node value) m s
  unfolding enqueue
  enqueue-IsSafe fuel node value out m s f others =
      Own-IsSafe owner i m s node f
        (λ n. record { head = refl; tail = refl; others = λ r h. ground arith })
        λ m1 s1 g1 v1.
          Own-IsSafe owner i _ s1 node (g1 node f)
            (λ n. record { head = refl; tail = refl; others = λ r h. ground arith })
            λ m2 s2 g2 v2.
              Own-IsSafe owner i _ s2 node (g2 node (g1 node f))
                (λ n. record { head = refl; tail = refl; others = λ r h. ground arith })
                λ m3 s3 g3 v3.
                  let grow = λ (x : ℕ) (y : IsFresh owner i x s). g3 x (g2 x (g1 x y)) in
                  IsSafe->>= (queue owner) (queue-IsProtocol owner) i _ _ s3
                    (link_loop-IsSafe fuel node out _ s3 (record {
                      fresh = grow node f;
                      next = ground (arith, ==_refl node);
                      others = λ x h. grow x (others x h);
                    }))
                    (λ t m4 s4 h.
                      swap_tail-IsSafe owner i m4 s4 t node h.0 h.1 f.not_null (λ w m5 s5 r5 v5.
                        ret-IsSafe m5 s5 w (λ m6 s6 r6.
                          Fresh-Sees owner i later m6 s6 (Fresh-Sees owner i later m5 s5 h.2 r5)
                            r6)))
