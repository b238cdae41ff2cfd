-- ===== src/HandleQueue/Dequeue.antt =====
-- `dequeue` of hazard_long.c among other threads.
use psly_algorithm.Base.{ℕ, zero, suc, ◌≢◌, refl, List, ◌==◌, eq-of-==, if◌then◌else◌}
use psly_algorithm.Prog.{Obeys->>=, Prog, ◌>>=◌, ◌>>◌}
use psly_algorithm.Prog.Rely.{IsSafe, IsSafe-if, IsSafe->>=, give_up-IsSafe, ret-IsSafe}
use psly_algorithm.Hazard.{Heap, Settings, load}
use psly_algorithm.Hazard.Quiet.{retire_node-Quiet}
use psly_algorithm.NodeQueue.{swap_tail, swap_head}
use psly_algorithm.NodeQueue.Shared.{nxt, val, Sees, queue, queue-IsProtocol}
use psly_algorithm.NodeQueue.Shared.Rules.{load-IsSafe, Quiet-IsSafe}
use psly_algorithm.NodeQueue.Shared.Swaps.{swap_tail-IsSafe, swap_head-IsSafe}
use psly_algorithm.NodeQueue.Shared.Known.{
  ne-of-==, Fresh, Fresh-Sees, AllFresh, Behind, Behind-Sees,
}
use psly_algorithm.HandleQueue.{Handles, has_handle, remove_both, retire_head, dequeue}
use psly_algorithm.HandleQueue.Rules.{has_handle-Quiet, guarded-Quiet, guarded-IsSafe}

module _ {X : Type 0} (ops : Handles X) (owner : ℕ → ℕ) (i : ℕ) (later : List ℕ) where
  abbrev S :
      {A : Type 0} → (A → Heap X → List ℕ → Type 0) → Prog (Heap X) A → Heap X → List ℕ → Type 0
  S post q m s = IsSafe (queue owner) i post q m s

  remove_both-IsSafe :
      {A : Type 0} {post : A → Heap X → List ℕ → Type 0} {k : ℕ → Prog (Heap X) A} (h next : ℕ)
      (m : Heap X) (s : List ℕ)
      → ((w : ℕ) (n : Heap X) (t : List ℕ) → Sees owner i m s n t → S post (k w) n t)
      → S post (remove_both ops h next >>= k) m s
  unfolding remove_both
  remove_both-IsSafe h next m s then_lem =
      IsSafe->>= (queue owner) (queue-IsProtocol owner) i _ m s
        (Quiet-IsSafe owner i m s (
          Obeys->>= _ (guarded-Quiet (ops.psly_remove h))
            (λ _. guarded-Quiet (ops.psly_remove next))))
        then_lem

  retire_head-IsSafe :
      (set : Settings) (me fuel h value : ℕ) (m : Heap X) (s : List ℕ)
      → Fresh owner i later s
      → S (AllFresh owner i later) (retire_head ops set me fuel h value) m s
  unfolding retire_head
  retire_head-IsSafe set me fuel h value m s f =
      IsSafe-if m s set.flag_ret
        (λ _.
          IsSafe->>= (queue owner) (queue-IsProtocol owner) i _ m s
            (Quiet-IsSafe owner i m s
              (retire_node-Quiet (has_handle ops) (has_handle-Quiet ops) me set fuel fuel h))
            (λ _ m' s' r.
              ret-IsSafe m' s' value
                (λ n t r'. Fresh-Sees owner i later n t (Fresh-Sees owner i later m' s' f r) r')))
        (λ _. ret-IsSafe m s value (λ n t r. Fresh-Sees owner i later n t f r))

  -- `dequeue`, once `next` is known to stand behind the dummy `h`, at the second look at `Head`.
  abbrev Rest : Settings → ℕ → ℕ → ℕ → ℕ → ℕ → Prog (Heap X) ℕ
  Rest set me fuel h t next =
      if h == t then (do remove_both ops h next; swap_tail t next; dequeue ops set me fuel) else (do
        value ← load (λ m. (m.nodes next).value)
        won ← swap_head h next
        remove_both ops h next
        if won == 1 then retire_head ops set me fuel h value else dequeue ops set me fuel)

  module _ (set : Settings) (me fuel : ℕ)
      (again : (m : Heap X) (s : List ℕ)
        → Fresh owner i later s
        → S (AllFresh owner i later) (dequeue ops set me fuel) m s) where
    rest-IsSafe :
        (h t next : ℕ) (m : Heap X) (s : List ℕ)
        → next ≢ 0
        → Behind owner i later h next m s
        → S (AllFresh owner i later) (Rest set me fuel h t next) m s
    rest-IsSafe h t next m s z b =
        IsSafe-if m s (h == t)
          (λ same.
            let e = eq-of-== h t same in
            remove_both-IsSafe h next m s λ w1 m1 s1 r1.
              let b1 = Behind-Sees owner i later h next m1 s1 z b r1 in
              swap_tail-IsSafe owner i m1 s1 t next (rw (← e) b1.on) (rw (← e) b1.follows) z
                (λ w n u r v. again n u (Fresh-Sees owner i later n u b1.others r)))
          (λ _.
            load-IsSafe owner i m s (λ m. (m.nodes next).value)
              λ m1 s1 r1 v1.
                let b1 = Behind-Sees owner i later h next m1 s1 z b r1 in
                swap_head-IsSafe owner i m1 s1 h next b1.on b1.follows z (λ w m2 s2 r2 v2.
                  let f2 = Fresh-Sees owner i later m2 s2 b1.others r2 in
                  remove_both-IsSafe h next m2 s2 λ w3 m3 s3 r3.
                    let f3 = Fresh-Sees owner i later m3 s3 f2 r3 in
                    IsSafe-if m3 s3 (w == 1)
                      (λ _. retire_head-IsSafe set me fuel h (val m1 next) m3 s3 f3)
                      (λ _. again m3 s3 f3)))

  pub dequeue-IsSafe :
      (set : Settings) (me fuel : ℕ) (m : Heap X) (s : List ℕ)
      → Fresh owner i later s
      → S (AllFresh owner i later) (dequeue ops set me fuel) m s
  unfolding dequeue
  dequeue-IsSafe set me zero m s f = give_up-IsSafe m s
  dequeue-IsSafe set me (suc fuel) m s f =
      let again = dequeue-IsSafe set me fuel in
      load-IsSafe owner i m s (λ m. m.head)
        λ m1 s1 r1 v1.
          let h = m1.head in
          let f1 = Fresh-Sees owner i later m1 s1 f r1 in
          guarded-IsSafe owner i (ops.psly_record h) m1 s1 λ w2 m2 s2 r2.
            let f2 = Fresh-Sees owner i later m2 s2 f1 r2 in
            load-IsSafe owner i m2 s2 (λ m. m.head)
              λ m3 s3 r3 v3.
                let f3 = Fresh-Sees owner i later m3 s3 f2 r3 in
                IsSafe-if m3 s3 (m3.head == h)
                  (λ _.
                    load-IsSafe owner i m3 s3 (λ m. m.tail)
                      λ m4 s4 r4 v4.
                        let f4 = Fresh-Sees owner i later m4 s4 f3 r4 in
                        load-IsSafe owner i m4 s4 (λ m. (m.nodes h).next)
                          λ m5 s5 r5 v5.
                            let f5 = Fresh-Sees owner i later m5 s5 f4 r5 in
                            let next = nxt m5 h in
                            let on5 =
                              r5.grows h (r4.grows h (r3.grows h (r2.grows h v1.head_on))) in
                            let b5 : Behind owner i later h next m5 s5 = record {
                              on = on5;
                              follows = refl;
                              others = f5;
                            } in
                            guarded-IsSafe owner i (ops.psly_record next) m5 s5 λ w6 m6 s6 r6.
                              let f6 = Fresh-Sees owner i later m6 s6 f5 r6 in
                              load-IsSafe owner i m6 s6 (λ m. m.head)
                                λ m7 s7 r7 v7.
                                  let f7 = Fresh-Sees owner i later m7 s7 f6 r7 in
                                  IsSafe-if m7 s7 (m7.head == h)
                                    (λ _.
                                      IsSafe-if m7 s7 (next == 0)
                                        (λ _. remove_both-IsSafe h next m7 s7 λ w8 m8 s8 r8.
                                          ret-IsSafe m8 s8 _ (λ n u r.
                                            Fresh-Sees owner i later n u
                                              (Fresh-Sees owner i later m8 s8 f7 r8) r))
                                        (λ full.
                                          let z = ne-of-== _ full in
                                          rest-IsSafe set me fuel again h m4.tail next m7 s7 z (
                                            Behind-Sees owner i later h next m7 s7 z
                                              (Behind-Sees owner i later h next m6 s6 z b5 r6) r7)))
                                    (λ _. remove_both-IsSafe h next m7 s7 λ w8 m8 s8 r8.
                                      again m8 s8 (Fresh-Sees owner i later m8 s8 f7 r8)))
                  (λ _.
                    guarded-IsSafe owner i (ops.psly_remove h) m3 s3
                      λ w4 m4 s4 r4. again m4 s4 (Fresh-Sees owner i later m4 s4 f3 r4))
