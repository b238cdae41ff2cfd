-- ===== src/NodeQueue/Dequeue.antt =====
-- `dequeue` among other threads.
use psly_algorithm.Base.{ℕ, zero, suc, ◌≢◌, refl, List, ◌==◌, eq-of-==, if◌then◌else◌}
use psly_algorithm.Prog.{Prog, ◌>>=◌, ◌>>◌}
use psly_algorithm.Prog.Rely.{IsSafe, IsSafe-if, IsSafe->>=, give_up-IsSafe, ret-IsSafe}
use psly_algorithm.Hazard.{Heap, Settings, load, set_hp, is_in}
use psly_algorithm.NodeQueue.{swap_tail, swap_head, dequeue, retire_head}
use psly_algorithm.NodeQueue.Shared.{nxt, val, queue, queue-IsProtocol}
use psly_algorithm.NodeQueue.Shared.Rules.{load-IsSafe, Quiet-IsSafe}
use psly_algorithm.Hazard.Quiet.{is_in-Quiet, retire_node-Quiet}
use psly_algorithm.NodeQueue.Shared.Swaps.{swap_tail-IsSafe, swap_head-IsSafe}
use psly_algorithm.NodeQueue.Shared.Known.{
  ne-of-==, Fresh, Fresh-Sees, AllFresh, Behind, Behind-Sees,
}
use psly_algorithm.NodeQueue.Shared.Slots.{set_hp-IsSafe}

module _ {X : Type 0} (owner : ℕ → ℕ) (i me : ℕ) (later : List ℕ) where
  abbrev S :
      {A : Type 0} → (A → Heap X → List ℕ → Type 0) → Prog (Heap X) A → Heap X → List ℕ → Type 0
  S post q m s = IsSafe (queue owner) i post q m s

  retire_head-IsSafe :
      (set : Settings) (fuel h value : ℕ) (m : Heap X) (s : List ℕ)
      → Fresh owner i later s
      → S (AllFresh owner i later) (retire_head set me fuel h value) m s
  unfolding retire_head
  retire_head-IsSafe set fuel h value m s f =
      IsSafe-if m s set.flag_ret
        (λ _.
          IsSafe->>= (queue owner) (queue-IsProtocol owner) i _ m s
            (Quiet-IsSafe owner i m s (retire_node-Quiet is_in is_in-Quiet me set fuel fuel h))
            (λ _ m' s' r.
              ret-IsSafe m' s' value
                (λ n t r'. Fresh-Sees owner i later n t (Fresh-Sees owner i later m' s' f r) r')))
        (λ _. ret-IsSafe m s value (λ n t r. Fresh-Sees owner i later n t f r))

  -- `dequeue`, once `next` is known to stand behind the dummy `h`, at the second look at `Head`.
  abbrev Rest : Settings → ℕ → ℕ → ℕ → ℕ → Prog (Heap X) ℕ
  Rest set fuel h t next = if h == t then (do swap_tail t next; dequeue set me fuel) else (do
    value ← load (λ m. (m.nodes next).value)
    set_hp me 1 0
    set_hp me 0 0
    won ← swap_head h next
    if won == 1 then retire_head set me fuel h value else dequeue set me fuel)

  module _ (set : Settings) (fuel : ℕ)
      (again : (m : Heap X) (s : List ℕ)
        → Fresh owner i later s
        → S (AllFresh owner i later) (dequeue set me fuel) m s) where
    rest-IsSafe :
        (h t next : ℕ) (m : Heap X) (s : List ℕ)
        → next ≢ 0
        → Behind owner i later h next m s
        → S (AllFresh owner i later) (Rest set fuel h t next) m s
    rest-IsSafe h t next m s z b =
        IsSafe-if m s (h == t)
          (λ same.
            let e = eq-of-== h t same in
            swap_tail-IsSafe owner i m s t next (rw (← e) b.on) (rw (← e) b.follows) z
              (λ w n u r v. again n u (Fresh-Sees owner i later n u b.others r)))
          (λ _.
            load-IsSafe owner i m s (λ m. (m.nodes next).value)
              λ m1 s1 r1 v1.
                let b1 = Behind-Sees owner i later h next m1 s1 z b r1 in
                set_hp-IsSafe owner i me m1 s1 1 0 λ m2 s2 r2 v2.
                  let b2 = Behind-Sees owner i later h next m2 s2 z b1 r2 in
                  set_hp-IsSafe owner i me m2 s2 0 0 λ m3 s3 r3 v3.
                    let b3 = Behind-Sees owner i later h next m3 s3 z b2 r3 in
                    swap_head-IsSafe owner i m3 s3 h next b3.on b3.follows z (λ w n u r v.
                      IsSafe-if n u (w == 1)
                        (λ _.
                          retire_head-IsSafe set fuel h (val m1 next) n u
                            (Fresh-Sees owner i later n u b3.others r))
                        (λ _. again n u (Fresh-Sees owner i later n u b3.others r))))

  pub dequeue-IsSafe :
      (set : Settings) (fuel : ℕ) (m : Heap X) (s : List ℕ)
      → Fresh owner i later s
      → S (AllFresh owner i later) (dequeue set me fuel) m s
  unfolding dequeue
  dequeue-IsSafe set zero m s f = give_up-IsSafe m s
  dequeue-IsSafe set (suc fuel) m s f =
      let again = dequeue-IsSafe set fuel in
      load-IsSafe owner i m s (λ m. m.head)
        λ m1 s1 r1 v1.
          let f1 = Fresh-Sees owner i later m1 s1 f r1 in
          let h = m1.head in
          set_hp-IsSafe owner i me m1 s1 0 h λ m2 s2 r2 v2.
            let f2 = Fresh-Sees owner i later m2 s2 f1 r2 in
            load-IsSafe owner i m2 s2 (λ m. m.head)
              λ m3 s3 r3 v3.
                let f3 = Fresh-Sees owner i later m3 s3 f2 r3 in
                IsSafe-if m3 s3 (m3.head == h)
                  (λ _.
                    load-IsSafe owner i m3 s3 (λ m. m.tail)
                      λ m4 s4 r4 v4.
                        let f4 = Fresh-Sees owner i later m4 s4 f3 r4 in
                        load-IsSafe owner i m4 s4 (λ m. (m.nodes h).next)
                          λ m5 s5 r5 v5.
                            let f5 = Fresh-Sees owner i later m5 s5 f4 r5 in
                            let on5 =
                              r5.grows h (r4.grows h (r3.grows h (r2.grows h v1.head_on))) in
                            set_hp-IsSafe owner i me m5 s5 1 (nxt m5 h) λ m6 s6 r6 v6.
                              let f6 = Fresh-Sees owner i later m6 s6 f5 r6 in
                              load-IsSafe owner i m6 s6 (λ m. m.head)
                                λ m7 s7 r7 v7.
                                  let f7 = Fresh-Sees owner i later m7 s7 f6 r7 in
                                  IsSafe-if m7 s7 (m7.head == h)
                                    (λ _.
                                      IsSafe-if m7 s7 (nxt m5 h == 0)
                                        (λ _.
                                          ret-IsSafe m7 s7 _
                                            (λ n u r. Fresh-Sees owner i later n u f7 r))
                                        (λ full.
                                          let z = ne-of-== _ full in
                                          let b5 : Behind owner i later h (nxt m5 h) m5 s5 =
                                            record { on = on5; follows = refl; others = f5 } in
                                          rest-IsSafe set fuel again h m4.tail (nxt m5 h) m7 s7 z (
                                            Behind-Sees owner i later h (nxt m5 h) m7 s7 z
                                              (Behind-Sees owner i later h (nxt m5 h) m6 s6 z b5 r6)
                                              r7)))
                                    (λ _. again m7 s7 f7))
                  (λ _. again m3 s3 f3)
