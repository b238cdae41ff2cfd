-- ===== src/Pool/Worker/History/Calls.antt =====
-- Every access of `get_Record` and `return_Record` is one that the history of the words allows.
use psly_algorithm.Base.{
  ℕ, zero, suc, ◌+◌, ◌*◌, ◌-◌, ◌/◌, ◌%◌, ◌^◌, ◌≡◌, refl, ap, true, Option, none, some, List, [],
  ◌∷◌, arith, ◌==◌, ==_refl, Bool-cases, inl, inr, eq-of-==,
}
use psly_algorithm.Prog.{Prog, ◌>>=◌}
use psly_algorithm.Prog.Rely.{IsSafe-if, give_up-IsSafe}
use psly_algorithm.Prog.History.{Observed, Words, Seen, Ok, access-Ok, read-Ok, done-Ok, then-Ok}
use psly_algorithm.Pool.{
  Layout, Memory, array_num, array_len, index_of, is_last, mark_last, slot, move_end, link_to,
  cas_head, cas_tail, cas_next, or_else, take_from, take_round, take_each, get_record, append_loop,
  return_record,
}
use psly_algorithm.Pool.Words.{index_of-link_to}
use psly_algorithm.Pool.Worker.{Call, get, give, worker, Gives, first, rest}
use psly_algorithm.Pool.Worker.History.{marked}
use psly_algorithm.Pool.Worker.History.Rules.{
  tags, Versioned-same, with_next-Versioned, cas_head-Versioned, cas_tail-Versioned,
  cas_next-Versioned,
}

module _ (l : Layout) (returned : ℕ → Type 0) (self : ℕ → ℕ) (i : ℕ) where
  abbrev here : Observed Memory
  here = tags l returned self

  module _ {A : Type 0} {k : ℕ → Prog Memory A} (m : Memory) (s : Words) where
    cas_head-Ok :
        (a w x : ℕ)
        → Seen s (slot l a (index_of l w)) x
        → ((v : ℕ) (n : Memory) (t : Words) → Ok here i (k v) n t)
        → Ok here i (cas_head a w (move_end l w x) >>= k) m s
    cas_head-Ok a w x seen next = access-Ok here i m s _ λ n t r v.
        (cas_head-Versioned l (Seen t) returned self a w x n (r _ x seen), λ _. next _ _ _)

    cas_tail-Ok :
        (a w x : ℕ)
        → Seen s (slot l a (index_of l w)) x
        → ((v : ℕ) (n : Memory) (t : Words) → Ok here i (k v) n t)
        → Ok here i (cas_tail a w (move_end l w x) >>= k) m s
    cas_tail-Ok a w x seen next = access-Ok here i m s _ λ n t r v.
        (cas_tail-Versioned l (Seen t) returned self a w x n (r _ x seen), λ _. next _ _ _)

    -- Where the swap is made, the new word is seen.
    cas_next-Ok :
        (r w q : ℕ)
        → is_last l w ≡ true
        → returned q
        → ((v : ℕ) (n : Memory) (t : Words)
            → ((v == 1) ≡ true → Seen t r (link_to l w (self q)))
            → Ok here i (k v) n t)
        → Ok here i (cas_next r w (link_to l w (self q)) >>= k) m s
    cas_next-Ok r w q last own next = access-Ok here i m s _ λ n t g v. (
      cas_next-Versioned l (Seen t) returned self r w q n last own,
      λ inv. next _ _ _ (λ won. elim (Bool-cases ((n.records r).next == w)) [
        | inl same ↦ rw same (ground (arith, ==_refl r, ==_refl (link_to l w (self q))))
        | inr other ↦ absurd (ground (arith, other, won))
      ]),
    )

  take_from-Ok : (fuel a : ℕ) (m : Memory) (s : Words) → Ok here i (take_from l fuel a) m s
  unfolding take_from
  take_from-Ok zero a m s = give_up-IsSafe m s
  take_from-Ok (suc fuel) a m s =
      read-Ok here i m s (λ m. (m.queues a).head)
        λ n1 t1 _ _.
          read-Ok here i n1 t1 (λ m. (m.queues a).tail)
            λ n2 t2 _ _.
              let h = (n1.queues a).head in
              let tl = (n2.queues a).tail in
              let at = slot l a (index_of l h) in
              read-Ok here i n2 t2 (λ m. (m.records at).next)
                λ n3 t3 _ v3.
                  read-Ok here i n3 t3 (λ m. (m.queues a).head)
                    λ n4 t4 r4 _.
                      let x = (n3.records at).next in
                      let seen : Seen t4 at x = r4 at x (v3.current at) in
                      IsSafe-if n4 t4 (h == (n4.queues a).head)
                        (λ _.
                          IsSafe-if n4 t4 (index_of l h == index_of l tl)
                            (λ same.
                              IsSafe-if n4 t4 (is_last l x) (λ _. done-Ok here i none n4 t4)
                                (λ _.
                                  cas_tail-Ok n4 t4 a tl x
                                    (rw (← eq-of-== (index_of l h) (index_of l tl) same) seen)
                                    (λ v n t. take_from-Ok fuel a n t)))
                            (λ _. cas_head-Ok n4 t4 a h x seen (λ v n t.
                              IsSafe-if n t (v == 1) (λ _. done-Ok here i _ n t)
                                (λ _. take_from-Ok fuel a n t))))
                        (λ _. take_from-Ok fuel a n4 t4)

  -- The tail may move to the index of the record, which the link that was made has, too.
  move_end-link_to : (t w x : ℕ) → move_end l t (link_to l w x) ≡ move_end l t x
  unfolding move_end index_of
  move_end-link_to t w x =
      ap (λ (j : ℕ). (t / array_len l + 1) % 2 ^ (32 - l.idx_num) * array_len l + j)
        (index_of-link_to l w x)

  append_loop-Ok :
      (fuel a q : ℕ) (m : Memory) (s : Words)
      → returned q
      → Ok here i (append_loop l fuel a (self q)) m s
  unfolding append_loop
  append_loop-Ok zero a q m s own = give_up-IsSafe m s
  append_loop-Ok (suc fuel) a q m s own =
      read-Ok here i m s (λ m. (m.queues a).tail)
        λ n1 t1 _ _.
          let tl = (n1.queues a).tail in
          let at = slot l a (index_of l tl) in
          read-Ok here i n1 t1 (λ m. (m.records at).next)
            λ n2 t2 _ v2.
              read-Ok here i n2 t2 (λ m. (m.queues a).tail)
                λ n3 t3 r3 _.
                  let x = (n2.records at).next in
                  let seen : Seen t3 at x = r3 at x (v2.current at) in
                  IsSafe-if n3 t3 (tl == (n3.queues a).tail)
                    (λ _.
                      IsSafe-if n3 t3 (is_last l x)
                        (λ last. cas_next-Ok n3 t3 at x q last own (λ v n t got.
                          IsSafe-if n t (v == 1)
                            (λ won. rw (← move_end-link_to tl x (self q)) (
                              cas_tail-Ok n t a tl (link_to l x (self q)) (got won)
                                (λ _ n' t'. done-Ok here i tt n' t')))
                            (λ _. append_loop-Ok fuel a q n t own)))
                        (λ _.
                          cas_tail-Ok n3 t3 a tl x seen (λ v n t. append_loop-Ok fuel a q n t own)))
                    (λ _. append_loop-Ok fuel a q n3 t3 own)

  or_else-Ok :
      (more : Prog Memory (Option ℕ))
      → ((m : Memory) (s : Words) → Ok here i more m s)
      → (o : Option ℕ) (m : Memory) (s : Words) → Ok here i (or_else o more) m s
  or_else-Ok more h none m s = h m s
  or_else-Ok more h (some r) m s = done-Ok here i (some r) m s

  take_round-Ok : (fuel n : ℕ) (m : Memory) (s : Words) → Ok here i (take_round l fuel n) m s
  unfolding take_round
  take_round-Ok fuel zero m s = done-Ok here i none m s
  take_round-Ok fuel (suc n) m s = access-Ok here i m s _ λ o t r v. (
    Versioned-same l (Seen t) returned self o _ refl refl refl,
    λ _.
        then-Ok here i (take_from l fuel (o.record_take % array_num l)) _ _ _
          (take_from-Ok fuel (o.record_take % array_num l) _ _)
          (or_else-Ok (take_round l fuel n) (take_round-Ok fuel n)),
  )

  take_each-Ok : (fuel n a : ℕ) (m : Memory) (s : Words) → Ok here i (take_each l fuel n a) m s
  unfolding take_each
  take_each-Ok fuel zero a m s = done-Ok here i none m s
  take_each-Ok fuel (suc n) a m s =
      then-Ok here i (take_from l fuel a) _ m s (take_from-Ok fuel a m s)
        (or_else-Ok (take_each l fuel n (a + 1)) (take_each-Ok fuel n (a + 1)))

  get_record-Ok : (fuel : ℕ) (m : Memory) (s : Words) → Ok here i (get_record l fuel) m s
  unfolding get_record
  get_record-Ok fuel m s =
      then-Ok here i (take_round l fuel (array_num l)) _ m s (take_round-Ok fuel (array_num l) m s)
        (or_else-Ok (take_each l fuel (array_num l) 0) (take_each-Ok fuel (array_num l) 0))

  return_record-Ok :
      (fuel q : ℕ) (m : Memory) (s : Words) → returned q → Ok here i (return_record l fuel q) m s
  unfolding return_record
  return_record-Ok fuel q m s own =
      read-Ok here i m s (λ m. (m.records q).next)
        λ n1 t1 _ v1.
          let x = (n1.records q).next in
          access-Ok here i n1 t1 _ λ n2 t2 r2 _. (
            with_next-Versioned l (Seen t2) returned self n2 q (mark_last l x)
                (marked x own (r2 q x (v1.current q))),
            λ _.
                read-Ok here i _ _ (λ m. (m.records q).self)
                  λ n3 t3 _ v3.
                    rw (v3.holds q)
                      (append_loop-Ok fuel (self q / array_len l % array_num l) q n3 t3 own),
          )

  pub worker-Ok :
      (fuel : ℕ) (calls : List Call) (m : Memory) (s : Words)
      → ((r : ℕ) → Gives r calls → returned r)
      → Ok here i (worker l fuel calls) m s
  unfolding worker
  worker-Ok fuel [] m s own = done-Ok here i tt m s
  worker-Ok fuel (get ∷ calls) m s own =
      then-Ok here i (get_record l fuel) _ m s (get_record-Ok fuel m s)
        (λ _ n t. worker-Ok fuel calls n t (λ r g. own r (rest get g)))
  worker-Ok fuel (give q ∷ calls) m s own =
      then-Ok here i (return_record l fuel q) _ m s
        (return_record-Ok fuel q m s (own q (first calls)))
        (λ _ n t. worker-Ok fuel calls n t (λ r g. own r (rest (give q) g)))
