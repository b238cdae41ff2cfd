-- ===== src/RecordList/Set/Remove.antt =====
-- `psly_remove` on the map of counted keys, run alone.
use mathlib.Core.Path.{subst}
use psly_algorithm.Base.{
  ℕ, zero, suc, ◌-◌, ◌*◌, ◌%◌, ◌^◌, ◌<◌, ◌≤◌, ◌≡◌, refl, true, false, List, [], ◌∷◌, length, arith,
  ◌==◌, ==_refl, Bool-cases, inl, inr, ◌∙◌, ap, eq-of-==,
}
use psly_algorithm.Prog.{run, Outcome, done}
use psly_algorithm.Pool.{Layout, Memory, array_num}
use psly_algorithm.Pool.Holds.{IsPool}
use psly_algorithm.RecordList.{
  Task, Local, remove_flag, key_above, keep_prev, with_word, psly_remove,
}
use psly_algorithm.RecordList.Word.{address, ref_count, counts, ref_one, minus_record}
use psly_algorithm.RecordList.Word.Fields.{minus_record-Fields}
use psly_algorithm.RecordList.Entries.{
  Entry, Linked, Sorted, Above, Above-trans, has_record, count_of, drop_key, leaving,
  count_of-Above, ne_of-key_above,
}
use psly_algorithm.RecordList.Round.{word_of, behind}
use psly_algorithm.RecordList.Steps.{step-tail, step-above, step-found, step-below}
use psly_algorithm.RecordList.Stores.{
  word-with_word, word-with_word_here, key-with_word, self-with_word, next-with_word,
}
use psly_algorithm.RecordList.Search.{task_of, fresh, handle-keep_prev}
use psly_algorithm.RecordList.Members.{TakesBack, IsPool-frame}
use psly_algorithm.RecordList.Insert.{Apart, Apart-head, Members, Named-curr}
use psly_algorithm.RecordList.Remove.{place-absent, key-stays}
use psly_algorithm.RecordList.Remove.Walk.{
  Removed, removed, absent-Removed, stays-Removed, passed-Removed, Members-next,
}
use psly_algorithm.RecordList.Remove.Unlink.{last-Removed}
use psly_algorithm.RecordList.Set.{IsMap, Others}

pub drop_key-Above : (k : ℕ) (es : List Entry) → Above k es → drop_key k es ≡ es
drop_key-Above k [] a = refl
drop_key-Above k (e ∷ es) a = rw (ne_of-key_above e.key k a, a) refl

module _ (l : Layout) (t : Task) (fuel : ℕ) (m : Memory) (free : ℕ → List ℕ)
    (f : t.flag ≡ remove_flag) (pool : IsPool l m free)
    (enough : (a : ℕ) → a < array_num l → length (free a) ≤ fuel)
    (full : counts l * ref_one l ≡ 2 ^ 64) where
  stay :
      (n p : ℕ) (s : Local) (e : Entry) (es : List Entry)
      → s.removed ≡ false
      → (ref_count l (word_of m p) == 0) ≡ false
      → Members l m free t.tail p (e ∷ es)
      → Apart p (e ∷ es)
      → Linked l m t.tail (address l (word_of m p)) (e ∷ es)
      → key_above e.key t.key ≡ false
      → (e.key == t.key) ≡ true
      → word_of m (address l (word_of m p)) < 2 ^ 64
      → (c : ℕ) → e.count ≡ suc (suc c)
      → Removed l m free t.tail p t.key
          (e ∷ es)
          (run (keep_prev l t fuel (suc (suc (suc (suc (suc n))))) (behind l m s p)) m)
  stay n p s e es first live members apart linked low same small c count =
      let curr = address l (word_of m p) in
      let left = minus_record l (word_of m curr) in
      let refs : ref_count l left ≡ suc c =
        (minus_record-Fields l (word_of m curr) (suc c) full small (linked.3 ∙ count)).refs in
      rw
        (step-found l t fuel (suc (suc (suc (suc n)))) m s p e.key live linked.1 linked.2
            (rw linked.3 linked.4) low remove_flag f same
          ∙ key-stays l t fuel (suc (suc (suc (suc n)))) m (behind l m s p) f (word_of m curr) first
              (rw refs (ground arith))
          ∙ ap (λ v. done v (with_word m curr left)) refs)
        (stays-Removed l m free t.tail p t.key e es members apart linked (with_word m curr left) c
          (IsPool-frame l m (with_word m curr left) free pool (next-with_word m curr left)
            (self-with_word m curr left) refl)
          same full small count (word-with_word_here m curr left) (word-with_word m curr left)
          (key-with_word m curr left) (self-with_word m curr left) refl)

  pub walk-Removed :
      (es : List Entry) (n p : ℕ) (s : Local)
      → s.removed ≡ false
      → (ref_count l (word_of m p) == 0) ≡ false
      → Members l m free t.tail p es
      → Apart p es
      → Linked l m t.tail (address l (word_of m p)) es
      → Sorted es
      → ((r : ℕ) → has_record r es ≡ true → word_of m r < 2 ^ 64)
      → length es ≤ n
      → Removed l m free t.tail p t.key es
          (run (keep_prev l t fuel (suc (suc (suc (suc n)))) (behind l m s p)) m)
  walk-Removed [] n p s first live members apart linked sorted small h =
      rw
        (step-tail l t fuel (suc (suc (suc n))) m s p 0 live linked
          ∙ place-absent l t fuel (suc (suc (suc n))) m s f p
              (Named-curr l m free t.tail p _ [] members linked))
        (removed free 0 pool linked refl
          (record {
            words = λ _ _ _ _. refl;
            keys = λ _ _ _. refl;
            selves = λ _. refl;
            lists = refl;
          })
          (λ _ h _. h) (λ q h. absurd (ground arith)) tt (omega arith) refl)
  walk-Removed (e ∷ es) zero p s first live members apart linked sorted small h =
      absurd (omega arith)
  walk-Removed (e ∷ es) (suc n) p s first live members apart linked sorted small h =
      elim (Bool-cases (key_above e.key t.key)) [
        | inl above ↦
            rw
              (step-above l t fuel (suc (suc (suc (suc n)))) m s p e.key live linked.2 above
                ∙ place-absent l t fuel (suc (suc (suc (suc n)))) m s f p
                    (Named-curr l m free t.tail p _ (e ∷ es) members linked))
              (absent-Removed l m free t.tail p t.key e es members apart linked pool
                (drop_key-Above t.key (e ∷ es) above) (count_of-Above t.key (e ∷ es) sorted above)
                (rw (ne_of-key_above e.key t.key above, above) refl))
        | inr low ↦ elim (Bool-cases (e.key == t.key)) [
          | inr other ↦
              rw
                (step-below l t fuel (suc (suc (suc (suc n)))) m s p e.key live linked.1 linked.2
                  (rw linked.3 linked.4) low other)
                (passed-Removed l m free t.tail p t.key e es members apart linked low other (
                  walk-Removed es n (address l (word_of m p)) s first (rw linked.3 linked.4)
                    (Members-next l m free t.tail p t.key e es members apart linked)
                    (rw linked.0 apart.1) linked.5 sorted.2 (λ r k. small r (ground arith))
                    (omega arith)))
          | inl same ↦ elim (Bool-cases (e.count == 1)) [
            | inl last ↦
                last-Removed l t fuel (suc n) m free s p e es f pool enough full first live members
                  apart linked sorted low same (eq-of-== e.count 1 last)
                  (small _ (rw linked.0 (rw (==_refl e.at) refl)))
            | inr more ↦
                stay n p s e es first live members apart linked low same
                  (small _ (rw linked.0 (rw (==_refl e.at) refl))) (e.count - 2)
                  (ground (arith, linked.4))
          ]
        ]
      ]

Above-drop_key : (a k : ℕ) (es : List Entry) → Above a es → Sorted es → Above a (drop_key k es)
Above-drop_key a k [] h s = tt
Above-drop_key a k (e ∷ es) h s = elim (Bool-cases (e.key == k)) [
  | inl same ↦ elim (Bool-cases (e.count == 1)) [
    | inl last ↦ rw (same, last) (Above-trans e.key a es h s.1)
    | inr more ↦ rw (same, more) h
  ]
  | inr other ↦ elim (Bool-cases (key_above e.key k)) [
    | inl high ↦ rw (other, high) h
    | inr low ↦ rw (other, low) h
  ]
]

Sorted-drop_key : (k : ℕ) (es : List Entry) → Sorted es → Sorted (drop_key k es)
Sorted-drop_key k [] s = tt
Sorted-drop_key k (e ∷ es) s = elim (Bool-cases (e.key == k)) [
  | inl same ↦ elim (Bool-cases (e.count == 1)) [
    | inl last ↦ rw (same, last) s.2
    | inr more ↦ rw (same, more) s
  ]
  | inr other ↦ elim (Bool-cases (key_above e.key k)) [
    | inl high ↦ rw (other, high) s
    | inr low ↦ rw (other, low) (s.0, Above-drop_key e.key k es s.1 s.2, Sorted-drop_key k es s.2)
  ]
]

-- The abstract set after `drop_key`: the key has one less, the others what they had.
pub count_of-drop_key :
    (k : ℕ) (es : List Entry) → Sorted es → count_of k (drop_key k es) ≡ count_of k es - 1
count_of-drop_key k [] s = omega arith
count_of-drop_key k (e ∷ es) s = elim (Bool-cases (e.key == k)) [
  | inl same ↦ elim (Bool-cases (e.count == 1)) [
    | inl last ↦
        rw (same, last)
          (count_of-Above k es s.2 (subst (λ x. Above x es) (eq-of-== e.key k same) s.1)
            ∙ omega (arith, eq-of-== e.count 1 last))
    | inr more ↦ rw (same, more, same) refl
  ]
  | inr other ↦ elim (Bool-cases (key_above e.key k)) [
    | inl high ↦
        let none_of = count_of-Above k es s.2 (Above-trans e.key k es high s.1) in
        rw (other, high, other) (omega (arith, none_of))
    | inr low ↦ rw (other, low, other) (count_of-drop_key k es s.2)
  ]
]

pub count_of-drop_key_other :
    (k j : ℕ) (es : List Entry) → (k == j) ≡ false → count_of j (drop_key k es) ≡ count_of j es
count_of-drop_key_other k j [] o = refl
count_of-drop_key_other k j (e ∷ es) o = elim (Bool-cases (e.key == k)) [
  | inl same ↦
      let o' : (e.key == j) ≡ false = rw (eq-of-== e.key k same) o in
      elim (Bool-cases (e.count == 1)) [
        | inl last ↦ rw (same, last, o') refl
        | inr more ↦ rw (same, more, o') refl
      ]
  | inr other ↦ elim (Bool-cases (key_above e.key k)) [
    | inl high ↦ rw (other, high) refl
    | inr low ↦ rw (other, low) (ground (arith, count_of-drop_key_other k j es o))
  ]
]

-- The end of `psly_remove`: the key has one less, if it had any.
pub data Dropped (l : Layout) (m : Memory) (free : ℕ → List ℕ) (i k : ℕ) (es : List Entry)
    : Outcome Memory ℕ → Type 0 where
  dropped :
      {m' : Memory} (free' : ℕ → List ℕ)
      → IsMap l m' free' i (drop_key k es)
      → Others l m m' free free' (m.lists i).head es
      → TakesBack l free free' (leaving k es)
      → Dropped l m free i k es (done (count_of k es - 1) m')

module _ (l : Layout) (m : Memory) (free : ℕ → List ℕ) (i k : ℕ) (es : List Entry)
    (set : IsMap l m free i es) where
  -- The tail and the head are not entries, so that they stay out of the pool.
  pub Dropped-Removed :
      {o : Outcome Memory ℕ}
      → has_record (m.lists i).tail es ≡ false
      → has_record (m.lists i).head es ≡ false
      → Removed l m free (m.lists i).tail (m.lists i).head k es o
      → Dropped l m free i k es o
  Dropped-Removed tail_out head_out
        (removed {m'} free' v pool linked ref out kept entries lone value back) =
      rw value (
        dropped free'
          (record {
            pool = pool;
            list = record {
              live = rw out.lists (rw ref set.list.live);
              linked = rw out.lists linked;
              sorted = Sorted-drop_key k es set.list.sorted;
            };
            members = rw out.lists (record {
              at_p = kept (m.lists i).head set.members.at_p head_out;
              at_tail = (
                kept (m.lists i).tail set.members.at_tail.0 tail_out,
                ap (address l) (out.selves (m.lists i).tail) ∙ set.members.at_tail.1,
              );
              at_entry = λ r h. (
                (entries r h).1,
                ap (address l) (out.selves r) ∙ (set.members.at_entry r (entries r h).0).1,
              );
            });
            apart = rw out.lists lone;
          })
          (record {
            words = λ r h o n. out.words r o n refl;
            keys = λ r h n. out.keys r n refl;
            kept = kept;
            lists = out.lists;
          })
          back)

pub tail-out :
    (l : Layout) (m : Memory) (tail : ℕ) (es : List Entry) (r : ℕ)
    → Linked l m tail r es
    → has_record tail es ≡ false
tail-out l m tail [] r h = refl
tail-out l m tail (e ∷ es) r h = ground (arith, h.0, h.1, tail-out l m tail es _ h.5)

-- `psly_remove` run alone on a list whose words have 64 bits: it returns, with as much fuel for the pool
-- as a queue has records, and a round for each entry and four more for its own loop. The key has one
-- reference less, and is gone with the last, when its record goes back to the pool, and no other does; the result is the count that is left, 0 if the key was not
-- there. The pool and the list are well formed again, and the records that are neither free nor in the
-- list keep their words and keys and are still not free.
pub psly_remove-IsMap :
    (l : Layout) (m : Memory) (free : ℕ → List ℕ) (k fuel n : ℕ) (es : List Entry)
    → IsMap l m free (k % l.list_num) es
    → ((a : ℕ) → a < array_num l → length (free a) ≤ fuel)
    → counts l * ref_one l ≡ 2 ^ 64
    → ((r : ℕ) → has_record r es ≡ true → word_of m r < 2 ^ 64)
    → length es ≤ n
    → Dropped l m free
        (k % l.list_num)
        k
        es
        (run (psly_remove l fuel (suc (suc (suc (suc n)))) k) m)
unfolding psly_remove
psly_remove-IsMap l m free k fuel n es set enough full small h =
    rw (handle-keep_prev l m remove_flag fuel (suc (suc (suc (suc n)))) k) (
      Dropped-Removed l m free (k % l.list_num) k es set
        (tail-out l m (m.lists (k % l.list_num)).tail es _ set.list.linked)
        (Apart-head (m.lists (k % l.list_num)).head es set.apart)
        (walk-Removed l (task_of l m remove_flag k) fuel m free refl set.pool enough full es n
          (m.lists (k % l.list_num)).head (fresh (m.lists (k % l.list_num)).head) refl set.list.live
          set.members set.apart set.list.linked set.list.sorted small h))
