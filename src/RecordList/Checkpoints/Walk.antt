-- ===== src/RecordList/Checkpoints/Walk.antt =====
-- The walks of a recording and of a removal of hazard_long.c along a list, run alone.
use mathlib.Core.Path.{subst}
use psly_algorithm.Base.{
  ℕ, zero, suc, ◌≡◌, refl, true, false, List, [], ◌∷◌, Option, none, some, ◌==◌, arith, ◌∙◌,
  ==_refl,
}
use psly_algorithm.Prog.{run, Outcome, done, stuck, crashed}
use psly_algorithm.Pool.{Layout, Memory, get_record}
use psly_algorithm.Pool.Holds.{IsPool}
use psly_algorithm.Pool.Get.{Got, got, none_left, get_record-Got}
use psly_algorithm.Pool.Worker.Same.{get_record-Same}
use psly_algorithm.RecordList.{
  Task, Local, Flag, record_flag, search_flag, remove_flag, key_above, with_word, with_pointer,
}
use psly_algorithm.RecordList as Plain
use psly_algorithm.RecordList.Checkpoints.{Trail, resume, pass, keep_prev}
use psly_algorithm.RecordList.Checkpoints.Same.{
  Same, round-Same, entry-Same, remove_place-Same, record_key-Same, remove_key-Same,
}
use psly_algorithm.RecordList.Checkpoints.Place.{record_place-Same}
use psly_algorithm.RecordList.Checkpoints.Alone.{Quiet-Same}
use psly_algorithm.RecordList.Word.{address, ref_count, minus_record, new_next}
use psly_algorithm.RecordList.Entries.{Entry, Linked}
use psly_algorithm.RecordList.Round.{word_of, behind}
use psly_algorithm.RecordList.Stores.{self_of, word-with_word, word-with_pointer}
use psly_algorithm.RecordList.Members.{Kept, given-apart}
use psly_algorithm.RecordList.Insert.{Apart, Members}
use psly_algorithm.RecordList.Insert.Walk.{Members-next}
use psly_algorithm.RecordList.Remove.Walk.{lone_p}

-- A record that the pool gives is not one that is in use.
abbrev GivenApart : ℕ → Outcome Memory (Option ℕ) → Type 0
GivenApart p (done (some r) m₁) = (r == p) ≡ false
GivenApart p (done none m₁) = Unit
GivenApart p stuck = Unit
GivenApart p crashed = Unit

Got-GivenApart :
    (l : Layout) (m : Memory) (free : ℕ → List ℕ) {P : Type 0} (p : ℕ)
    {o : Outcome Memory (Option ℕ)}
    → IsPool l m free
    → Kept l free p
    → Got l free P o
    → GivenApart p o
Got-GivenApart l m free p pool k (got c x y r v lt split given pool₁) =
    rw given (given-apart l m free pool c x y r lt split p k)
Got-GivenApart l m free p pool k (none_left _ all) = tt

module _ (l : Layout) (t : Task) (fuel : ℕ) (m : Memory) (free : ℕ → List ℕ)
    (pool : IsPool l m free) where
  abbrev enough : ℕ
  enough = suc (suc fuel)

  -- The link of the record behind which the new one goes stays until then.
  link-stays :
      (p q : ℕ)
      → Kept l free p
      → (m₁ : Memory) (r : ℕ) → run (get_record l enough) m ≡ done (some r) m₁
      → word_of
          (with_word
            (with_pointer m₁ r t.key)
            r
            (new_next l (word_of m₁ r) (self_of (with_pointer m₁ r t.key) q)))
          p
        ≡ word_of m p
  link-stays p q kept m₁ r ran =
      let other =
        subst (GivenApart p) ran
          (Got-GivenApart l m free p pool kept (get_record-Got l free fuel m pool)) in
      word-with_word (with_pointer m₁ r t.key) r
        (new_next l (word_of m₁ r) (self_of (with_pointer m₁ r t.key) q)) p other
      ∙ word-with_pointer m₁ r t.key p
      ∙ (get_record-Same l enough m m₁ ran).words p

  pub record-Same :
      t.flag ≡ record_flag
      → (es : List Entry) (n : ℕ) (c : Trail) (s : Local) (p : ℕ) → s.my ≡ none
      → (ref_count l (word_of m p) == 0) ≡ false
      → Members l m free t.tail p es
      → Apart p es
      → Linked l m t.tail (address l (word_of m p)) es
      → Same m
          (keep_prev l t enough n c (behind l m s p))
          (Plain.keep_prev l t enough n (behind l m s p))
  unfolding keep_prev Plain.keep_prev
  record-Same f es zero c s p own live members apart linked = refl
  record-Same f [] (suc n) c s p own live members apart linked =
      let main = keep_prev l t enough n in
      let q = address l (word_of m p) in
      round-Same l t enough n m c s p q live
        (λ _.
          record_place-Same l t enough n m (resume l main c) (main c)
            (main (pass c (behind l m s p))) (Plain.keep_prev l t enough n) s p q f own
            (link-stays p q members.at_p))
        (λ more. absurd (ground (arith, linked, ==_refl t.tail)))
  record-Same f (e ∷ es) (suc n) c s p own live members apart linked =
      let main = keep_prev l t enough n in
      let q = address l (word_of m p) in
      let back = resume l main c in
      let on = main (pass c (behind l m s p)) in
      let plain = Plain.keep_prev l t enough n in
      let alive : (ref_count l (word_of m q) == 0) ≡ false = rw linked.3 linked.4 in
      round-Same l t enough n m c s p q live
        (λ _.
          record_place-Same l t enough n m back (main c) on plain s p q f own
            (link-stays p q members.at_p))
        (λ _.
          entry-Same l t enough n m back (main c) on plain s p q record_flag f
            (λ dead. absurd (ground (arith, alive)))
            (λ _ _. record_key-Same l t enough n m back (main c) on plain s p q f)
            (λ _ _.
              record-Same f es n _ s q own alive
                (Members-next l m free t.tail p t.key e es members apart linked)
                (rw linked.0 apart.1) linked.5))

  pub remove-Same :
      t.flag ≡ remove_flag
      → (es : List Entry) (n : ℕ) (c : Trail) (s : Local) (p : ℕ)
      → (ref_count l (word_of m p) == 0) ≡ false
      → Members l m free t.tail p es
      → Apart p es
      → Linked l m t.tail (address l (word_of m p)) es
      → Same m
          (keep_prev l t fuel n c (behind l m s p))
          (Plain.keep_prev l t fuel n (behind l m s p))
  unfolding keep_prev Plain.keep_prev
  remove-Same f es zero c s p live members apart linked = refl
  remove-Same f [] (suc n) c s p live members apart linked =
      let main = keep_prev l t fuel n in
      let q = address l (word_of m p) in
      round-Same l t fuel n m c s p q live
        (λ _.
          remove_place-Same l t fuel n m (resume l main c) (main c) (main (pass c (behind l m s p)))
            (Plain.keep_prev l t fuel n) s p q f)
        (λ more. absurd (ground (arith, linked, ==_refl t.tail)))
  remove-Same f (e ∷ es) (suc n) c s p live members apart linked =
      let main = keep_prev l t fuel n in
      let q = address l (word_of m p) in
      let back = resume l main c in
      let on = main (pass c (behind l m s p)) in
      let plain = Plain.keep_prev l t fuel n in
      let alive : (ref_count l (word_of m q) == 0) ≡ false = rw linked.3 linked.4 in
      let left = minus_record l (word_of m q) in
      let word_p : word_of (with_word m q left) p ≡ word_of m p =
        word-with_word m q left p (lone_p l m free t.tail p t.key e es members apart linked) in
      round-Same l t fuel n m c s p q live
        (λ _. remove_place-Same l t fuel n m back (main c) on plain s p q f)
        (λ _.
          entry-Same l t fuel n m back (main c) on plain s p q remove_flag f
            (λ dead. absurd (ground (arith, alive)))
            (λ _ _. remove_key-Same l t fuel n m back (main c) on plain s p q f (
              subst
                (λ w.
                  Same (with_word m q left)
                    (main c
                      (record s { prev = p; prev_next = w; curr = address l left; removed = true }))
                    (plain (record s {
                      prev = p;
                      prev_next = w;
                      curr = address l left;
                      removed = true;
                    })))
                word_p
                (Quiet-Same l t fuel (with_word m q left) remove_flag f n c
                  (record s { removed = true }) p (address l left) refl (rw word_p live))))
            (λ _ _.
              remove-Same f es n _ s q alive
                (Members-next l m free t.tail p t.key e es members apart linked)
                (rw linked.0 apart.1) linked.5))
