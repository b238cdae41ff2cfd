-- ===== src/RecordList/Insert/Walk.antt =====
-- The walk of `psly_record` to its place, run alone.
use native.Mathlib.Nat.{mod-eq_of_lt}
use psly_algorithm.Base.{
  ℕ, zero, suc, ◌+◌, ◌%◌, ◌<◌, ◌≤◌, ◌≡◌, refl, Bool, true, false, List, [], ◌∷◌, length, Option,
  none, some, arith, ◌==◌, ==_refl, Bool-cases, inl, inr, ◌⊎◌, ◌∙◌, sym, ap, update,
}
use psly_algorithm.Prog.{run, Outcome, done}
use psly_algorithm.Pool.{Layout, Memory, array_num, slot, get_record}
use psly_algorithm.Pool.Holds.{IsPool}
use psly_algorithm.Pool.Get.{Got, got, none_left, Single, get_record-Got}
use psly_algorithm.Pool.Worker.Same.{get_record-Same}
use psly_algorithm.RecordList.Place.{count_up_key, place-crashed, place-inserted}
use psly_algorithm.RecordList.{Task, Local, record_flag, key_above, keep_prev, at_place}
use psly_algorithm.RecordList.Word.{
  address, ref_count, counts, plus_record, new_next, next_address_version,
}
use psly_algorithm.RecordList.Word.Fields.{plus_record-Fields}
use psly_algorithm.RecordList.Entries.{
  Entry, Linked, Sorted, Above, has_record, count_of, ne_of-has_record, Linked-frame,
}
use psly_algorithm.RecordList.Round.{word_of, key_of, behind}
use psly_algorithm.RecordList.Steps.{step-tail, step-above, step-found, step-below}
use psly_algorithm.RecordList.Stores.{
  self_of, word-with_word, word-with_word_here, key-with_word, self-with_word,
}
use psly_algorithm.RecordList.Members.{IsPool-frame, given-apart, Lends-none}
use psly_algorithm.RecordList.Insert.{
  Apart, Recorded, recorded, no_memory, Members, Named-curr, m', inserted-p, inserted-my,
  inserted-key, inserted-Outside, inserted-Recorded, Apart-head,
}

module _ (l : Layout) (m : Memory) (free : ℕ → List ℕ) (tail p k : ℕ) (e : Entry) (es : List Entry)
    (members : Members l m free tail p (e ∷ es)) (apart : Apart p (e ∷ es))
    (linked : Linked l m tail (address l (word_of m p)) (e ∷ es)) where
  abbrev curr : ℕ
  curr = address l (word_of m p)

  lone_p : (curr == p) ≡ false
  lone_p = ground (arith, linked.0, apart.0)

  lone_out : (r : ℕ) → has_record r (e ∷ es) ≡ false → (curr == r) ≡ false
  lone_out r h = ground (arith, linked.0)

  pub Members-next : Members l m free tail curr es
  Members-next = record {
    at_p = (members.at_entry curr (rw linked.0 (rw (==_refl e.at) refl))).0;
    at_tail = members.at_tail;
    at_entry = λ q h. members.at_entry q (ground arith);
  }

  -- The entry of the key is counted up, in the memory `m₂`.
  module _ (m₂ : Memory) (pool₂ : IsPool l m₂ free) (same_key : (e.key == k) ≡ true)
      (room : suc e.count < counts l) (lone : has_record e.at es ≡ false)
      (word_curr : word_of m₂ curr ≡ plus_record l (word_of m curr))
      (words : (r : ℕ) → (curr == r) ≡ false → word_of m₂ r ≡ word_of m r)
      (keys : (r : ℕ) → key_of m₂ r ≡ key_of m r) (selves : (r : ℕ) → self_of m₂ r ≡ self_of m r)
      (lists : m₂.lists ≡ m.lists) where
    counted : ref_count l (plus_record l (word_of m curr)) ≡ suc e.count
    counted =
        (plus_record-Fields l (word_of m curr)).refs
        ∙ ap (λ c. (c + 1) % counts l) linked.3
        ∙ ap (λ c. c % counts l) (omega arith)
        ∙ mod-eq_of_lt room

    rest : Linked l m₂ tail (address l (word_of m₂ curr)) es
    rest =
        rw (word_curr, (plus_record-Fields l (word_of m curr)).at)
          (Linked-frame l m m₂ tail es _
            (λ q h. (words q (ne_of-has_record curr q es (rw linked.0 lone) h), keys q)) linked.5)

    Linked-counted : Linked l m₂ tail curr (record e { count = suc e.count } ∷ es)
    Linked-counted =
        (linked.0, linked.1, keys curr ∙ linked.2, rw word_curr counted, ground arith, rest)

    pub counted-Recorded :
        Recorded l m free tail p k (e ∷ es) (done (ref_count l (plus_record l (word_of m curr))) m₂)
    counted-Recorded =
        recorded 0 (λ _. false) free _ pool₂ (rw (words p lone_p, same_key) Linked-counted)
          (ap (ref_count l) (words p lone_p))
          (record {
            words = λ r _ h _. words r (lone_out r h);
            keys = λ r _ _. keys r;
            selves = selves;
            lists = lists;
          })
          (λ _ _. refl) (λ _ h. h) (λ q h. absurd (ground arith)) (rw same_key counted)
          (rw same_key apart) (λ q h. inl (rw same_key at h))
          (rw same_key (Lends-none l free 0 e.count linked.4))

  -- The entry has a lower key: the walk goes past it.
  pub passed-Recorded :
      {o : Outcome Memory ℕ}
      → key_above e.key k ≡ false
      → (e.key == k) ≡ false
      → has_record e.at es ≡ false
      → Recorded l m free tail curr k es o
      → Recorded l m free tail p k (e ∷ es) o
  passed-Recorded low other lone (no_memory all) = no_memory all
  passed-Recorded low other lone
        (recorded {m'} my new free' v pool after ref out fresh kept given value lone' from lends) =
      let word_p : word_of m' p ≡ word_of m p =
        out.words p lone_p (ground (arith, apart.0)) (fresh p members.at_p) in
      recorded my new free' v pool
        (rw (word_p, other, low)
          (
            linked.0,
            linked.1,
            out.keys curr (rw linked.0 lone)
                  (fresh curr (members.at_entry curr (rw linked.0 (rw (==_refl e.at) refl))).0)
                ∙ linked.2,
            ref ∙ linked.3,
            linked.4,
            after,
          ))
        (ap (ref_count l) word_p)
        (record {
          words = λ r _ h n. out.words r (lone_out r h) (ground arith) n;
          keys = λ r h n. out.keys r (ground arith) n;
          selves = out.selves;
          lists = out.lists;
        })
        fresh kept given (rw other value)
        (rw (other, low) (p-out _ _ (fresh p members.at_p) from, rw linked.0 at lone'))
        (λ q h. entries-from _ _ q from (rw (other, low) at h)) (rw other lends)
    where
      p-out :
          (more : List Entry) (new : ℕ → Bool)
          → new p ≡ false
          → ((q : ℕ) → has_record q more ≡ true → (has_record q es ≡ true) ⊎ (new q ≡ true))
          → has_record p (e ∷ more) ≡ false
      p-out more new old from = elim (Bool-cases (has_record p more)) [
        | inr out ↦ ground (arith, apart.0)
        | inl in_more ↦ elim (from p in_more) [
          | inl in_es ↦ absurd (ground (arith, apart.0))
          | inr is_new ↦ absurd (ground arith)
        ]
      ]

      entries-from :
          (more : List Entry) (new : ℕ → Bool) (q : ℕ)
          → ((r : ℕ) → has_record r more ≡ true → (has_record r es ≡ true) ⊎ (new r ≡ true))
          → has_record q (e ∷ more) ≡ true
          → (has_record q (e ∷ es) ≡ true) ⊎ (new q ≡ true)
      entries-from more new q from h = elim (Bool-cases (e.at == q)) [
        | inl here ↦ inl (rw here refl)
        | inr later ↦ elim (from q (ground arith)) [
          | inl old ↦ inl (rw later old)
          | inr is_new ↦ inr is_new
        ]
      ]

module _ (l : Layout) (t : Task) (fuel : ℕ) (m : Memory) (free : ℕ → List ℕ)
    (f : t.flag ≡ record_flag) (pool : IsPool l m free) where
  abbrev enough : ℕ
  enough = suc (suc fuel)

  -- A record of the pool is linked in behind `p`, if there is one.
  placed-Recorded :
      (n p : ℕ) (s : Local) (es : List Entry)
      → s.my ≡ none
      → 1 < counts l
      → Members l m free t.tail p es
      → Apart p es
      → Linked l m t.tail (address l (word_of m p)) es
      → Above t.key es
      → Sorted es
      → Recorded l m free t.tail p t.key es
          (run (at_place l t enough (keep_prev l t enough (suc n)) (suc n) (behind l m s p)) m)
  placed-Recorded n p s es own room members apart linked above sorted =
      go (get_record-Got l free fuel m pool) refl
    where
      go :
          {o : Outcome Memory (Option ℕ)}
          → Got l free ((c : ℕ) → c < array_num l → Single (free c)) o
          → run (get_record l enough) m ≡ o
          → Recorded l m free t.tail p t.key es
              (run (at_place l t enough (keep_prev l t enough (suc n)) (suc n) (behind l m s p)) m)
      go (none_left {m = m₁} _ all) e =
          rw (place-crashed l t enough n m (behind l m s p) _ f own m₁ e) (no_memory all)
      go (got {m = m₁} c x y r v lt split given pool₁) e =
          let same = get_record-Same l enough m m₁ e in
          let my = slot l c x in
          let curr = address l (word_of m p) in
          let w = new_next l (word_of m₁ my) (self_of m₁ curr) in
          let v' = next_address_version l (word_of m p) (self_of m₁ my) in
          let m₂ = m' l m m₁ same my p t.key w v' in
          let other = given-apart l m free pool c x y r lt split p members.at_p in
          rw
            (place-inserted l t enough n m (behind l m s p) _ f own m₁ my
              (e ∙ ap (λ q. done (some q) m₁) given) other (same.words p)
              (sym (
                ap (address l) (same.selves curr)
                ∙ Named-curr l m free t.tail p curr es members linked)))
            (inserted-Recorded l m free t.tail p t.key es pool room members apart linked above
              sorted m₁ m₂ same c x y r lt split
              (IsPool-frame l m₁ m₂ (update free c (y ∷ r)) pool₁ (λ q. ground arith)
                (λ q. ground arith) refl)
              (inserted-p l m m₁ same my p t.key w v')
              (inserted-my l m m₁ same my p t.key w v' other)
              (inserted-key l m m₁ same my p t.key w v')
              (inserted-Outside l m m₁ same my p t.key w v'))

  pub walk-Recorded :
      (es : List Entry) (n p : ℕ) (s : Local)
      → s.my ≡ none
      → s.removed ≡ false
      → (ref_count l (word_of m p) == 0) ≡ false
      → Members l m free t.tail p es
      → Apart p es
      → Linked l m t.tail (address l (word_of m p)) es
      → Sorted es
      → suc (count_of t.key es) < counts l
      → suc (suc (length es)) ≤ n
      → Recorded l m free t.tail p t.key es (run (keep_prev l t enough n (behind l m s p)) m)
  walk-Recorded es zero p s own first live members apart linked sorted room h = absurd (omega arith)
  walk-Recorded es (suc zero) p s own first live members apart linked sorted room h =
      absurd (omega arith)
  walk-Recorded [] (suc (suc n)) p s own first live members apart linked sorted room h =
      rw (step-tail l t enough (suc n) m s p 0 live linked)
        (placed-Recorded n p s [] own room members tt linked tt sorted)
  walk-Recorded (e ∷ es) (suc (suc n)) p s own first live members apart linked sorted room h =
      elim (Bool-cases (key_above e.key t.key)) [
        | inl above ↦
            rw (step-above l t enough (suc n) m s p e.key live linked.2 above)
              (placed-Recorded n p s (e ∷ es) own (omega arith) members apart linked above sorted)
        | inr low ↦ elim (Bool-cases (e.key == t.key)) [
          | inl same ↦
              rw
                (step-found l t enough (suc n) m s p e.key live linked.1 linked.2
                    (rw linked.3 linked.4) low record_flag f same
                  ∙ count_up_key l t enough n m (behind l m s p) _ f own first)
                (counted-Recorded l m free t.tail p t.key e es members apart linked _
                  (IsPool-frame l m _ free pool (λ q. ground arith) (λ q. ground arith) refl) same
                  (rw same at room) (Apart-head e.at es apart.1) (word-with_word_here m _ _)
                  (λ q o. word-with_word m _ _ q o) (λ q. key-with_word m _ _ q)
                  (λ q. self-with_word m _ _ q) refl)
          | inr other ↦
              rw
                (step-below l t enough (suc n) m s p e.key live linked.1 linked.2
                  (rw linked.3 linked.4) low other)
                (passed-Recorded l m free t.tail p t.key e es members apart linked low other
                  (Apart-head e.at es apart.1)
                  (walk-Recorded es (suc n) (address l (word_of m p)) s own first
                    (rw linked.3 linked.4)
                    (Members-next l m free t.tail p t.key e es members apart linked)
                    (rw linked.0 apart.1) linked.5 sorted.2 (rw other at room) (omega arith)))
        ]
      ]
