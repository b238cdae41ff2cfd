-- ===== src/RecordList/Remove/Unlink.antt =====
-- `psly_remove` at the last reference of an entry, run alone: its record is unlinked and goes back.
use mathlib.Core.Path.{subst}
use psly_algorithm.Base.{
  ℕ, suc, ◌*◌, ◌^◌, ◌<◌, ◌≤◌, ◌≡◌, refl, true, false, ◌||◌, List, [], ◌∷◌, ◌++◌, length, arith,
  ◌==◌, ==_refl, Bool-cases, inl, inr, ◌∙◌, sym, ap, update, eq-of-==, has, ◌∉◌,
}
use psly_algorithm.Prog.{run, done}
use psly_algorithm.Pool.{Layout, Memory, array_num, slot, return_record}
use psly_algorithm.Pool.Holds.{IsPool}
use psly_algorithm.Pool.Return.{return_record-IsPool}
use psly_algorithm.Pool.Worker.Same.{Same, return_record-Same}
use psly_algorithm.RecordList.{Task, Local, remove_flag, key_above, keep_prev, with_word}
use psly_algorithm.RecordList.Word.{
  address, ref_count, counts, ref_one, node_version, link_version, minus_record,
  next_address_version,
}
use psly_algorithm.RecordList.Word.Fields.{Fields, minus_record-Fields}
use psly_algorithm.RecordList.Entries.{Entry, Linked, Sorted, Above, has_record}
use psly_algorithm.RecordList.Round.{word_of, key_of, behind}
use psly_algorithm.RecordList.Steps.{step-found}
use psly_algorithm.RecordList.Stores.{
  self_of, word-with_word, word-with_word_here, word-with_pointer, key-with_word, key-with_pointer,
  self-with_word, self-with_pointer, next-with_word, next-with_pointer,
}
use psly_algorithm.RecordList.Members.{IsPool-frame, Kept-back, slot-address}
use psly_algorithm.RecordList.Insert.{Apart, Members, Named-curr}
use psly_algorithm.RecordList.Remove.{key-removed, round-past, place-unlinked, unlinked, cleared}
use psly_algorithm.RecordList.Remove.Walk.{Removed, unlinked-Removed, lone_p, lone_in, Members-next}

module _ (l : Layout) (t : Task) (fuel n : ℕ) (m : Memory) (free : ℕ → List ℕ) (s : Local) (p : ℕ)
    (e : Entry) (es : List Entry) (f : t.flag ≡ remove_flag) (pool : IsPool l m free)
    (enough : (a : ℕ) → a < array_num l → length (free a) ≤ fuel)
    (full : counts l * ref_one l ≡ 2 ^ 64) (first : s.removed ≡ false)
    (live : (ref_count l (word_of m p) == 0) ≡ false) (members : Members l m free t.tail p (e ∷ es))
    (apart : Apart p (e ∷ es)) (linked : Linked l m t.tail (address l (word_of m p)) (e ∷ es))
    (sorted : Sorted (e ∷ es)) (low : key_above e.key t.key ≡ false)
    (same : (e.key == t.key) ≡ true) (count : e.count ≡ 1)
    (small : word_of m (address l (word_of m p)) < 2 ^ 64) where
  abbrev curr : ℕ
  curr = address l (word_of m p)

  -- The last word of the entry, and the memory with it.
  abbrev left : ℕ
  left = minus_record l (word_of m curr)

  abbrev m₂ : Memory
  m₂ = with_word m curr left

  abbrev q : ℕ
  q = address l left

  fields :
      Fields l left 0
        (node_version l (word_of m curr))
        (link_version l (word_of m curr))
        (address l (word_of m curr))
  fields = minus_record-Fields l (word_of m curr) 0 full small (linked.3 ∙ count)

  word_p : word_of m₂ p ≡ word_of m p
  word_p = word-with_word m curr left p (lone_p l m free t.tail p t.key e es members apart linked)

  Named-q : address l (self_of m q) ≡ q
  Named-q = rw fields.at (
      Named-curr l m free t.tail curr (address l (word_of m curr)) es
        (Members-next l m free t.tail p t.key e es members apart linked) linked.5)

  -- The record after the entry is another one, and has a higher key if it has one.
  next-other :
      (r : ℕ) (more : List Entry)
      → Linked l m t.tail r more
      → ((x : ℕ) → has_record x more ≡ true → (curr == x) ≡ false)
      → (curr == r) ≡ false
  next-other r [] k o = rw k linked.1
  next-other r (d ∷ more) k o = o r (rw k.0 (rw (==_refl d.at) refl))

  next-stops :
      (r : ℕ) (more : List Entry)
      → Linked l m t.tail r more
      → Above e.key more
      → (r == t.tail || key_above (key_of m r) t.key) ≡ true
  next-stops r [] k a = rw (k, ==_refl t.tail) refl
  next-stops r (d ∷ more) k a =
      let above : key_above d.key t.key ≡ true =
        subst (λ x. key_above d.key x ≡ true) (eq-of-== _ _ same) a in
      ground (arith, k.2)

  p-curr : (p == curr) ≡ false
  p-curr = ground (arith, lone_p l m free t.tail p t.key e es members apart linked)

  other : (curr == q) ≡ false
  other =
      rw fields.at
        (next-other _ es linked.5 (lone_in l m free t.tail p t.key e es members apart linked))

  abbrev m₃ : Memory
  m₃ = unlinked l fuel t n m₂ m s p q (keep_prev l t fuel n) f

  abbrev m₄ : Memory
  m₄ = cleared l fuel m₃ (word_of m₂ p)

  selves₄ : (x : ℕ) → self_of m₄ x ≡ self_of m x
  selves₄ x =
      self-with_pointer m₃ (address l (word_of m₂ p)) 0 x
      ∙ self-with_word m₂ p (next_address_version l (word_of m₂ p) (self_of m₂ q)) x
      ∙ self-with_word m curr left x

  pool₄ : IsPool l m₄ free
  pool₄ =
      IsPool-frame l m m₄ free pool
        (λ x.
          next-with_pointer m₃ (address l (word_of m₂ p)) 0 x
          ∙ next-with_word m₂ p (next_address_version l (word_of m₂ p) (self_of m₂ q)) x
          ∙ next-with_word m curr left x)
        selves₄ refl

  at_p : address l (word_of m₂ p) ≡ curr
  at_p = ap (address l) word_p

  -- The memory `m₅` after the record, `r` of array `a`, has gone back.
  module _ (a r : ℕ) (here : slot l a r ≡ curr) (m₅ : Memory)
      (ran : run (return_record l fuel curr) m₄ ≡ done tt m₅)
      (pool₅ : IsPool l m₅ (update free a (free a ++ r ∷ []))) where
    after : Same m₄ m₅
    after = return_record-Same l fuel m₄ m₅ curr ran

    words₅ : (x : ℕ) → (p == x) ≡ false → (curr == x) ≡ false → word_of m₅ x ≡ word_of m x
    words₅ x o o' =
        after.words x
        ∙ word-with_pointer m₃ (address l (word_of m₂ p)) 0 x
        ∙ word-with_word m₂ p (next_address_version l (word_of m₂ p) (self_of m₂ q)) x o
        ∙ word-with_word m curr left x o'

    word_p₅ :
        word_of m₅ p ≡ next_address_version l (word_of m p) (self_of m (address l (word_of m curr)))
    word_p₅ =
        after.words p
        ∙ word-with_pointer m₃ (address l (word_of m₂ p)) 0 p
        ∙ word-with_word_here m₂ p (next_address_version l (word_of m₂ p) (self_of m₂ q))
        ∙ ap (λ w. next_address_version l w (self_of m₂ q)) word_p
        ∙ ap (next_address_version l (word_of m p))
            (self-with_word m curr left q ∙ ap (self_of m) fields.at)

    keys₅ : (x : ℕ) → (curr == x) ≡ false → key_of m₅ x ≡ key_of m x
    keys₅ x o =
        after.pointers x
        ∙ key-with_pointer m₃ (address l (word_of m₂ p)) 0 x (rw at_p o)
        ∙ key-with_word m₂ p (next_address_version l (word_of m₂ p) (self_of m₂ q)) x
        ∙ key-with_word m curr left x

    selves₅ : (x : ℕ) → self_of m₅ x ≡ self_of m x
    selves₅ x = after.selves x ∙ selves₄ x

    stops : (q == t.tail || key_above (key_of m₂ q) t.key) ≡ true
    stops = rw (key-with_word m curr left q, fields.at) (next-stops _ es linked.5 sorted.1)

    ends : address l (word_of m₄ (address l (word_of m₂ p))) ≡ address l (self_of m₅ q)
    ends =
        ap (λ x. address l (word_of m₄ x)) at_p
        ∙ ap (address l) (
            word-with_pointer m₃ (address l (word_of m₂ p)) 0 curr
            ∙ word-with_word m₂ p (next_address_version l (word_of m₂ p) (self_of m₂ q)) curr p-curr
            ∙ word-with_word_here m curr left)
        ∙ sym (ap (address l) (selves₅ q) ∙ Named-q)

    unlink-run : run (keep_prev l t fuel (suc (suc (suc (suc n)))) (behind l m s p)) m ≡ done 0 m₅
    unlink-run =
        step-found l t fuel (suc (suc (suc n))) m s p e.key live linked.1 linked.2
          (rw linked.3 linked.4) low remove_flag f same
        ∙ key-removed l t fuel (suc (suc (suc n))) m (behind l m s p) f (word_of m curr) first
            (rw fields.refs refl)
        ∙ ap
            (λ w.
              run
                (keep_prev l t fuel (suc (suc (suc n)))
                  (record s { prev = p; prev_next = w; curr = q; removed = true }))
                m₂)
            (sym word_p)
        ∙ round-past l t fuel (suc (suc n)) m₂ s f p q (rw word_p live) stops
        ∙ place-unlinked l fuel t (suc n) m₂ m₅ s p q (keep_prev l t fuel (suc (suc n))) f
            (rw (at_p, self-with_word m curr left q, Named-q) other)
            (rw
              (
                at_p,
                self-with_word m₂ p (next_address_version l (word_of m₂ p) (self_of m₂ q)) q,
                self-with_word m curr left q,
                Named-q,
              )
              other)
            (ap (λ x. run (return_record l fuel x) m₄) at_p ∙ ran) ends (omega arith)

    unlink_of-return :
        Removed l m free t.tail p t.key
          (e ∷ es)
          (run (keep_prev l t fuel (suc (suc (suc (suc n)))) (behind l m s p)) m)
    unlink_of-return = rw unlink-run (
        unlinked-Removed l m free t.tail p t.key e es members apart linked m₅
          (update free a (free a ++ r ∷ [])) pool₅ same count word_p₅ words₅ keys₅ selves₅
          after.lists (λ x k o. Kept-back l free a r x k (rw here o)) (a, r, here, refl))

  -- The record of the entry, its array, and the return.
  pub last-Removed :
      Removed l m free t.tail p t.key
        (e ∷ es)
        (run (keep_prev l t fuel (suc (suc (suc (suc n)))) (behind l m s p)) m)
  last-Removed =
      let (a, r, a-lt, r-lt, here) = slot-address l (word_of m p) in
      let (m₅, ran, pool₅, _) =
        return_record-IsPool l m₄ free a r fuel pool₄ a-lt r-lt (not_free a r a-lt here)
          (enough a a-lt) in
      unlink_of-return a r here m₅ (ap (λ x. run (return_record l fuel x) m₄) (sym here) ∙ ran)
        pool₅
    where
      not_free : (a r : ℕ) → a < array_num l → slot l a r ≡ curr → r ∉ free a
      not_free a r lt here = elim (Bool-cases (has r (free a))) [
        | inr out ↦ out
        | inl there ↦
            let k =
              (Members-next l m free t.tail p t.key e es members apart linked).at_p a r lt there in
            absurd (ground (arith, here, ==_refl curr))
      ]
