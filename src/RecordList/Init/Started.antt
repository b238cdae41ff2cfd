-- ===== src/RecordList/Init/Started.antt =====
-- The lists that `INIT_RESOURCE` leaves: each is empty, between two records of the pool.
use native.Mathlib.Nat.{mod-eq_of_lt}
use mathlib.Core.Path.{subst}
use psly_algorithm.Base.{
  ℕ, zero, suc, ◌+◌, ◌-◌, ◌*◌, ◌≤◌, ◌<◌, ◌≡◌, refl, false, List, [], ◌∷◌, Option, none, some, arith,
  ◌==◌, Bool-cases, inl, inr, eq-of-==, ==_refl, ◌∙◌, ap, update,
}
use psly_algorithm.Prog.{
  Prog, ret, crash, run, run->>=, ◌>>=◌, ◌>>◌, and_then, Outcome, done, crashed,
}
use psly_algorithm.Pool.{Layout, RecordList, Memory, array_num, array_len, slot, get_record}
use psly_algorithm.Pool.Holds.{IsPool}
use psly_algorithm.Pool.Init.{init_pool}
use psly_algorithm.Pool.Init.Fresh.{count_up, init_pool-IsPool}
use psly_algorithm.Pool.Get.{Got, got, none_left, Single, get_record-Got}
use psly_algorithm.Pool.Worker.Same.{Same, get_record-Same}
use psly_algorithm.RecordList.{with_word, read_word, read_self, write_word}
use psly_algorithm.RecordList.Word.{address, counts, new_next}
use psly_algorithm.RecordList.Word.Fields.{new_next-Fields}
use psly_algorithm.RecordList.Round.{word_of}
use psly_algorithm.RecordList.Stores.{
  self_of, word-with_word, word-with_word_here, self-with_word, next-with_word,
}
use psly_algorithm.RecordList.Members.{
  Kept, Named, IsPool-frame, Kept-left, Kept-given, given-apart, Named-given,
}
use psly_algorithm.RecordList.Set.{IsMap}
use psly_algorithm.RecordList.Init.Spare.{
  spare, spare-Single, spare-update, spare-const, length-count_up,
}
use psly_algorithm.RecordList.Init.{taken, init_lists, write_list}

-- The end of a call of `get_Record`: a record that is not free any more, or a crash with nothing
-- to give.
pub data Took (l : Layout) (m : Memory) (free : ℕ → List ℕ) : Outcome Memory ℕ → Type 0 where
  took :
      {m' : Memory} (r : ℕ) (free' : ℕ → List ℕ)
      → IsPool l m' free'
      → Same m m'
      → Kept l free' r
      → Named l m' r
      → ((q : ℕ) → Kept l free q → (r == q) ≡ false)
      → ((q : ℕ) → Kept l free q → Kept l free' q)
      → suc (spare free' (array_num l)) ≡ spare free (array_num l)
      → Took l m free (done r m')
  none_took : spare free (array_num l) ≡ 0 → Took l m free crashed

taken-Took :
    (l : Layout) (m : Memory) (free : ℕ → List ℕ) (f : ℕ)
    → IsPool l m free
    → Took l m free (run (taken l (suc (suc f))) m)
taken-Took l m free f pool =
    rw (run->>= (get_record l (suc (suc f))) _ m) (go (get_record-Got l free f m pool) refl)
  where
    go :
        {o : Outcome Memory (Option ℕ)}
        → Got l free ((c : ℕ) → c < array_num l → Single (free c)) o
        → run (get_record l (suc (suc f))) m ≡ o
        → Took l m free (and_then o (λ a m'. run (elim a [ none ↦ crash | some r ↦ ret r ]) m'))
    go (none_left _ all) e = none_took (spare-Single free (array_num l) all)
    go (got {m = m₁} c x y r v lt split given pool₁) e =
        let same = get_record-Same l (suc (suc f)) m m₁ e in
        rw given (
          took (slot l c x) (update free c (y ∷ r)) pool₁ same
            (Kept-given l m free pool c x y r lt split)
            (ap (address l) (same.selves (slot l c x)) ∙ Named-given l m free pool c x y r lt split)
            (given-apart l m free pool c x y r lt split) (Kept-left l m free pool c x y r lt split)
            (spare-update free c (array_num l) x y r lt split))

-- An empty list stays where its two ends and the word of its head stay.
IsMap-frame :
    (l : Layout) (m m' : Memory) (free free' : ℕ → List ℕ) (j : ℕ)
    → IsMap l m free j []
    → IsPool l m' free'
    → m'.lists j ≡ m.lists j
    → word_of m' (m.lists j).head ≡ word_of m (m.lists j).head
    → self_of m' (m.lists j).tail ≡ self_of m (m.lists j).tail
    → Kept l free' (m.lists j).head
    → Kept l free' (m.lists j).tail
    → IsMap l m' free' j []
IsMap-frame l m m' free free' j h pool lists word self head tail = record {
  pool = pool;
  list = record {
    live = rw (lists, word) h.list.live;
    linked = rw (lists, word) h.list.linked;
    sorted = tt;
  };
  members = record {
    at_p = rw lists head;
    at_tail = rw lists (tail, ap (address l) self ∙ h.members.at_tail.1);
    at_entry = λ r k. absurd (ground arith);
  };
  apart = tt;
}

-- The lists before `i`, all empty.
abbrev Empties : Layout → Memory → (ℕ → List ℕ) → ℕ → Type 0
Empties l m free n = (j : ℕ) → j < n → IsMap l m free j []

-- The heads of the lists before `n` are different records.
abbrev HeadsApart : Memory → ℕ → Type 0
HeadsApart m n = (j k : ℕ) → j < n → k < j → ((m.lists j).head == (m.lists k).head) ≡ false

HeadsApart-Same : (m m' : Memory) (n : ℕ) → HeadsApart m n → Same m m' → HeadsApart m' n
HeadsApart-Same m m' n h same j k lt below = rw same.lists (h j k lt below)

Empties-Same :
    (l : Layout) (m m' : Memory) (free free' : ℕ → List ℕ) (n : ℕ)
    → Empties l m free n
    → IsPool l m' free'
    → Same m m'
    → ((q : ℕ) → Kept l free q → Kept l free' q)
    → Empties l m' free' n
Empties-Same l m m' free free' n h pool same kept j lt =
    IsMap-frame l m m' free free' j (h j lt) pool (ap (λ (ls : ℕ → RecordList). ls j) same.lists)
      (same.words _) (same.selves _) (kept _ (h j lt).members.at_p)
      (kept _ (h j lt).members.at_tail.0)

-- One list more, between the records `h` and `t`.
module _ (l : Layout) (m : Memory) (free : ℕ → List ℕ) (i h t : ℕ) (pool : IsPool l m free)
    (room : 1 < counts l) (empties : Empties l m free i) (kept_h : Kept l free h)
    (kept_t : Kept l free t) (named : Named l m t)
    (apart : (j : ℕ) → j < i → (h == (m.lists j).head) ≡ false) where
  abbrev linked : Memory
  linked = with_word m h (new_next l (word_of m h) (self_of m t))

  abbrev listed : Memory
  listed = record linked { lists = update m.lists i (record { head = h; tail = t }) }

  word_h : word_of listed h ≡ new_next l (word_of m h) (self_of m t)
  word_h = word-with_word_here m h _

  listed-IsPool : IsPool l listed free
  listed-IsPool =
      IsPool-frame l m listed free pool (next-with_word m h _) (self-with_word m h _) refl

  here : listed.lists i ≡ record { head = h; tail = t }
  here = ground (arith, ==_refl i)

  new-IsMap : IsMap l listed free i []
  new-IsMap = record {
    pool = listed-IsPool;
    list = record {
      live =
          rw (here, word_h, (new_next-Fields l (word_of m h) (self_of m t)).refs, mod-eq_of_lt room)
            refl;
      linked = rw (here, word_h) ((new_next-Fields l (word_of m h) (self_of m t)).at ∙ named);
      sorted = tt;
    };
    members = record {
      at_p = rw here kept_h;
      at_tail = rw here (kept_t, ap (address l) (self-with_word m h _ t) ∙ named);
      at_entry = λ r k. absurd (ground arith);
    };
    apart = tt;
  }

  listed-Empties : Empties l listed free (i + 1)
  listed-Empties j lt = elim (Bool-cases (j == i)) [
    | inl same ↦ rw (eq-of-== j i same) new-IsMap
    | inr other ↦
        let lt' : j < i = ground arith in
        IsMap-frame l m listed free free j (empties j lt') listed-IsPool (ground arith)
          (word-with_word m h _ _ (apart j lt')) (self-with_word m h _ _)
          (empties j lt').members.at_p (empties j lt').members.at_tail.0
  ]

  listed-HeadsApart : HeadsApart m i → HeadsApart listed (i + 1)
  listed-HeadsApart old j k lt below = elim (Bool-cases (j == i)) [
    | inl same ↦
        let e : j ≡ i = eq-of-== j i same in
        let k' : k < i = omega (arith, e) in
        let o : (k == i) ≡ false = ground arith in rw (same, o) (apart k k')
    | inr other ↦
        let lt' : j < i = ground arith in
        let o : (k == i) ≡ false = ground arith in rw (other, o) (old j k lt' below)
  ]

-- The end of the loop over the lists.
pub data Started (l : Layout) (n : ℕ) : Outcome Memory (Unit {0}) → Type 0 where
  started :
      {m' : Memory} (free' : ℕ → List ℕ)
      → IsPool l m' free'
      → Empties l m' free' n
      → HeadsApart m' n
      → Started l n (done tt m')

module _ (l : Layout) (f : ℕ) (room : 1 < counts l) where
  abbrev fuel : ℕ
  fuel = suc (suc f)

  -- The rest of a round, once its records are given.
  abbrev rest : ℕ → ℕ → ℕ → ℕ → Prog Memory (Unit {0})
  rest n i h t = do
    w ← read_word h
    self ← read_self t
    write_word h (new_next l w self)
    write_list i h t
    init_lists l fuel n (i + 1)

  Took-bind :
      {n : ℕ} {m : Memory} {free : ℕ → List ℕ} {o : Outcome Memory ℕ}
      (g : ℕ → Prog Memory (Unit {0}))
      → 0 < spare free (array_num l)
      → Took l m free o
      → ((m' : Memory) (r : ℕ) (free' : ℕ → List ℕ)
          → IsPool l m' free'
          → Same m m'
          → Kept l free' r
          → Named l m' r
          → ((q : ℕ) → Kept l free q → (r == q) ≡ false)
          → ((q : ℕ) → Kept l free q → Kept l free' q)
          → suc (spare free' (array_num l)) ≡ spare free (array_num l)
          → Started l n (run (g r) m'))
      → Started l n (and_then o (λ r m'. run (g r) m'))
  Took-bind g some_left (took r free' pool same kept named apart mono less) next =
      next _ r free' pool same kept named apart mono less
  Took-bind g some_left (none_took all) next = absurd (omega arith)

  init_lists-Started :
      (n i : ℕ) (m : Memory) (free : ℕ → List ℕ)
      → IsPool l m free
      → Empties l m free i
      → HeadsApart m i
      → n + n ≤ spare free (array_num l)
      → Started l (i + n) (run (init_lists l fuel n i) m)
  unfolding init_lists
  init_lists-Started zero i m free pool empties heads big =
      started free pool (λ j lt. empties j (omega arith)) (λ j k lt b. heads j k (omega arith) b)
  init_lists-Started (suc n) i m free pool empties heads big = rw (run->>= (taken l fuel) _ m) (
      Took-bind (λ h. taken l fuel >>= λ t. rest n i h t) (omega arith) (taken-Took l m free f pool)
        λ m₁ h free₁ pool₁ same₁ kept_h named_h apart_h mono₁ less₁.
          rw (run->>= (taken l fuel) _ m₁) (
            Took-bind (λ t. rest n i h t) (omega arith) (taken-Took l m₁ free₁ f pool₁)
              λ m₂ t free₂ pool₂ same₂ kept_t named_t apart_t mono₂ less₂.
                next (init_lists-Started n (i + 1)) m₁ m₂ free₁ free₂ h t pool₁ pool₂ same₁ same₂
                  (mono₂ h kept_h) kept_t named_t apart_h mono₁ mono₂ (omega arith)))
    where
      next :
          ((m' : Memory) (free' : ℕ → List ℕ)
            → IsPool l m' free'
            → Empties l m' free' (i + 1)
            → HeadsApart m' (i + 1)
            → n + n ≤ spare free' (array_num l)
            → Started l (i + 1 + n) (run (init_lists l fuel n (i + 1)) m'))
          → (m₁ m₂ : Memory) (free₁ free₂ : ℕ → List ℕ) (h t : ℕ) → IsPool l m₁ free₁
          → IsPool l m₂ free₂
          → Same m m₁
          → Same m₁ m₂
          → Kept l free₂ h
          → Kept l free₂ t
          → Named l m₂ t
          → ((q : ℕ) → Kept l free q → (h == q) ≡ false)
          → ((q : ℕ) → Kept l free q → Kept l free₁ q)
          → ((q : ℕ) → Kept l free₁ q → Kept l free₂ q)
          → n + n ≤ spare free₂ (array_num l)
          → Started l (i + suc n) (
              run
                (init_lists l fuel n (i + 1))
                (record (with_word m₂ h (new_next l (word_of m₂ h) (self_of m₂ t))) {
                  lists = update m₂.lists i (record { head = h; tail = t });
                }))
      next loop m₁ m₂ free₁ free₂ h t pool₁ pool₂ same₁ same₂ kept_h kept_t named_t apart_h mono₁
            mono₂ big₂ =
          let heads-apart : (j : ℕ) → j < i → (h == (m₂.lists j).head) ≡ false =
            λ j lt. rw (same₂.lists, same₁.lists) (apart_h _ (empties j lt).members.at_p) in
          let empties₁ = Empties-Same l m m₁ free free₁ i empties pool₁ same₁ mono₁ in
          let empties₂ = Empties-Same l m₁ m₂ free₁ free₂ i empties₁ pool₂ same₂ mono₂ in
          let heads₂ = HeadsApart-Same m₁ m₂ i (HeadsApart-Same m m₁ i heads same₁) same₂ in
          subst
            (λ x. Started l x (
              run (init_lists l fuel n (i + 1))
                (listed l m₂ free₂ i h t pool₂ room empties₂ kept_h kept_t named_t heads-apart)))
            (omega arith)
            (loop _ free₂
              (listed-IsPool l m₂ free₂ i h t pool₂ room empties₂ kept_h kept_t named_t heads-apart)
              (listed-Empties l m₂ free₂ i h t pool₂ room empties₂ kept_h kept_t named_t
                heads-apart)
              (listed-HeadsApart l m₂ free₂ i h t pool₂ room empties₂ kept_h kept_t named_t
                heads-apart heads₂)
              big₂)

-- `INIT_RESOURCE` as a whole, where a word has room for one reference and the arrays, which keep one
-- record back each, have two records for every list: it ends, with two rounds of fuel for the pool, and
-- then every list of the map is empty and well formed, the heads of the lists are different records and
-- the pool is well formed.
pub init_lists-IsMap :
    (l : Layout) (f : ℕ)
    → 1 < counts l
    → l.list_num + l.list_num ≤ array_num l * (array_len l - 1)
    → Started l l.list_num (run (init_lists l (suc (suc f)) l.list_num 0) (init_pool l))
init_lists-IsMap l f room big =
    let all = count_up 0 (array_len l) in
    subst (λ x. Started l x (run (init_lists l (suc (suc f)) l.list_num 0) (init_pool l)))
      (omega arith)
      (init_lists-Started l f room l.list_num 0 (init_pool l) (λ _. all) (init_pool-IsPool l)
        (λ j lt. absurd (omega arith)) (λ j k lt _. absurd (omega arith))
        (rw (spare-const all (array_num l), length-count_up 0 (array_len l)) big))
