-- ===== src/RecordList/Remove/Walk.antt =====
-- The walk of `psly_remove` to its entry and past it, run alone.
use mathlib.Core.Path.{subst}
use psly_algorithm.Base.{
  none, ◌++◌, update, ℕ, suc, ◌-◌, ◌*◌, ◌^◌, ◌<◌, ◌≡◌, refl, true, false, List, [], ◌∷◌, arith,
  ◌==◌, ==_refl, Bool-cases, inl, inr, ◌∙◌, ap, eq-of-==,
}
use psly_algorithm.Prog.{Outcome, done}
use psly_algorithm.Pool.{slot, Layout, Memory}
use psly_algorithm.Pool.Holds.{IsPool}
use psly_algorithm.RecordList.{key_above}
use psly_algorithm.RecordList.Word.{
  address, ref_count, counts, ref_one, node_version, link_version, minus_record,
  next_address_version,
}
use psly_algorithm.RecordList.Word.Fields.{Fields, minus_record-Fields, next_address_version-Fields}
use psly_algorithm.RecordList.Entries.{
  Entry, Linked, has_record, count_of, drop_key, leaving, ne_of-has_record, Linked-frame,
}
use psly_algorithm.RecordList.Round.{word_of, key_of}
use psly_algorithm.RecordList.Stores.{self_of}
use psly_algorithm.RecordList.Members.{TakesBack, Kept}
use psly_algorithm.RecordList.Insert.{Outside, Apart, Apart-head, Members, Named-curr}

-- The end of `psly_remove` for the key `k`, from the record `p` on.
pub data Removed (l : Layout) (m : Memory) (free : ℕ → List ℕ) (tail p k : ℕ) (es : List Entry)
    : Outcome Memory ℕ → Type 0 where
  removed :
      {m' : Memory} (free' : ℕ → List ℕ) (v : ℕ)
      → IsPool l m' free'
      → Linked l m' tail (address l (word_of m' p)) (drop_key k es)
      → ref_count l (word_of m' p) ≡ ref_count l (word_of m p)
      → Outside m m' p es (λ _. false)
      → ((q : ℕ) → Kept l free q → has_record q es ≡ false → Kept l free' q)
      → ((q : ℕ) → has_record q (drop_key k es) ≡ true → (has_record q es ≡ true) × Kept l free' q)
      → Apart p (drop_key k es)
      → v ≡ count_of k es - 1
      → TakesBack l free free' (leaving k es)
      → Removed l m free tail p k es (done v m')

-- A record before the last two is before the last.
Apart-skip : (p : ℕ) (e : Entry) (es : List Entry) → Apart p (e ∷ es) → Apart p es
Apart-skip p e [] a = tt
Apart-skip p e (d ∷ es) a = (ground (arith, a.0), a.1.1)

module _ (l : Layout) (m : Memory) (free : ℕ → List ℕ) (tail p k : ℕ) (e : Entry) (es : List Entry)
    (members : Members l m free tail p (e ∷ es)) (apart : Apart p (e ∷ es))
    (linked : Linked l m tail (address l (word_of m p)) (e ∷ es)) where
  abbrev curr : ℕ
  curr = address l (word_of m p)

  pub lone_p : (curr == p) ≡ false
  lone_p = ground (arith, linked.0, apart.0)

  lone_out : (r : ℕ) → has_record r (e ∷ es) ≡ false → (curr == r) ≡ false
  lone_out r h = ground (arith, linked.0)

  pub lone_in : (r : ℕ) → has_record r es ≡ true → (curr == r) ≡ false
  lone_in r h = ne_of-has_record curr r es (rw linked.0 (Apart-head e.at es apart.1)) h

  -- The key is not there.
  pub absent-Removed :
      IsPool l m free
      → drop_key k (e ∷ es) ≡ e ∷ es
      → count_of k (e ∷ es) ≡ 0
      → leaving k (e ∷ es) ≡ none
      → Removed l m free tail p k (e ∷ es) (done 0 m)
  absent-Removed pool same none_of no_leave =
      removed free 0 pool (rw same linked) refl
        (record { words = λ _ _ _ _. refl; keys = λ _ _ _. refl; selves = λ _. refl; lists = refl })
        (λ _ h _. h) (λ q h. let h' = rw same at h in (h', (members.at_entry q h').0))
        (rw same apart) (rw none_of (omega arith)) (rw no_leave refl)

  -- The entry is counted down, in the memory `m₂`.
  module _ (m₂ : Memory) (c : ℕ) (pool₂ : IsPool l m₂ free) (same_key : (e.key == k) ≡ true)
      (full : counts l * ref_one l ≡ 2 ^ 64) (small : word_of m curr < 2 ^ 64)
      (count : e.count ≡ suc (suc c))
      (word_curr : word_of m₂ curr ≡ minus_record l (word_of m curr))
      (words : (r : ℕ) → (curr == r) ≡ false → word_of m₂ r ≡ word_of m r)
      (keys : (r : ℕ) → key_of m₂ r ≡ key_of m r) (selves : (r : ℕ) → self_of m₂ r ≡ self_of m r)
      (lists : m₂.lists ≡ m.lists) where
    fields :
        Fields l
          (minus_record l (word_of m curr))
          (suc c)
          (node_version l (word_of m curr))
          (link_version l (word_of m curr))
          (address l (word_of m curr))
    fields = minus_record-Fields l (word_of m curr) (suc c) full small (linked.3 ∙ count)

    not_one : (e.count == 1) ≡ false
    not_one = rw count (ground arith)

    Linked-stays : Linked l m₂ tail curr (record e { count = e.count - 1 } ∷ es)
    Linked-stays = (
      linked.0,
      linked.1,
      keys curr ∙ linked.2,
      rw word_curr (fields.refs ∙ omega arith),
      rw count (ground arith),
      rw (word_curr, fields.at)
          (Linked-frame l m m₂ tail es _ (λ q h. (words q (lone_in q h), keys q)) linked.5),
    )

    pub stays-Removed : Removed l m free tail p k (e ∷ es) (done (suc c) m₂)
    stays-Removed =
        removed free (suc c) pool₂ (rw (words p lone_p, same_key, not_one) Linked-stays)
          (ap (ref_count l) (words p lone_p))
          (record {
            words = λ r _ h _. words r (lone_out r h);
            keys = λ r _ _. keys r;
            selves = selves;
            lists = lists;
          })
          (λ _ h _. h)
          (λ q h. let h' = rw (same_key, not_one) at h in (h', (members.at_entry q h').0))
          (rw (same_key, not_one) apart) (rw same_key (omega arith)) (rw (same_key, not_one) refl)

  pub Members-next : Members l m free tail curr es
  Members-next = record {
    at_p = (members.at_entry curr (rw linked.0 (rw (==_refl e.at) refl))).0;
    at_tail = members.at_tail;
    at_entry = λ q h. members.at_entry q (ground arith);
  }

  -- The entry has lost its last reference, and the memory `m₅` is that after its record has gone back.
  module _ (m₅ : Memory) (free' : ℕ → List ℕ) (pool₅ : IsPool l m₅ free')
      (same_key : (e.key == k) ≡ true) (count : e.count ≡ 1)
      (word_p : word_of m₅ p
        ≡ next_address_version l (word_of m p) (self_of m (address l (word_of m curr))))
      (words : (r : ℕ) → (p == r) ≡ false → (curr == r) ≡ false → word_of m₅ r ≡ word_of m r)
      (keys : (r : ℕ) → (curr == r) ≡ false → key_of m₅ r ≡ key_of m r)
      (selves : (r : ℕ) → self_of m₅ r ≡ self_of m r) (lists : m₅.lists ≡ m.lists)
      (kept : (q : ℕ) → Kept l free q → (curr == q) ≡ false → Kept l free' q)
      (back : (a : ℕ) × (i : ℕ) × (slot l a i ≡ curr)
        × (free' ≡ update free a (free a ++ i ∷ []))) where
    is_one : (e.count == 1) ≡ true
    is_one = rw count refl

    next_p : address l (word_of m₅ p) ≡ address l (word_of m curr)
    next_p = rw word_p (
        (next_address_version-Fields l _ _).at
        ∙ Named-curr l m free tail curr (address l (word_of m curr)) es Members-next linked.5)

    Linked-unlinked : Linked l m₅ tail (address l (word_of m curr)) es
    Linked-unlinked =
        Linked-frame l m m₅ tail es _
          (λ q h. (
            words q (ne_of-has_record p q es (Apart-head p es (Apart-skip p e es apart)) h)
                (lone_in q h),
            keys q (lone_in q h),
          ))
          linked.5

    pub unlinked-Removed : Removed l m free tail p k (e ∷ es) (done 0 m₅)
    unlinked-Removed =
        removed free' 0 pool₅ (rw (next_p, same_key, is_one) Linked-unlinked)
          (rw word_p (next_address_version-Fields l _ _).refs)
          (record {
            words = λ r o h _. words r o (lone_out r h);
            keys = λ r h _. keys r (lone_out r h);
            selves = selves;
            lists = lists;
          })
          (λ q h o. kept q h (lone_out q o))
          (λ q h.
            let h' = rw (same_key, is_one) at h in
            (ground arith, kept q (Members-next.at_entry q h').0 (lone_in q h')))
          (rw (same_key, is_one) (Apart-skip p e es apart)) (rw same_key (omega arith))
          (rw (same_key, is_one) (back.0, back.1, back.2 ∙ linked.0, back.3))

  p_out :
      (more : List Entry)
      → ((q : ℕ) → has_record q more ≡ true → has_record q es ≡ true)
      → has_record p (e ∷ more) ≡ false
  p_out more from = elim (Bool-cases (has_record p more)) [
    | inr out ↦ ground (arith, apart.0)
    | inl in_more ↦ absurd (ground (arith, apart.0, from p in_more))
  ]

  entries-after :
      (free' : ℕ → List ℕ) (more : List Entry)
      → Kept l free' curr
      → ((q : ℕ) → has_record q more ≡ true → (has_record q es ≡ true) × Kept l free' q)
      → (q : ℕ) → has_record q (e ∷ more) ≡ true
      → (has_record q (e ∷ es) ≡ true) × Kept l free' q
  entries-after free' more own from q h = elim (Bool-cases (e.at == q)) [
    | inl here ↦ (rw here refl, subst (Kept l free') (linked.0 ∙ eq-of-== e.at q here) own)
    | inr later ↦ let old = from q (rw later at h) in (rw later old.0, old.1)
  ]

  -- The entry has a lower key: the walk goes past it.
  pub passed-Removed :
      {o : Outcome Memory ℕ}
      → key_above e.key k ≡ false
      → (e.key == k) ≡ false
      → Removed l m free tail curr k es o
      → Removed l m free tail p k (e ∷ es) o
  passed-Removed low other (removed {m'} free' v pool after ref out kept entries lone value back) =
      let out_es = Apart-head e.at es apart.1 in
      let word_p : word_of m' p ≡ word_of m p =
        out.words p lone_p (Apart-head p es (Apart-skip p e es apart)) refl in
      removed free' v pool
        (rw (word_p, other, low)
          (
            linked.0,
            linked.1,
            out.keys curr (rw linked.0 out_es) refl ∙ linked.2,
            ref ∙ linked.3,
            linked.4,
            after,
          ))
        (ap (ref_count l) word_p)
        (record {
          words = λ r _ h n. out.words r (lone_out r h) (ground arith) n;
          keys = λ r h n. out.keys r (ground arith) n;
          selves = out.selves;
          lists = out.lists;
        })
        (λ q h o. kept q h (ground arith))
        (λ q h.
          entries-after free' (drop_key k es) (kept curr Members-next.at_p (rw linked.0 out_es))
            entries q (rw (other, low) at h))
        (rw (other, low) (p_out (drop_key k es) (λ q h. (entries q h).0), rw linked.0 at lone))
        (rw other value) (rw (other, low) back)
