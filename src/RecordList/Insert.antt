-- ===== src/RecordList/Insert.antt =====
-- `psly_record` run alone: it counts the key up, or takes a record of the pool and links it in its place.
pub mod Walk
use native.Mathlib.Nat.{mod-eq_of_lt}
use psly_algorithm.Base.{
  ℕ, zero, suc, ◌+◌, ◌%◌, ◌<◌, ◌≤◌, ◌≡◌, refl, Bool, true, false, ◌||◌, List, [], ◌∷◌, length, none,
  some, arith, ◌==◌, ==_refl, Bool-cases, inl, inr, ◌⊎◌, ◌∙◌, sym, ap, update, eq-of-==,
}
use psly_algorithm.Prog.{run, Outcome, done, crashed}
use psly_algorithm.Pool.{Layout, Memory, array_num, slot, get_record}
use psly_algorithm.Pool.Holds.{IsPool}
use psly_algorithm.Pool.Get.{Got, got, none_left, Single, get_record-Got}
use psly_algorithm.Pool.Worker.Same.{Same, get_record-Same}
use psly_algorithm.RecordList.{
  Task, Local, Flag, record_flag, key_above, keep_prev, at_place, at_key, with_word, with_pointer,
}
use psly_algorithm.RecordList.Word.{
  address, ref_count, counts, plus_record, new_next, next_address_version,
}
use psly_algorithm.RecordList.Word.Fields.{
  plus_record-Fields, new_next-Fields, next_address_version-Fields,
}
use psly_algorithm.RecordList.Entries.{
  Entry, Linked, Sorted, Above, Above-trans, has_record, count_of, add_key, count_of-Above,
  ne_of-key_above, add_key-Above, ne_of-has_record, Linked-frame,
}
use psly_algorithm.RecordList.Round.{word_of, key_of, behind}
use psly_algorithm.RecordList.Steps.{step-tail, step-above, step-found, step-below}
use psly_algorithm.RecordList.Stores.{self_of}
use psly_algorithm.RecordList.Place.{count_up_key, place-crashed, place-inserted, inserted}
use psly_algorithm.RecordList.Members.{
  Lends, Kept, Named, left, Kept-left, Kept-given, given-apart, Named-given,
}

-- What stays of the records that are not those of `es`, not behind `p`, and not new.
pub record Outside (m m' : Memory) (p : ℕ) (es : List Entry) (new : ℕ → Bool) : Type 0 where
  pub words :
      (r : ℕ)
      → (p == r) ≡ false
      → has_record r es ≡ false
      → new r ≡ false
      → word_of m' r ≡ word_of m r
  pub keys : (r : ℕ) → has_record r es ≡ false → new r ≡ false → key_of m' r ≡ key_of m r
  pub selves : (r : ℕ) → self_of m' r ≡ self_of m r
  pub lists : m'.lists ≡ m.lists

-- The records up to the tail are different records, none of them `p`.
abbrev pub Apart : ℕ → List Entry → Type 0
Apart p [] = Unit {0}
Apart p (e ∷ es) = (has_record p (e ∷ es) ≡ false) × Apart e.at es

pub Apart-head : (p : ℕ) (es : List Entry) → Apart p es → has_record p es ≡ false
Apart-head p [] a = refl
Apart-head p (e ∷ es) a = a.0

Apart-other : (p q : ℕ) (es : List Entry) → Apart p es → has_record q es ≡ false → Apart q es
Apart-other p q [] a h = tt
Apart-other p q (e ∷ es) a h = (h, a.1)

-- The end of `psly_record` for the key `k`, from the record `p` on: the key has one more, or there is no
-- record for it.
pub data Recorded (l : Layout) (m : Memory) (free : ℕ → List ℕ) (tail p k : ℕ) (es : List Entry)
    : Outcome Memory ℕ → Type 0 where
  recorded :
      {m' : Memory} (my : ℕ) (new : ℕ → Bool) (free' : ℕ → List ℕ) (v : ℕ)
      → IsPool l m' free'
      → Linked l m' tail (address l (word_of m' p)) (add_key k my es)
      → ref_count l (word_of m' p) ≡ ref_count l (word_of m p)
      → Outside m m' p es new
      → ((q : ℕ) → Kept l free q → new q ≡ false)
      → ((q : ℕ) → Kept l free q → Kept l free' q)
      → ((q : ℕ) → new q ≡ true → Kept l free' q × Named l m' q)
      → v ≡ suc (count_of k es)
      → Apart p (add_key k my es)
      → ((q : ℕ)
          → has_record q (add_key k my es) ≡ true
          → (has_record q es ≡ true) ⊎ (new q ≡ true))
      → Lends l free free' my (count_of k es)
      → Recorded l m free tail p k es (done v m')
  no_memory : ((c : ℕ) → c < array_num l → Single (free c)) → Recorded l m free tail p k es crashed

-- The records of the walk that is to come: the tail, those of the entries, and `p` before them.
pub record Members (l : Layout) (m : Memory) (free : ℕ → List ℕ) (tail p : ℕ) (es : List Entry)
    : Type 0 where
  pub at_p : Kept l free p
  pub at_tail : Kept l free tail × Named l m tail
  pub at_entry : (r : ℕ) → has_record r es ≡ true → Kept l free r × Named l m r

module _ (l : Layout) (m m₁ : Memory) (same : Same m m₁) (my p k w v : ℕ) where
  abbrev pub m' : Memory
  m' = with_word (with_word (with_pointer m₁ my k) my w) p v

  pub inserted-Outside : (es : List Entry) → Outside m m' p es (λ r. my == r)
  inserted-Outside es = record {
    words = λ r h _ o. ground (arith, same.words r);
    keys = λ r _ o. ground (arith, same.pointers r);
    selves = λ r. ground (arith, same.selves r);
    lists = same.lists;
  }

  pub inserted-p : word_of m' p ≡ v
  inserted-p = ground arith

  pub inserted-my : (my == p) ≡ false → word_of m' my ≡ w
  inserted-my h = ground arith

  pub inserted-key : key_of m' my ≡ k
  inserted-key = ground arith

-- The record after `p` knows its number.
pub Named-curr :
    (l : Layout) (m : Memory) (free : ℕ → List ℕ) (tail p r : ℕ) (es : List Entry)
    → Members l m free tail p es
    → Linked l m tail r es
    → Named l m r
Named-curr l m free tail p r [] h k = rw k h.at_tail.1
Named-curr l m free tail p r (e ∷ es) h k = (h.at_entry r (rw k.0 (rw (==_refl e.at) refl))).1

module _ (l : Layout) (m : Memory) (free : ℕ → List ℕ) (tail p k : ℕ) (es : List Entry)
    (pool : IsPool l m free) (room : 1 < counts l) (members : Members l m free tail p es)
    (apart : Apart p es) (linked : Linked l m tail (address l (word_of m p)) es)
    (above : Above k es) (sorted : Sorted es) where
  abbrev curr : ℕ
  curr = address l (word_of m p)

  -- The record `x` of array `c`, given by the pool, in its place in the memory `m₂`.
  module _ (m₁ m₂ : Memory) (same : Same m m₁) (c x y : ℕ) (r : List ℕ) (lt : c < array_num l)
      (split : free c ≡ x ∷ y ∷ r) (pool₂ : IsPool l m₂ (update free c (y ∷ r)))
      (word_p : word_of m₂ p ≡ next_address_version l (word_of m p) (self_of m₁ (slot l c x)))
      (word_my : word_of m₂ (slot l c x) ≡ new_next l (word_of m₁ (slot l c x)) (self_of m₁ curr))
      (key_my : key_of m₂ (slot l c x) ≡ k)
      (out : (fs : List Entry) → Outside m m₂ p fs (λ q. slot l c x == q)) where
    abbrev my : ℕ
    my = slot l c x

    Named-my : address l (self_of m₁ my) ≡ my
    Named-my = ap (address l) (same.selves my) ∙ Named-given l m free pool c x y r lt split

    curr-my : address l (word_of m₂ p) ≡ my
    curr-my = rw word_p ((next_address_version-Fields l _ _).at ∙ Named-my)

    curr_after : address l (word_of m₂ my) ≡ curr
    curr_after = rw word_my (
        (new_next-Fields l _ _).at
        ∙ ap (address l) (same.selves curr)
        ∙ Named-curr l m free tail p curr es members linked)

    rest : Linked l m₂ tail curr es
    rest =
        Linked-frame l m m₂ tail es curr
          (λ q h.
            let new = given-apart l m free pool c x y r lt split q (members.at_entry q h).0 in
            (
              (out []).words q (ne_of-has_record p q es (Apart-head p es apart) h) refl new,
              (out []).keys q refl new,
            ))
          linked

    Linked-my : Linked l m₂ tail my (record { at = my; key = k; count = 1 } ∷ es)
    Linked-my = (
      refl,
      given-apart l m free pool c x y r lt split tail members.at_tail.0,
      key_my,
      rw word_my ((new_next-Fields l _ _).refs ∙ mod-eq_of_lt room),
      refl,
      rw curr_after rest,
    )

    Named-new : (q : ℕ) → (my == q) ≡ true → Kept l (update free c (y ∷ r)) q × Named l m₂ q
    Named-new q h = rw (← eq-of-== my q h) (
      Kept-given l m free pool c x y r lt split,
      ap (address l) ((out []).selves my) ∙ Named-given l m free pool c x y r lt split,
    )

    not_there : has_record my es ≡ false
    not_there = elim (Bool-cases (has_record my es)) [
      | inr out ↦ out
      | inl there ↦ absurd (
          ground (
            arith,
            given-apart l m free pool c x y r lt split my (members.at_entry my there).0,
            ==_refl my,
          ))
    ]

    my_out : has_record p (record { at = my; key = k; count = 1 } ∷ es) ≡ false
    my_out = rw (given-apart l m free pool c x y r lt split p members.at_p) (Apart-head p es apart)

    my-from :
        (q : ℕ)
        → ((my == q) || has_record q es) ≡ true
        → (has_record q es ≡ true) ⊎ ((my == q) ≡ true)
    my-from q h = elim (Bool-cases (my == q)) [
      | inl same_one ↦ inr same_one
      | inr other ↦ inl (ground arith)
    ]

    pub inserted-Recorded : Recorded l m free tail p k es (done 1 m₂)
    inserted-Recorded =
        recorded my (λ q. my == q) (update free c (y ∷ r)) 1 pool₂
          (rw (curr-my, add_key-Above k my es above) Linked-my)
          (rw word_p (next_address_version-Fields l _ _).refs) (out es)
          (given-apart l m free pool c x y r lt split) (Kept-left l m free pool c x y r lt split)
          Named-new (rw (count_of-Above k es sorted above) refl)
          (rw (add_key-Above k my es above) (my_out, Apart-other p my es apart not_there))
          (λ q h. my-from q (rw (add_key-Above k my es above) at h))
          (rw (count_of-Above k es sorted above) (c, x, y ∷ r, split, refl, refl))
