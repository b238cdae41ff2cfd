-- ===== src/RecordList/Entries.antt =====
-- What a list holds: its entries in the order of their keys, and the abstract set that they stand
-- for, a count for each key.
use psly_algorithm.Base.{
  ℕ, suc, ◌-◌, ◌^◌, ◌<◌, ◌≡◌, refl, Option, none, some, Bool, true, false, List, [], ◌∷◌, ◌||◌,
  arith, ◌==◌, if◌then◌else◌, Bool-cases, inl, inr, eq-of-==, ==_refl, ap, ◌∙◌,
}
use psly_algorithm.Pool.{Layout, Memory}
use psly_algorithm.RecordList.{key_above}
use psly_algorithm.RecordList.Word.{address, ref_count}

-- A record in a list, with its key and its count.
pub record Entry : Type 0 where
  pub at : ℕ
  pub key : ℕ
  pub count : ℕ

-- The records from `r` up to the tail are those of the entries, each alive.
abbrev pub Linked : Layout → Memory → ℕ → ℕ → List Entry → Type 0
Linked l m tail r [] = r ≡ tail
Linked l m tail r (e ∷ es) =
    (r ≡ e.at)
    × ((r == tail) ≡ false)
    × ((m.records r).pointer ≡ e.key)
    × (ref_count l (m.records r).next_record ≡ e.count)
    × ((e.count == 0) ≡ false)
    × Linked l m tail (address l (m.records r).next_record) es

-- The keys are above `k`, the first of them at least.
abbrev pub Above : ℕ → List Entry → Type 0
Above k [] = Unit {0}
Above k (e ∷ es) = key_above e.key k ≡ true

abbrev pub Sorted : List Entry → Type 0
Sorted [] = Unit {0}
Sorted (e ∷ es) = (e.key < 2 ^ 64) × Above e.key es × Sorted es

-- Whether `r` is the record of an entry.
abbrev pub has_record : ℕ → List Entry → Bool
has_record r [] = false
has_record r (e ∷ es) = (e.at == r) || has_record r es

-- The abstract set: the count of a key, one more of a key (in the record `r` if it is new), and one
-- less.
abbrev pub count_of : ℕ → List Entry → ℕ
count_of k [] = 0
count_of k (e ∷ es) = if e.key == k then e.count else count_of k es

abbrev pub add_key : ℕ → ℕ → List Entry → List Entry
add_key k r [] = record { at = r; key = k; count = 1 } ∷ []
add_key k r (e ∷ es) =
    let rest = add_key k r es in
    if e.key == k
    then record e { count = suc e.count } ∷ es
    else if key_above e.key k
    then record { at = r; key = k; count = 1 } ∷ e ∷ es
    else e ∷ rest

abbrev pub drop_key : ℕ → List Entry → List Entry
drop_key k [] = []
drop_key k (e ∷ es) =
    let rest = drop_key k es in
    if e.key == k
    then (if e.count == 1 then es else record e { count = e.count - 1 } ∷ es)
    else if key_above e.key k
    then e ∷ es
    else e ∷ rest

-- The record of the key, where it goes with its last reference.
abbrev pub leaving : ℕ → List Entry → Option ℕ
leaving k [] = none
leaving k (e ∷ es) =
    let rest = leaving k es in
    if e.key == k
    then (if e.count == 1 then some e.at else none)
    else if key_above e.key k
    then none
    else rest

key_above_trans : (a b c : ℕ) → key_above a b ≡ true → key_above b c ≡ true → key_above a c ≡ true
unfolding key_above
key_above_trans a b c h k = ground arith

pub ne_of-key_above : (a b : ℕ) → key_above a b ≡ true → (a == b) ≡ false
unfolding key_above
ne_of-key_above a b h = elim (Bool-cases (a == b)) [
  | inr differ ↦ differ
  | inl same ↦ absurd (ground (arith, eq-of-== a b same))
]

-- Of two keys, one is above the other or they are the same.
pub key_above-total :
    (a b : ℕ)
    → a < 2 ^ 64
    → b < 2 ^ 64
    → (a == b) ≡ false
    → key_above a b ≡ false
    → key_above b a ≡ true
unfolding key_above
key_above-total a b h k o e = ground arith

pub Above-trans : (a b : ℕ) (es : List Entry) → key_above a b ≡ true → Above a es → Above b es
Above-trans a b [] h k = tt
Above-trans a b (e ∷ es) h k = key_above_trans e.key a b k h

-- A key below all entries is not there.
pub count_of-Above : (k : ℕ) (es : List Entry) → Sorted es → Above k es → count_of k es ≡ 0
count_of-Above k [] s a = refl
count_of-Above k (e ∷ es) s a =
    rw (ne_of-key_above e.key k a) (count_of-Above k es s.2 (Above-trans e.key k es a s.1))

-- A key below all entries comes first.
pub add_key-Above :
    (k r : ℕ) (es : List Entry)
    → Above k es
    → add_key k r es ≡ record { at = r; key = k; count = 1 } ∷ es
add_key-Above k r [] a = refl
add_key-Above k r (e ∷ es) a = rw (ne_of-key_above e.key k a, a) refl

pub ne_of-has_record :
    (p r : ℕ) (es : List Entry)
    → has_record p es ≡ false
    → has_record r es ≡ true
    → (p == r) ≡ false
ne_of-has_record p r es h k = elim (Bool-cases (p == r)) [
  | inr differ ↦ differ
  | inl same ↦ absurd (ground (arith, eq-of-== p r same))
]

-- The entries stay where their words and keys stay.
pub Linked-frame :
    (l : Layout) (m m' : Memory) (tail : ℕ) (es : List Entry) (r : ℕ)
    → ((q : ℕ)
        → has_record q es ≡ true
        → ((m'.records q).next_record ≡ (m.records q).next_record)
          × ((m'.records q).pointer ≡ (m.records q).pointer))
    → Linked l m tail r es
    → Linked l m' tail r es
Linked-frame l m m' tail [] r same h = h
Linked-frame l m m' tail (e ∷ es) r same (here, inner, key, count, alive, rest) =
    let own = same r (rw here (rw (==_refl e.at) refl)) in
    (
      here,
      inner,
      own.1 ∙ key,
      ap (ref_count l) own.0 ∙ count,
      alive,
      rw own.0 (Linked-frame l m m' tail es _ (λ q h. same q (ground arith)) rest),
    )

-- The abstract set after `add_key`: the key has one more, the others what they had.
pub count_of-add_key :
    (k r : ℕ) (es : List Entry) → Sorted es → count_of k (add_key k r es) ≡ suc (count_of k es)
count_of-add_key k r [] s = rw (==_refl k) refl
count_of-add_key k r (e ∷ es) s = elim (Bool-cases (e.key == k)) [
  | inl same ↦ rw (same, same) refl
  | inr other ↦ elim (Bool-cases (key_above e.key k)) [
    | inl high ↦
        rw (other, high, ==_refl k)
          (rw (count_of-Above k es s.2 (Above-trans e.key k es high s.1)) refl)
    | inr low ↦ rw (other, low, other) (count_of-add_key k r es s.2)
  ]
]

pub count_of-add_key_other :
    (k r j : ℕ) (es : List Entry) → (k == j) ≡ false → count_of j (add_key k r es) ≡ count_of j es
count_of-add_key_other k r j [] o = rw o refl
count_of-add_key_other k r j (e ∷ es) o = elim (Bool-cases (e.key == k)) [
  | inl same ↦ let o' : (e.key == j) ≡ false = rw (eq-of-== e.key k same) o in rw (same, o') refl
  | inr other ↦ elim (Bool-cases (key_above e.key k)) [
    | inl high ↦ rw (other, high, o) refl
    | inr low ↦ rw (other, low) (ground (arith, count_of-add_key_other k r j es o))
  ]
]
