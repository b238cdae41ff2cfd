-- ===== src/RecordList/Members.antt =====
-- The records of a list and the pool: none of them is free, and each knows its number.
use native.Mathlib.Nat.{
  mod-eq_of_lt, pow-zero, pow-suc, mul_right_comm, mul-le-mul_right, suc-mul, mod-lt, div-add-mod',
  div-lt_iff_lt-mul,
}
use psly_algorithm.Base.{
  ℕ, zero, suc, ◌+◌, ◌*◌, ◌%◌, ◌/◌, ◌^◌, ◌<◌, ◌≡◌, refl, true, false, List, [], ◌∷◌, ◌++◌, arith,
  ◌==◌, has, update, Bool-cases, inl, Option, none, some, inr, eq-of-==, ap, ◌∙◌, ◌||◌,
}
use psly_algorithm.Pool.{Layout, Memory, RecordQueue, array_num, array_len, slot, index_of}
use psly_algorithm.Pool.Words.{slot-ne, index_of-lt, pow_two_pos}
use psly_algorithm.Pool.Chain.{Chain-lt, has-append}
use psly_algorithm.Pool.Return.{ne_of-has}
use psly_algorithm.Pool.Holds.{Holds-frame, IsPool, link}
use psly_algorithm.RecordList.Word.{address, addresses}
use psly_algorithm.RecordList.Stores.{self_of}

-- `r` is none of the free records.
abbrev pub Kept : Layout → (ℕ → List ℕ) → ℕ → Type 0
Kept l free r = (c x : ℕ) → c < array_num l → has x (free c) ≡ true → (slot l c x == r) ≡ false

abbrev pub Named : Layout → Memory → ℕ → Type 0
Named l m r = address l (self_of m r) ≡ r

pow_add : (b a : ℕ) → 2 ^ (b + a) ≡ 2 ^ a * 2 ^ b
pow_add b zero = let e : b + 0 ≡ b = omega arith in rw (pow-zero 2, e) (omega arith)
pow_add b (suc a) =
    let e : b + suc a ≡ suc (b + a) = omega arith in
    rw (e, pow-suc 2 (b + a), pow-suc 2 a, pow_add b a) (mul_right_comm (2 ^ a) (2 ^ b) 2)

slot-fits : (a b c i : ℕ) → c < 2 ^ a → i < 2 ^ b → c * 2 ^ b + i < 2 ^ (b + a)
slot-fits a b c i h k =
    rw (pow_add b a) (omega (arith, mul-le-mul_right (2 ^ b) h, suc-mul c (2 ^ b)))

module _ (l : Layout) where
  address-slot : (c i : ℕ) → c < array_num l → i < array_len l → address l (slot l c i) ≡ slot l c i
  unfolding address
  address-slot c i h k = mod-eq_of_lt (slot-fits l.arr_num l.idx_num c i h k)

-- A record that knows its number stands in an array.
pub slot-address :
    (l : Layout) (w : ℕ)
    → (a i : ℕ) × (a < array_num l) × (i < array_len l) × (slot l a i ≡ address l w)
unfolding address
slot-address l w =
    let r = w % addresses l in
    (
      r / array_len l,
      r % array_len l,
      (div-lt_iff_lt-mul (pow_two_pos l.idx_num)).1
          (rw (← pow_add l.idx_num l.arr_num) (mod-lt w (pow_two_pos (l.idx_num + l.arr_num)))),
      mod-lt r (pow_two_pos l.idx_num),
      div-add-mod' r (array_len l),
    )

module _ (l : Layout) (m : Memory) (free : ℕ → List ℕ) (p : IsPool l m free) where
  pub free-lt : (c x : ℕ) → c < array_num l → has x (free c) ≡ true → x < array_len l
  free-lt c x h k =
      Chain-lt l (link l m c) (index_of l (m.queues c).head) x (free c) (index_of-lt l _)
        (p.holds c h).chain k

  pub Named-slot : (c i : ℕ) → c < array_num l → i < array_len l → Named l m (slot l c i)
  Named-slot c i h k = ap (address l) (p.named c i h k) ∙ address-slot l c i h k

module _ (l : Layout) (m : Memory) (free : ℕ → List ℕ) (p : IsPool l m free) (c x y : ℕ)
    (r : List ℕ) (lt : c < array_num l) (split : free c ≡ x ∷ y ∷ r) where
  -- What is left of the pool after the record `x` of array `c` is given.
  abbrev pub left : ℕ → List ℕ
  left = update free c (y ∷ r)

  left-free : (d z : ℕ) → has z (left d) ≡ true → has z (free d) ≡ true
  left-free d z h = elim (Bool-cases (d == c)) [
    | inr other ↦ ground arith
    | inl same ↦ rw (eq-of-== d c same, split) (ground arith)
  ]

  pub Kept-left : (q : ℕ) → Kept l free q → Kept l left q
  Kept-left q k d z h i = k d z h (left-free d z i)

  x-lt : x < array_len l
  x-lt = free-lt l m free p c x lt (rw split (ground arith))

  same_array : (z : ℕ) → has z (y ∷ r) ≡ true → (slot l c z == slot l c x) ≡ false
  same_array z h =
      let differ : (z == x) ≡ false =
        ne_of-has z x (y ∷ r) h (rw split at (p.holds c lt).distinct).0 in
      ground arith

  pub Kept-given : Kept l left (slot l c x)
  Kept-given d z h i = elim (Bool-cases (d == c)) [
    | inr other ↦ slot-ne l d c z x other (free-lt l m free p d z h (left-free d z i)) x-lt
    | inl same ↦ rw (eq-of-== d c same) (same_array z (ground arith))
  ]

  pub given-apart : (q : ℕ) → Kept l free q → (slot l c x == q) ≡ false
  given-apart q k = k c x lt (rw split (ground arith))

  pub Named-given : Named l m (slot l c x)
  Named-given = Named-slot l m free p c x lt x-lt

-- For a key that has no reference, the free records without the oldest of a queue, which is `my`; for
-- any other, the free records as they were.
abbrev pub Lends : Layout → (ℕ → List ℕ) → (ℕ → List ℕ) → ℕ → ℕ → Type 0
Lends l free free' my zero =
    (c : ℕ) × (x : ℕ) × (r : List ℕ) × (free c ≡ x ∷ r)
    × (my ≡ slot l c x)
    × (free' ≡ update free c r)
Lends l free free' my (suc refs) = free' ≡ free

pub Lends-none :
    (l : Layout) (free : ℕ → List ℕ) (my refs : ℕ) → (refs == 0) ≡ false → Lends l free free my refs
Lends-none l free my zero h = absurd (ground (arith, h))
Lends-none l free my (suc refs) h = refl

-- The free records as they were, or with a record behind those of its array.
abbrev pub TakesBack : Layout → (ℕ → List ℕ) → (ℕ → List ℕ) → Option ℕ → Type 0
TakesBack l free free' none = free' ≡ free
TakesBack l free free' (some q) =
    (a : ℕ) × (i : ℕ) × (slot l a i ≡ q) × (free' ≡ update free a (free a ++ i ∷ []))

-- A pool whose links, ends and numbers stay.
pub IsPool-frame :
    (l : Layout) (m m' : Memory) (free : ℕ → List ℕ)
    → IsPool l m free
    → ((r : ℕ) → (m'.records r).next ≡ (m.records r).next)
    → ((r : ℕ) → self_of m' r ≡ self_of m r)
    → m'.queues ≡ m.queues
    → IsPool l m' free
IsPool-frame l m m' free p nexts selves queues = record {
  holds = λ a h.
      Holds-frame a (p.holds a h) (λ i _ _. nexts (slot l a i))
        (ap (λ (qs : ℕ → RecordQueue). qs a) queues);
  named = λ a i h k. selves _ ∙ p.named a i h k;
}

-- After the record `slot l a i` comes back, the others are still not free.
pub Kept-back :
    (l : Layout) (free : ℕ → List ℕ) (a i q : ℕ)
    → Kept l free q
    → (slot l a i == q) ≡ false
    → Kept l (update free a (free a ++ i ∷ [])) q
Kept-back l free a i q k other c x h e = elim (Bool-cases (c == a)) [
  | inr away ↦ k c x h (rw away at e)
  | inl here ↦
      rw (eq-of-== c a here)
        (same_array (rw (eq-of-== c a here) at h) (rw (here, has-append x (free a) (i ∷ [])) at e))
]
  where
    same_array :
        a < array_num l → (has x (free a) || has x (i ∷ [])) ≡ true → (slot l a x == q) ≡ false
    same_array lt g = elim (Bool-cases (x == i)) [
      | inl last ↦ rw (eq-of-== x i last) other
      | inr earlier ↦ k a x lt (ground arith)
    ]
