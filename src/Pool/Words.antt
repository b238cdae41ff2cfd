-- ===== src/Pool/Words.antt =====
-- The bit fields of `next`, `head`, `tail` and `self`: what each update of a word does to each field.
use native.Mathlib.Nat.{
  mul_assoc, mul-add-mod_self_right, mul-add-div_right, mod-lt, mod-eq_of_lt, div-eq_of_lt,
  div_self, mod-mod, pow-suc, add-mod_right, add-div_right,
}
use psly_algorithm.Base.{
  eq-of-==, ap, ℕ, zero, suc, ◌+◌, ◌*◌, ◌/◌, ◌%◌, ◌^◌, ◌<◌, ◌≡◌, true, false, sym, arith, ◌==◌,
  Bool-cases, inl, inr, ◌∙◌,
}
use psly_algorithm.Pool.{
  Layout, array_len, array_num, index_of, is_last, mark_last, move_end, link_to, slot,
}

pub pow_two_pos : (n : ℕ) → 0 < 2 ^ n
pow_two_pos zero = omega arith
pow_two_pos (suc n) = rw pow-suc (omega (arith, pow_two_pos n))

-- The fields of a high part and a low part put together.
pub low-pack : (b q i : ℕ) → 0 < b → (q * b + i % b) % b ≡ i % b
low-pack b q i h = mul-add-mod_self_right q b (i % b) ∙ mod-mod i b

pub high-pack : (b q i : ℕ) → 0 < b → (q * b + i % b) / b ≡ q
high-pack b q i h = mul-add-div_right h q (i % b) ∙ omega (arith, div-eq_of_lt (mod-lt i h))

two_mul : (q b : ℕ) → q * (2 * b) ≡ q * 2 * b
two_mul q b = sym (mul_assoc q 2 b)

module _ (l : Layout) where
  pub array_len-pos : 0 < array_len l
  array_len-pos = pow_two_pos l.idx_num

  pub index_of-lt : (w : ℕ) → index_of l w < array_len l
  unfolding index_of
  index_of-lt w = mod-lt w (array_len-pos)

  pub index_of-move_end : (w i : ℕ) → index_of l (move_end l w i) ≡ index_of l i
  unfolding index_of move_end
  index_of-move_end w i = low-pack (array_len l) _ i array_len-pos

  pub index_of-link_to : (w i : ℕ) → index_of l (link_to l w i) ≡ index_of l i
  unfolding index_of link_to
  index_of-link_to w i = rw two_mul (low-pack (array_len l) _ i array_len-pos)

  pub is_last-link_to : (w i : ℕ) → is_last l (link_to l w i) ≡ false
  unfolding is_last link_to
  is_last-link_to w i = rw (two_mul, high-pack (array_len l) _ i array_len-pos) (ground arith)

  pub index_of-mark_last : (w : ℕ) → index_of l (mark_last l w) ≡ index_of l w
  unfolding index_of mark_last
  index_of-mark_last w = elim (Bool-cases (w / array_len l % 2 == 1)) [
    | inl odd ↦ rw odd
    | inr even ↦ rw even (add-mod_right w (array_len l))
  ]

  pub is_last-mark_last : (w : ℕ) → is_last l (mark_last l w) ≡ true
  unfolding mark_last is_last
  is_last-mark_last w = elim (Bool-cases (w / array_len l % 2 == 1)) [
    | inl odd ↦ rw odd odd
    | inr even ↦ rw (even, add-div_right w array_len-pos) (ground arith)
  ]

  pub index_of-slot : (a i : ℕ) → i < array_len l → index_of l (slot l a i) ≡ i
  unfolding index_of
  index_of-slot a i h = mul-add-mod_self_right a (array_len l) i ∙ mod-eq_of_lt h

  pub slot-div : (a i : ℕ) → i < array_len l → slot l a i / array_len l ≡ a
  slot-div a i h = mul-add-div_right array_len-pos a i ∙ omega (arith, div-eq_of_lt h)

  pub array_of-slot :
      (a i : ℕ) → i < array_len l → a < array_num l → slot l a i / array_len l % array_num l ≡ a
  array_of-slot a i h k = rw (slot-div a i h) (mod-eq_of_lt k)

  -- Records of two arrays are two records.
  pub slot-ne :
      (c a i j : ℕ)
      → (c == a) ≡ false
      → i < array_len l
      → j < array_len l
      → (slot l c i == slot l a j) ≡ false
  slot-ne c a i j o h k = elim (Bool-cases (slot l c i == slot l a j)) [
    | inr differ ↦ differ
    | inl same ↦
        let e = ap (λ (s : ℕ). s / array_len l) (eq-of-== (slot l c i) (slot l a j) same) in
        ground (arith, slot-div c i h, slot-div a j k)
  ]

  -- The words that `INIT_RESOURCE` writes.
  pub is_last-array_len : is_last l (array_len l) ≡ true
  unfolding is_last
  is_last-array_len = rw (div_self array_len-pos)

  pub is_last-small : (w : ℕ) → w < array_len l → is_last l w ≡ false
  unfolding is_last
  is_last-small w h = rw (div-eq_of_lt h)

  pub index_of-small : (w : ℕ) → w < array_len l → index_of l w ≡ w
  unfolding index_of
  index_of-small w h = mod-eq_of_lt h
