-- ===== src/RecordList/Word/Fields.antt =====
-- What each update of `nextRecord` does to each of its fields.
use native.Mathlib.Nat.{
  mod-mod, mod-lt, mod-eq_of_lt, add-mul, suc-mul, mul_assoc, div-lt_iff_lt-mul, add-mod_right,
  div-add-mod', add_comm, one-mul, mod-add-mod, mul-add-div_right, add-div_right,
}
use mathlib.Core.Path.{subst}
use psly_algorithm.Base.{ℕ, suc, ◌+◌, ◌-◌, ◌*◌, ◌/◌, ◌%◌, ◌^◌, ◌<◌, ◌≡◌, refl, sym, ap, arith, ◌∙◌}
use psly_algorithm.Pool.{Layout}
use psly_algorithm.Pool.Words.{pow_two_pos, low-pack, high-pack}
use psly_algorithm.RecordList.Word.{
  version_num, addresses, versions, counts, ref_one, address, link_version, node_version, ref_count,
  word, next_one, node_one, ref_bits, node_bits, next_bits, next_address_version, plus_record,
  new_next, minus_record,
}

-- The four fields of a word.
pub record Fields (l : Layout) (w c n k a : ℕ) : Type 0 where
  pub refs : ref_count l w ≡ c
  pub node : node_version l w ≡ n
  pub link : link_version l w ≡ k
  pub at : address l w ≡ a

module _ (l : Layout) where
  addresses-pos : 0 < addresses l
  addresses-pos = pow_two_pos (l.idx_num + l.arr_num)

  versions-pos : 0 < versions l
  versions-pos = pow_two_pos (version_num l)

  -- The fields of a word put together from fields.
  word-Fields-any :
      (c n k a : ℕ)
      → Fields l
          (word l c (n % versions l) (k % versions l) (a % addresses l))
          (c % counts l)
          (n % versions l)
          (k % versions l)
          (a % addresses l)
  unfolding address link_version node_version ref_count
  word-Fields-any c n k a = record {
    at = low-pack (addresses l) _ a addresses-pos;
    link = rw (high-pack (addresses l) _ a addresses-pos) (low-pack (versions l) _ k versions-pos);
    node =
        rw (high-pack (addresses l) _ a addresses-pos, high-pack (versions l) _ k versions-pos)
          (low-pack (versions l) _ n versions-pos);
    refs =
        rw
          (
            high-pack (addresses l) _ a addresses-pos,
            high-pack (versions l) _ k versions-pos,
            high-pack (versions l) _ n versions-pos,
          )
          refl;
  }

  pub word-Fields :
      (c n k a : ℕ)
      → Fields l
          (word l (c % counts l) (n % versions l) (k % versions l) (a % addresses l))
          (c % counts l)
          (n % versions l)
          (k % versions l)
          (a % addresses l)
  word-Fields c n k a =
      subst
        (λ r.
          Fields l (word l (c % counts l) (n % versions l) (k % versions l) (a % addresses l)) r
            (n % versions l) (k % versions l) (a % addresses l))
        (mod-mod c (counts l)) (word-Fields-any (c % counts l) n k a)

  -- The fields where they stand, added up, are the word.
  put_together :
      (c n k a : ℕ) → c * ref_one l + n * node_one l + k * next_one l + a ≡ word l c n k a
  put_together c n k a =
      rw
        (
          add-mul (c * versions l) n (versions l),
          add-mul (c * versions l * versions l + n * versions l) k (addresses l),
          add-mul (c * versions l * versions l) (n * versions l) (addresses l),
          mul_assoc n (versions l) (addresses l),
          mul_assoc (c * versions l) (versions l) (addresses l),
          mul_assoc c (versions l) (versions l * addresses l),
        )
        refl

  -- A field after the addition of its lowest bit.
  link_version-plus :
      (w : ℕ) → link_version l (w + next_one l) ≡ (link_version l w + 1) % versions l
  unfolding link_version
  link_version-plus w =
      rw (add-div_right w addresses-pos) (sym (mod-add-mod (w / addresses l) (versions l) 1))

  node_version-plus :
      (w : ℕ) → node_version l (w + node_one l) ≡ (node_version l w + 1) % versions l
  unfolding node_version
  node_version-plus w =
      rw
        (
          add_comm w (versions l * addresses l),
          mul-add-div_right addresses-pos (versions l) w,
          add_comm (versions l) (w / addresses l),
          add-div_right (w / addresses l) versions-pos,
        )
        (sym (mod-add-mod (w / addresses l / versions l) (versions l) 1))

  ref_count-plus : (w : ℕ) → ref_count l (w + ref_one l) ≡ (ref_count l w + 1) % counts l
  unfolding ref_count
  ref_count-plus w =
      rw
        (
          ← mul_assoc (versions l) (versions l) (addresses l),
          add_comm w (versions l * versions l * addresses l),
          mul-add-div_right addresses-pos (versions l * versions l) w,
          mul-add-div_right versions-pos (versions l) (w / addresses l),
          add_comm (versions l) (w / addresses l / versions l),
          add-div_right (w / addresses l / versions l) versions-pos,
        )
        (sym (mod-add-mod (w / addresses l / versions l / versions l) (counts l) 1))

  -- `nxtAddrV` changes the address and moves the version of the link on.
  pub next_address_version-Fields :
      (w s : ℕ)
      → Fields l
          (next_address_version l w s)
          (ref_count l w)
          (node_version l w)
          ((link_version l w + 1) % versions l)
          (address l s)
  unfolding next_address_version ref_bits node_bits next_bits address link_version node_version
      ref_count
  next_address_version-Fields w s =
      let e : next_address_version l w s
          ≡ word l (ref_count l w) (node_version l w) ((link_version l w + 1) % versions l)
              (address l s) =
        ap
          (λ k.
            ref_count l w * ref_one l
            + node_version l w * node_one l
            + k * next_one l
            + address l s)
          (link_version-plus w)
        ∙ put_together _ _ _ _ in
      subst
        (λ v.
          Fields l v (ref_count l w) (node_version l w) ((link_version l w + 1) % versions l)
            (address l s))
        (sym e)
        (word-Fields (w / addresses l / versions l / versions l) (w / addresses l / versions l)
          (link_version l w + 1) s)

  -- `plusRecord` counts the references up.
  pub plus_record-Fields :
      (w : ℕ)
      → Fields l
          (plus_record l w)
          ((ref_count l w + 1) % counts l)
          (node_version l w)
          (link_version l w)
          (address l w)
  unfolding plus_record ref_bits node_bits next_bits address link_version node_version ref_count
  plus_record-Fields w =
      let e : plus_record l w
          ≡ word l ((ref_count l w + 1) % counts l) (node_version l w) (link_version l w)
              (address l w) =
        ap
          (λ c.
            c * ref_one l
            + node_version l w * node_one l
            + link_version l w * next_one l
            + address l w)
          (ref_count-plus w)
        ∙ put_together _ _ _ _ in
      subst
        (λ v.
          Fields l v ((ref_count l w + 1) % counts l) (node_version l w) (link_version l w)
            (address l w))
        (sym e) (word-Fields (ref_count l w + 1) (w / addresses l / versions l) (w / addresses l) w)

  -- `newNext` starts a new life of the node, with one reference.
  pub new_next-Fields :
      (w s : ℕ)
      → Fields l
          (new_next l w s)
          (1 % counts l)
          ((node_version l w + 1) % versions l)
          (link_version l w)
          (address l s)
  unfolding new_next node_bits next_bits address link_version node_version
  new_next-Fields w s =
      let e : new_next l w s
          ≡ word l 1 ((node_version l w + 1) % versions l) (link_version l w) (address l s) =
        ap (λ n. ref_one l + n * node_one l + link_version l w * next_one l + address l s)
          (node_version-plus w)
        ∙ ap
            (λ r.
              r
              + (node_version l w + 1) % versions l * node_one l
              + link_version l w * next_one l
              + address l s)
            (sym (one-mul (ref_one l)))
        ∙ put_together 1 _ _ _ in
      subst
        (λ v.
          Fields l v (1 % counts l) ((node_version l w + 1) % versions l) (link_version l w)
            (address l s))
        (sym e) (word-Fields-any 1 (node_version l w + 1) (w / addresses l) s)

  -- A word is put together from its fields.
  word_split : (b w : ℕ) → w / b * b + w % b ≡ w
  word_split b w = div-add-mod' w b

  one_more : (c n v : ℕ) → suc c * v + n ≡ v + (c * v + n)
  one_more c n v = rw (suc-mul c v) (omega arith)

  more : (u x k v : ℕ) → (u + x) * v + k ≡ u * v + (x * v + k)
  more u x k v = rw (add-mul u x v) (omega arith)

  ref-word : (c n k a : ℕ) → word l (suc c) n k a ≡ ref_one l + word l c n k a
  ref-word c n k a =
      rw
        (
          one_more c n (versions l),
          more (versions l) _ k (versions l),
          more _ _ a (addresses l),
          mul_assoc (versions l),
        )
        refl

  pub word-eta :
      (w : ℕ)
      → w < counts l * ref_one l
      → word l (ref_count l w) (node_version l w) (link_version l w) (address l w) ≡ w
  unfolding address link_version node_version ref_count
  word-eta w h = rw (mod-eq_of_lt high, word_split, word_split, word_split) refl
    where
      high : w / addresses l / versions l / versions l < counts l
      high = (div-lt_iff_lt-mul versions-pos).1 (
          (div-lt_iff_lt-mul versions-pos).1 (
            (div-lt_iff_lt-mul addresses-pos).1
              (rw (mul_assoc (counts l * versions l), mul_assoc (counts l)) h)))

  counts-pos : 0 < counts l
  counts-pos = pow_two_pos l.ref_num

  pub ref_count-lt : (w : ℕ) → ref_count l w < counts l
  unfolding ref_count
  ref_count-lt w = mod-lt _ counts-pos

  minus_record-word : (w low : ℕ) → w ≡ ref_one l + low → w < 2 ^ 64 → minus_record l w ≡ low
  unfolding minus_record
  minus_record-word w low e h =
      let step : w + 2 ^ 64 - ref_one l ≡ low + 2 ^ 64 = omega arith in
      rw (step, add-mod_right low (2 ^ 64)) (mod-eq_of_lt (omega arith))

  -- `__sync_sub_and_fetch` counts a live word down, where the fields fill 64 bits.
  pub minus_record-Fields :
      (w c : ℕ)
      → counts l * ref_one l ≡ 2 ^ 64
      → w < 2 ^ 64
      → ref_count l w ≡ suc c
      → Fields l (minus_record l w) c (node_version l w) (link_version l w) (address l w)
  unfolding address link_version node_version
  minus_record-Fields w c full h e =
      let bound : c < counts l = omega (arith, ref_count-lt w) in
      let split : w ≡ ref_one l + word l c (node_version l w) (link_version l w) (address l w) =
        sym (word-eta w (rw full h))
        ∙ ap (λ r. word l r (node_version l w) (link_version l w) (address l w)) e
        ∙ ref-word c _ _ _ in
      rw (minus_record-word w _ split h) (
        subst
          (λ r.
            Fields l (word l r (node_version l w) (link_version l w) (address l w)) r
              (node_version l w) (link_version l w) (address l w))
          (mod-eq_of_lt bound) (word-Fields c (w / addresses l / versions l) (w / addresses l) w))

  -- For a 64-bit word with a reference, where the fields fill 64 bits, each update changes its own
  -- fields only: `nxtAddrV` the address, and the version of the link by one; `plusRecord` the count by
  -- one; `newNext` sets the count to one and the address, and moves the version of the node by one; the
  -- subtraction of `REFONE` takes one from the count.
  pub updates-Fields :
      (w s c : ℕ)
      → counts l * ref_one l ≡ 2 ^ 64
      → w < 2 ^ 64
      → ref_count l w ≡ suc c
      → Fields l
          (next_address_version l w s)
          (ref_count l w)
          (node_version l w)
          ((link_version l w + 1) % versions l)
          (address l s)
        × Fields l
            (plus_record l w)
            ((ref_count l w + 1) % counts l)
            (node_version l w)
            (link_version l w)
            (address l w)
        × Fields l
            (new_next l w s)
            (1 % counts l)
            ((node_version l w + 1) % versions l)
            (link_version l w)
            (address l s)
        × Fields l (minus_record l w) c (node_version l w) (link_version l w) (address l w)
  updates-Fields w s c full h e = (
    next_address_version-Fields w s,
    plus_record-Fields w,
    new_next-Fields w s,
    minus_record-Fields w c full h e,
  )
