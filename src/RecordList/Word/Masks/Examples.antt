-- ===== src/RecordList/Word/Masks/Examples.antt =====
-- The masks at the two layouts of the programs, 16 bits of references and of indices with 4 or 6 bits
-- of arrays: they cover the fields of the words.
use psly_algorithm.Base.{ℕ, ◌-◌, ◌*◌, ◌≡◌, refl}
use psly_algorithm.Pool.{Layout}
use psly_algorithm.RecordList.Word.{versions, counts, ref_one, node_one, next_one}
use psly_algorithm.RecordList.Word.Masks.{
  lowest_bit, highest_bits, ref_mask, node_mask, node_mask_one, next_mask, next_mask_one,
}

abbrev layout : ℕ → Layout
layout arr = record { ref_num = 16; idx_num = 16; arr_num = arr; list_num = 65536 }

-- Each mask is all ones of its field, where it stands, and each `ONE` is the one of it.
abbrev Covered : Layout → Type 0
Covered l =
    (ref_mask l ≡ (counts l - 1) * ref_one l)
    × (node_mask l ≡ (versions l - 1) * node_one l)
    × (node_mask_one l ≡ node_one l)
    × (next_mask l ≡ (versions l - 1) * next_one l)
    × (next_mask_one l ≡ next_one l)

four-Covered : Covered (layout 4)
unfolding ref_mask node_mask node_mask_one next_mask next_mask_one lowest_bit highest_bits
four-Covered = (refl, refl, refl, refl, refl)

six-Covered : Covered (layout 6)
unfolding ref_mask node_mask node_mask_one next_mask next_mask_one lowest_bit highest_bits
six-Covered = (refl, refl, refl, refl, refl)
