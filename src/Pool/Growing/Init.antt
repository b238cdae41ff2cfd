-- ===== src/Pool/Growing/Init.antt =====
-- `INIT_RESOURCE` of cfilesforhazardpointer/hazard_long2.c, up to the lists: the first arrays, and
-- the queues of all arrays there is room for.
use psly_algorithm.Base.{
  ℕ, zero, suc, ◌+◌, ◌-◌, ◌≤◌, ◌<◌, ◌≡◌, refl, true, false, ◌⊎◌, inl, inr, arith, ◌==◌, Bool-cases,
  ==_refl, update,
}
use psly_algorithm.Pool.{Layout, Memory, array_len, array_num}
use psly_algorithm.Pool.Init.{zeroed}
use psly_algorithm.Pool.Growing.{Growing, with_array}
use psly_algorithm.Pool.Growing.Shared.{IsCounted}

module _ (l : Layout) where
  -- `for(int i = 0; i < PSLY_Record_ARRAYNUM; ++i)`, with `n` rounds left
  unfoldable pub init_arrays : ℕ → ℕ → Growing → Growing
  init_arrays zero i m = m
  init_arrays (suc n) i m =
      init_arrays n (i + 1)
        (record m { pool = with_array l m.pool i; present = update m.present i true })

  -- `for(int i = 0; i < PSLY_Record_ARRAYNUM_MAX; ++i)`, with `n` rounds left
  unfoldable pub init_queues : ℕ → ℕ → Memory → Memory
  init_queues zero i m = m
  init_queues (suc n) i m =
      init_queues n (i + 1)
        (record m { queues = update m.queues i (record { head = 0; tail = array_len l - 1 }) })

  -- Static data is zero at first, but for `PSLY_Record_ARRAYNUM`.
  unfoldable pub init_growing : ℕ → Growing
  init_growing arrays =
      let filled =
        init_arrays arrays 0 (record { pool = zeroed l; arrays = arrays; present = λ _. false }) in
      record filled { pool = init_queues (array_num l) 0 filled.pool }

  pub init_arrays-arrays : (n i : ℕ) (m : Growing) → (init_arrays n i m).arrays ≡ m.arrays
  unfolding init_arrays
  init_arrays-arrays zero i m = refl
  init_arrays-arrays (suc n) i m =
      init_arrays-arrays n (i + 1)
        (record m { pool = with_array l m.pool i; present = update m.present i true })

  init_arrays-present :
      (n i a : ℕ) (m : Growing)
      → (m.present a ≡ true) ⊎ ((i ≤ a) × (a < i + n))
      → (init_arrays n i m).present a ≡ true
  unfolding init_arrays
  init_arrays-present zero i a m (inl h) = h
  init_arrays-present zero i a m (inr h) = absurd (omega (arith, h.0, h.1))
  init_arrays-present (suc n) i a m h =
      let next : Growing = record m {
        pool = with_array l m.pool i;
        present = update m.present i true;
      } in
      init_arrays-present n (i + 1) a next (elim (Bool-cases (a == i)) [
        | inl same ↦ inl (rw same refl)
        | inr other ↦ elim h [
          | inl x ↦ inl (rw other x)
          | inr x ↦ inr (ground (arith, other, x.0, ==_refl i), omega (arith, x.1))
        ]
      ])

  pub init_growing-IsCounted :
      (arrays : ℕ) → 0 < arrays → arrays ≤ array_num l → IsCounted l (init_growing arrays)
  unfolding init_growing
  init_growing-IsCounted arrays pos le =
      let bare : Growing = record { pool = zeroed l; arrays = arrays; present = λ _. false } in
      let same : (init_arrays arrays 0 bare).arrays ≡ arrays = init_arrays-arrays arrays 0 bare in
      record {
        some_array = rw same pos;
        room = rw same le;
        here = λ a lt.
            init_arrays-present arrays 0 a bare (inr (omega arith, omega (arith, lt, same)));
      }
