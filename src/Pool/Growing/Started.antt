-- ===== src/Pool/Growing/Started.antt =====
-- What `INIT_RESOURCE` of cfilesforhazardpointer/hazard_long2.c leaves in the growing pool.
use psly_algorithm.Base.{
  ℕ, zero, suc, ◌+◌, ◌<◌, ◌≤◌, ◌≡◌, refl, ◌∙◌, ap, true, false, ◌⊎◌, inl, inr, arith, ◌==◌,
  Bool-cases, eq-of-==, ==_refl, update,
}
use psly_algorithm.Pool.{Layout, Record, Memory, array_len, array_num, slot}
use psly_algorithm.Pool.Init.{zeroed}
use psly_algorithm.Pool.Init.Fresh.{initial, initial_queue, Holds-first, count_up}
use psly_algorithm.Pool.Holds.{link}
use psly_algorithm.Pool.Growing.{Growing, with_array}
use psly_algorithm.Pool.Growing.Init.{init_arrays, init_queues, init_growing, init_arrays-arrays}
use psly_algorithm.Pool.Growing.Alone.{Keeps, with_array-own, with_array-other}

module _ (l : Layout) where
  abbrev set_up : ℕ → Growing → Growing
  set_up i m = record m { pool = with_array l m.pool i; present = update m.present i true }

  init_arrays-link :
      (n i c k : ℕ) (m : Growing)
      → k < array_len l
      → (link l m.pool c k ≡ (initial l c k).next) ⊎ ((i ≤ c) × (c < i + n))
      → link l (init_arrays l n i m).pool c k ≡ (initial l c k).next
  unfolding init_arrays
  init_arrays-link zero i c k m lt (inl h) = h
  init_arrays-link zero i c k m lt (inr h) = absurd (omega (arith, h.0, h.1))
  init_arrays-link (suc n) i c k m lt h =
      init_arrays-link n (i + 1) c k (set_up i m) lt (elim (Bool-cases (c == i)) [
        | inl here ↦ inl (rw (eq-of-== c i here) (with_array-own l m.pool i k lt))
        | inr other ↦ elim h [
          | inl e ↦ inl (with_array-other l m.pool i c k other lt ∙ e)
          | inr e ↦ inr (ground (arith, other, e.0, ==_refl i), omega (arith, e.1))
        ]
      ])

  init_arrays-missing :
      (n i a : ℕ) (m : Growing)
      → i + n ≤ a
      → m.present a ≡ false
      → (init_arrays l n i m).present a ≡ false
  unfolding init_arrays
  init_arrays-missing zero i a m le h = h
  init_arrays-missing (suc n) i a m le h =
      init_arrays-missing n (i + 1) a (set_up i m) (omega (arith, le)) (ground (arith, le, h))

  init_queues-records : (n i : ℕ) (m : Memory) → (init_queues l n i m).records ≡ m.records
  unfolding init_queues
  init_queues-records zero i m = refl
  init_queues-records (suc n) i m =
      init_queues-records n (i + 1) (record m { queues = update m.queues i (initial_queue l) })

  init_queues-queue :
      (n i c : ℕ) (m : Memory)
      → (m.queues c ≡ initial_queue l) ⊎ ((i ≤ c) × (c < i + n))
      → (init_queues l n i m).queues c ≡ initial_queue l
  unfolding init_queues
  init_queues-queue zero i c m (inl h) = h
  init_queues-queue zero i c m (inr h) = absurd (omega (arith, h.0, h.1))
  init_queues-queue (suc n) i c m h =
      init_queues-queue n (i + 1) c (record m { queues = update m.queues i (initial_queue l) })
        (elim (Bool-cases (c == i)) [
          | inl here ↦ inl (rw here refl)
          | inr other ↦ elim h [
            | inl e ↦ inl (rw other e)
            | inr e ↦ inr (ground (arith, other, e.0, ==_refl i), omega (arith, e.1))
          ]
        ])

  -- After INIT_RESOURCE has set up the first arrays of the growing pool, as many as there is room for
  -- at most, just these are counted, each of them holds all its records in order, the queues of the others are as first set up,
  -- and none of the others is there.
  pub init_growing-Keeps :
      (arrays : ℕ)
      → arrays ≤ array_num l
      → ((init_growing l arrays).arrays ≡ arrays)
        × Keeps l (init_growing l arrays) (λ _. count_up 0 (array_len l))
  unfolding init_growing
  init_growing-Keeps arrays le =
      let bare : Growing = record { pool = zeroed l; arrays = arrays; present = λ _. false } in
      let filled = init_arrays l arrays 0 bare in
      let same : filled.arrays ≡ arrays = init_arrays-arrays l arrays 0 bare in
      (
        same,
        record {
          stock = record {
            holds = λ a lt.
                Holds-first l a (init_queues l (array_num l) 0 filled.pool)
                  (init_queues-queue (array_num l) 0 a filled.pool
                    (inr (omega arith, omega (arith, lt, same, le))))
                  (λ k g.
                    ap (λ (rs : ℕ → Record). (rs (slot l a k)).next)
                      (init_queues-records (array_num l) 0 filled.pool)
                    ∙ init_arrays-link arrays 0 a k bare g
                        (inr (omega arith, omega (arith, lt, same))));
            unused = λ a h lt.
                init_queues-queue (array_num l) 0 a filled.pool
                  (inr (omega arith, omega (arith, lt)));
          };
          missing = λ a h. init_arrays-missing arrays 0 a bare (omega (arith, h, same)) refl;
        },
      )
