-- ===== src/Hazard/Quiet.antt =====
-- What retires and frees nodes leaves the queue alone.
use psly_algorithm.Base.{
  ℕ, zero, suc, ◌+◌, ◌%◌, ◌^◌, ◌≡◌, refl, inl, inr, Bool-cases, Option, none, some, Bool, true,
  false, ◌==◌, ltb,
}
use psly_algorithm.Prog.{Prog, ◌>>=◌, Obeys, finish, access, give_up, Obeys->>=, Obeys-if}
use psly_algorithm.Hazard.{
  Heap, Settings, int_ltb, load, store, swap, find_rec, take_slots, clear_list, push_rec,
  with_active, new_rec, found_or_new, allocate_hp_rec, in_slots, is_in, free_entry, scan_entry,
  scan_from, scan, retire_at, retire_node,
}

-- The access leaves the nodes and the two ends.
pub record Quiet {X : Type 0} (m m' : Heap X) : Type 0 where
  pub nodes : m'.nodes ≡ m.nodes
  pub head : m'.head ≡ m.head
  pub tail : m'.tail ≡ m.tail

module _ {X : Type 0} where
  pub Quiet-refl : (m : Heap X) → Quiet m m
  Quiet-refl m = record { nodes = refl; head = refl; tail = refl }

  still : (m m' : Heap X) → m'.nodes ≡ m.nodes → m'.head ≡ m.head → m'.tail ≡ m.tail → Quiet m m'
  still m m' a b c = record { nodes = a; head = b; tail = c }

  abbrev O : {A : Type 0} → Prog (Heap X) A → Type 0
  O q = Obeys Quiet q

  load-Quiet :
      {A : Type 0} {k : ℕ → Prog (Heap X) A} (f : Heap X → ℕ)
      → ((w : ℕ) → O (k w))
      → O (load f >>= k)
  load-Quiet f h = access Quiet-refl (λ m. h (f m))

  store-Quiet :
      {A : Type 0} {k : ℕ → Prog (Heap X) A} {f : Heap X → Heap X}
      → ((m : Heap X) → Quiet m (f m))
      → O (k 0)
      → O (store f >>= k)
  store-Quiet q h = access q (λ m. h)

  swap-Quiet :
      {A : Type 0} {k : ℕ → Prog (Heap X) A} (get : Heap X → ℕ) (put : Heap X → ℕ → Heap X)
      (old new : ℕ)
      → ((m : Heap X) (v : ℕ) → Quiet m (put m v))
      → ((w : ℕ) → O (k w))
      → O (swap get put old new >>= k)
  swap-Quiet get put old new q h =
      access
        (λ m. elim (Bool-cases (get m == old)) [
          | inl e ↦ rw e (q m new)
          | inr e ↦ rw e (Quiet-refl m)
        ])
        (λ m. h _)

  in_slots-Quiet : (node n i : ℕ) → O (in_slots node n i)
  unfolding in_slots
  in_slots-Quiet node zero i = finish false
  in_slots-Quiet node (suc n) i =
      load-Quiet (λ m. m.slots i)
        (λ held. Obeys-if (held == 0) (in_slots-Quiet node n (i + 1)) (
          load-Quiet (λ m. m.slots i)
            (λ again. Obeys-if (node == again) (finish true) (in_slots-Quiet node n (i + 1)))))

  pub is_in-Quiet : (node : ℕ) → O (is_in node)
  unfolding is_in
  is_in-Quiet node = load-Quiet (λ m. m.slot_count) (λ n. in_slots-Quiet node n 0)

  free_entry-Quiet : (me n i : ℕ) → O (free_entry me n i)
  unfolding free_entry
  free_entry-Quiet me zero i = finish i
  free_entry-Quiet me (suc n) i =
      load-Quiet (λ m. (m.recs me).list i)
        (λ node. Obeys-if (node == 0) (finish i) (free_entry-Quiet me n (i + 1)))

  find_rec-Quiet : (fuel local : ℕ) → O (find_rec fuel local)
  unfolding find_rec
  find_rec-Quiet zero local = give_up
  find_rec-Quiet (suc fuel) local =
      let next = load-Quiet {k = find_rec fuel} (λ m. (m.recs local).next) (find_rec-Quiet fuel) in
      Obeys-if (local == 0) (finish none) (
        load-Quiet (λ m. (m.recs local).active)
          (λ active. Obeys-if (active == 1) next (
            swap-Quiet (λ m. (m.recs local).active) (λ m. with_active m local) 0 1
              (λ m v. still m _ refl refl refl)
              (λ won. Obeys-if (won == 1) (finish (some local)) next))))

  take_slots-Quiet : (fuel : ℕ) → O (take_slots fuel)
  unfolding take_slots
  take_slots-Quiet zero = give_up
  take_slots-Quiet (suc fuel) =
      load-Quiet (λ m. m.slot_count)
        (λ old.
          swap-Quiet (λ m. m.slot_count) (λ m v. record m { slot_count = v }) old
            ((old + 2) % 2 ^ 32) (λ m v. still m _ refl refl refl)
            (λ won. Obeys-if (won == 1) (finish old) (take_slots-Quiet fuel)))

  clear_list-Quiet : (me n i : ℕ) → O (clear_list me n i)
  unfolding clear_list
  clear_list-Quiet me zero i = finish 0
  clear_list-Quiet me (suc n) i =
      store-Quiet (λ m. still m _ refl refl refl) (clear_list-Quiet me n (i + 1))

  push_rec-Quiet : (fuel local : ℕ) → O (push_rec fuel local)
  unfolding push_rec
  push_rec-Quiet zero local = give_up
  push_rec-Quiet (suc fuel) local =
      load-Quiet (λ m. m.first_rec)
        (λ old.
          store-Quiet (λ m. still m _ refl refl refl)
            (swap-Quiet (λ m. m.first_rec) (λ m v. record m { first_rec = v }) old local
              (λ m v. still m _ refl refl refl)
              (λ won. Obeys-if (won == 1) (finish local) (push_rec-Quiet fuel local))))

  new_rec-Quiet : (set : Settings) (fuel fresh old : ℕ) → O (new_rec set fuel fresh old)
  unfolding new_rec
  new_rec-Quiet set fuel fresh old =
      store-Quiet (λ m. still m _ refl refl refl)
        (store-Quiet (λ m. still m _ refl refl refl)
          (store-Quiet (λ m. still m _ refl refl refl)
            (store-Quiet (λ m. still m _ refl refl refl)
              (store-Quiet (λ m. still m _ refl refl refl)
                (store-Quiet (λ m. still m _ refl refl refl)
                  (store-Quiet (λ m. still m _ refl refl refl)
                    (Obeys->>= _ (clear_list-Quiet fresh set.max_thres 0)
                      (λ _. push_rec-Quiet fuel fresh))))))))

  found_or_new-Quiet :
      (set : Settings) (fuel fresh : ℕ) (found : Option ℕ) → O (found_or_new set fuel fresh found)
  unfolding found_or_new
  found_or_new-Quiet set fuel fresh (some local) = finish local
  found_or_new-Quiet set fuel fresh none =
      Obeys->>= _ (take_slots-Quiet fuel) (new_rec-Quiet set fuel fresh)

  pub allocate_hp_rec-Quiet : (set : Settings) (fuel fresh : ℕ) → O (allocate_hp_rec set fuel fresh)
  unfolding allocate_hp_rec
  allocate_hp_rec-Quiet set fuel fresh =
      load-Quiet (λ m. m.first_rec)
        (λ start. Obeys->>= _ (find_rec-Quiet fuel start) (found_or_new-Quiet set fuel fresh))

  module _ (held : ℕ → Prog (Heap X) Bool) (quiet : (node : ℕ) → O (held node)) (me : ℕ) where
    scan_entry-Quiet : (i node : ℕ) → O (scan_entry held me i node)
    unfolding scan_entry
    scan_entry-Quiet i node = Obeys->>= _ (quiet node) (λ kept. Obeys-if kept (finish 0) (
        store-Quiet (λ m. still m _ refl refl refl)
          (store-Quiet (λ m. still m _ refl refl refl)
            (access (λ m. still m _ refl refl refl) (λ m. finish 0)))))

    scan_from-Quiet : (fuel i : ℕ) → O (scan_from held me fuel i)
    unfolding scan_from
    scan_from-Quiet zero i = give_up
    scan_from-Quiet (suc fuel) i =
        load-Quiet (λ m. (m.recs me).rcount)
          (λ last. Obeys-if (ltb last i) (finish 0) (
            load-Quiet (λ m. (m.recs me).list i)
              (λ node.
                Obeys-if (node == 0) (scan_from-Quiet fuel (i + 1))
                  (Obeys->>= _ (scan_entry-Quiet i node) (λ _. scan_from-Quiet fuel (i + 1))))))

    pub scan-Quiet : (fuel : ℕ) → O (scan held me fuel)
    unfolding scan
    scan-Quiet fuel = store-Quiet (λ m. still m _ refl refl refl) (scan_from-Quiet fuel 0)

    retire_at-Quiet : (set : Settings) (fuel node i : ℕ) → O (retire_at held me set fuel node i)
    unfolding retire_at
    retire_at-Quiet set fuel node i =
        store-Quiet (λ m. still m _ refl refl refl)
          (load-Quiet (λ m. (m.recs me).rcount)
            (λ last.
              Obeys->>= _
                (Obeys-if (ltb last i) (access (λ m. still m _ refl refl refl) (λ m. finish 0))
                  (finish 0))
                (λ _.
                  store-Quiet (λ m. still m _ refl refl refl)
                    (load-Quiet (λ m. (m.recs me).count)
                      (λ n. Obeys-if (int_ltb n set.threshold) (finish 0) (scan-Quiet fuel))))))

    pub retire_node-Quiet :
        (set : Settings) (fuel n node : ℕ) → O (retire_node held me set fuel n node)
    unfolding retire_node
    retire_node-Quiet set fuel zero node = give_up
    retire_node-Quiet set fuel (suc n) node =
        Obeys->>= _ (free_entry-Quiet me set.max_thres 0) (λ i.
          Obeys-if (i == set.max_thres)
            (Obeys->>= _ (scan-Quiet fuel) (λ _. retire_node-Quiet set fuel n node))
            (retire_at-Quiet set fuel node i))
