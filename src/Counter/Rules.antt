-- ===== src/Counter/Rules.antt =====
-- One rule for each kind of access to the counter, for a thread with number `i`.
use psly_algorithm.Base.{
  ℕ, suc, ◌+◌, ◌%◌, ◌^◌, ◌<◌, ◌≡◌, refl, sym, inl, inr, List, ◌∷◌, length, arith, ◌==◌, ◌∙◌, ap,
  Bool-cases, eq-of-==, ==_refl,
}
use psly_algorithm.Prog.{Prog, ◌>>=◌}
use psly_algorithm.Prog.Rely.{IsSafe}
use psly_algorithm.Counter.{
  Counter, Handle, index, version_of, next_word, with_value, with_version, read, write_value,
  write_version, cas_word,
}
use psly_algorithm.Counter.Alone.{
  Counts, with_value-Counts, parity, index-next_word, version_of-next_word,
}
use psly_algorithm.Counter.History.{published, fetched, Stood, published-current, Stood-current}
use psly_algorithm.Counter.Shared.{
  Stands, Acts, Sees, counter, Knows, Knows-Sees, Grows, published-Grows, fetched-Grows,
  Stood-Grows, unchanged, swapped,
}

others-kept : (i : ℕ) (m : Counter) (s : List ℕ) → Acts i m s m s
others-kept i m s = record { swaps = unchanged; handles = λ j e. refl }

module _ (i : ℕ) where
  -- The store goes to the half that the counter does not stand on.
  with_value-Stands :
      (m : Counter) (s : List ℕ) (v x : ℕ)
      → (m.handles i).version ≡ published i s
      → v ≡ (m.handles i).version
      → Stands m s
      → Stands (with_value m i ((v + 1) % 2) x) s
  with_value-Stands m s v x e e' h = record {
    history = h.history;
    word = h.word;
    value = elim (Bool-cases (index m.word == i)) [
      | inl own ↦
          let here = eq-of-== (index m.word) i own in
          let version : version_of m.word ≡ published (index m.word) s =
            rw h.word (sym (published-current s)) in
          let counts : Counts m (length s % 2 ^ 64) = record {
            current = h.value;
            owner = rw version (rw here e);
          } in
          rw e' (with_value-Counts m i (length s % 2 ^ 64) x counts).current
      | inr other ↦ rw other h.value
    ];
  }

  with_version-Stands :
      (m : Counter) (s : List ℕ) (v : ℕ) → Stands m s → Stands (with_version m i v) s
  with_version-Stands m s v h = record {
    history = h.history;
    word = h.word;
    value = ground (arith, h.value, eq-of-== (index m.word) i);
  }

  -- What a thread knows between its swap and the store of its version.
  pub record Won (k : ℕ) (answers : List ℕ) (m : Counter) (s : List ℕ) : Type 0 where
    pub version : (m.handles i).version + 1 ≡ published i s
    pub room : published i s + k < 2 ^ 16
    pub answered : answers ≡ fetched i s

  pub Won-Sees :
      (k : ℕ) (answers : List ℕ) (m : Counter) (s : List ℕ) (m' : Counter) (s' : List ℕ)
      → Sees i m s m' s'
      → Won k answers m s
      → Won k answers m' s'
  Won-Sees k answers m s m' s' r h = record {
    version = rw (r.handle, published-Grows i r.grows) h.version;
    room = rw (published-Grows i r.grows) h.room;
    answered = rw (fetched-Grows i r.grows) h.answered;
  }

  module _ (m : Counter) (s : List ℕ) (v : ℕ) where
    swapped-Stands :
        (k : ℕ) (answers : List ℕ)
        → i < 2 ^ 16
        → Knows i (suc k) answers m s
        → v ≡ (m.handles i).version
        → (m.handles i).value ((v + 1) % 2) ≡ (length s + 1) % 2 ^ 64
        → Stands m s
        → Stands (record m { word = next_word i v }) (next_word i v ∷ s)
    swapped-Stands k answers lt h e wrote y = record {
      history = (
        rw (index-next_word i v lt, version_of-next_word i v) (omega (arith, e, h.version, h.room)),
        y.history,
      );
      word = refl;
      value =
          rw (index-next_word i v lt, version_of-next_word i v, parity (v + 1), wrote)
            (omega arith);
    }

    swapped-Won :
        (k d : ℕ) (answers : List ℕ)
        → i < 2 ^ 16
        → Knows i (suc k) answers m s
        → v ≡ (m.handles i).version
        → d ≡ length s
        → Won k (d % 2 ^ 32 ∷ answers) (record m { word = next_word i v }) (next_word i v ∷ s)
    swapped-Won k d answers lt h e at =
        let own = ==_refl i in
        record {
          version =
              rw (index-next_word i v lt, version_of-next_word i v, own)
                (omega (arith, e, h.version, h.room));
          room =
              rw (index-next_word i v lt, version_of-next_word i v, own)
                (omega (arith, e, h.version, h.room));
          answered = rw (index-next_word i v lt, own, at, h.answered) refl;
        }

  module _ {A : Type 0} {post : A → Counter → List ℕ → Type 0} {k : ℕ → Prog Counter A}
      (m : Counter) (s : List ℕ) where
    pub read-IsSafe :
        (f : Counter → ℕ)
        → ((n : Counter) (t : List ℕ)
            → Sees i m s n t
            → Stands n t
            → IsSafe counter i post (k (f n)) n t)
        → IsSafe counter i post (read f >>= k) m s
    read-IsSafe f next = record { safe = λ n t r v. (t, v, others-kept i n t, (next n t r v).safe) }

    pub write_value-IsSafe :
        (c : ℕ) (answers : List ℕ) (v x : ℕ)
        → Knows i c answers m s
        → v ≡ (m.handles i).version
        → ((n : Counter) (t : List ℕ)
            → Grows i s t
            → Knows i c answers n t
            → (n.handles i).version ≡ v
            → (n.handles i).value ((v + 1) % 2) ≡ x
            → IsSafe counter i post (k x) n t)
        → IsSafe counter i post (write_value i ((v + 1) % 2) x >>= k) m s
    write_value-IsSafe c answers v x h e next = record {
      safe = λ n t r y.
          let h' = Knows-Sees i c answers m s n t r h in
          let e' = e ∙ sym (ap (λ (h : Handle). h.version) r.handle) in
          let own = ==_refl i in
          (
            t,
            with_value-Stands n t v x h'.version e' y,
            record { swaps = unchanged; handles = λ j o. rw o refl },
            (next (with_value n i ((v + 1) % 2) x) t r.grows
                (record { version = rw own h'.version; room = h'.room; answered = h'.answered })
                (rw own (sym e')) (rw (own, ==_refl ((v + 1) % 2)) refl)).safe,
          );
    }

    pub write_version-IsSafe :
        (c : ℕ) (answers : List ℕ) (v : ℕ)
        → Won c answers m s
        → v ≡ (m.handles i).version
        → ((n : Counter) (t : List ℕ)
            → Knows i c answers n t
            → IsSafe counter i post (k ((v + 1) % 2 ^ 16)) n t)
        → IsSafe counter i post (write_version i ((v + 1) % 2 ^ 16) >>= k) m s
    write_version-IsSafe c answers v h e next = record {
      safe = λ n t r y.
          let e' = e ∙ sym (ap (λ (h : Handle). h.version) r.handle) in
          let h' = Won-Sees c answers m s n t r h in
          let own = ==_refl i in
          (
            t,
            with_version-Stands n t ((v + 1) % 2 ^ 16) y,
            record { swaps = unchanged; handles = λ j o. rw o refl },
            (next (with_version n i ((v + 1) % 2 ^ 16)) t (record {
              version = rw own (omega (arith, e', h'.version, h'.room));
              room = h'.room;
              answered = h'.answered;
            })).safe,
          );
    }

    pub cas_word-IsSafe :
        (c : ℕ) (answers : List ℕ) (w d v : ℕ)
        → i < 2 ^ 16
        → Knows i (suc c) answers m s
        → v ≡ (m.handles i).version
        → (m.handles i).value ((v + 1) % 2) ≡ (d + 1) % 2 ^ 64
        → Stood w d s
        → ((n : Counter) (t : List ℕ)
            → Won c (d % 2 ^ 32 ∷ answers) n t
            → IsSafe counter i post (k 1) n t)
        → ((n : Counter) (t : List ℕ) → Sees i m s n t → IsSafe counter i post (k 0) n t)
        → IsSafe counter i post (cas_word w (next_word i v) >>= k) m s
    cas_word-IsSafe c answers w d v lt h e wrote stood won lost = record {
      safe = λ n t r y. elim (Bool-cases (n.word == w)) [
        | inl same ↦
            let h' = Knows-Sees i (suc c) answers m s n t r h in
            let e' = e ∙ sym (ap (λ (h : Handle). h.version) r.handle) in
            let at : d ≡ length t =
              Stood-current d t y.history
                (rw (← y.word, eq-of-== n.word w same) (Stood-Grows i w d r.grows stood)) in
            rw same (
              next_word i v ∷ t,
              swapped-Stands n t v c answers lt h' e' (rw (r.handle, ← at) wrote) y,
              record {
                swaps = swapped (next_word i v) (index-next_word i v lt);
                handles = λ j o. refl;
              },
              (won (record n { word = next_word i v }) (next_word i v ∷ t)
                  (swapped-Won n t v c d answers lt h' e' at)).safe,
            )
        | inr other ↦ rw other (t, y, others-kept i n t, (lost n t r).safe)
      ];
    }
