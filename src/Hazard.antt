-- ===== src/Hazard.antt =====
-- The hazard pointers of hazardpointer.c and its relatives: the records of the threads, the nodes
-- that wait to be freed, and the scan that frees them, an access at a time.
pub mod Quiet
pub mod Scan
pub mod Freed
mod Examples
use psly_algorithm.Base.{
  ℕ, zero, suc, ◌+◌, ◌-◌, ◌%◌, ◌^◌, Bool, true, false, Option, none, some, ◌==◌, ltb, if◌then◌else◌,
  update,
}
use psly_algorithm.Prog.{Prog, ret, act, out_of_fuel, ◌>>=◌, ◌>>◌}

-- `NodeType`; a pointer to a node is its number, and `NULL` is 0.
pub record Node : Type 0 where
  pub value : ℕ
  pub next : ℕ

-- `HPrecType`. `base` is where its `K` pointers stand in `GlobalHP`; `list i` is `list[i].node`.
-- `count` is the 32 bits of an `int`.
pub record HpRec : Type 0 where
  pub base : ℕ
  pub next : ℕ
  pub active : ℕ
  pub rcount : ℕ
  pub count : ℕ
  pub list : ℕ → ℕ

-- The globals: `Head` and `Tail`, `GlobalHP` (`slots`), `H` (`slot_count`), `head` (`first_rec`) and
-- `numOfRetire` (`scans`), what `malloc` has given, which of it is freed, and whatever else guards nodes.
pub record Heap (X : Type 0) : Type 0 where
  pub nodes : ℕ → Node
  pub head : ℕ
  pub tail : ℕ
  pub slots : ℕ → ℕ
  pub slot_count : ℕ
  pub recs : ℕ → HpRec
  pub first_rec : ℕ
  pub scans : ℕ
  pub freed : ℕ → Bool
  pub guards : X

-- `a < b` for two `int`s, given by their 32 bits.
abbrev pub int_ltb : ℕ → ℕ → Bool
int_ltb a b = ltb ((a + 2 ^ 31) % 2 ^ 32) ((b + 2 ^ 31) % 2 ^ 32)

-- The variables of a run: `MAXTHRES`, `THRESHOLD` and `flagRet`.
pub record Settings : Type 0 where
  pub max_thres : ℕ
  pub threshold : ℕ
  pub flag_ret : Bool

module _ {X : Type 0} where
  -- A load, a store, and `__sync_bool_compare_and_swap`, which is 1 if the word was `old`.
  abbrev pub load : (Heap X → ℕ) → Prog (Heap X) ℕ
  load f = act (λ m. (f m, m)) ret

  abbrev pub store : (Heap X → Heap X) → Prog (Heap X) ℕ
  store f = act (λ m. (0, f m)) ret

  abbrev pub swap : (Heap X → ℕ) → (Heap X → ℕ → Heap X) → ℕ → ℕ → Prog (Heap X) ℕ
  swap get put old new = act (λ m. if get m == old then (1, put m new) else (0, m)) ret

  abbrev pub with_rec : Heap X → ℕ → HpRec → Heap X
  with_rec m r x = record m { recs = update m.recs r x }

  abbrev pub with_slot : Heap X → ℕ → ℕ → Heap X
  with_slot m i v = record m { slots = update m.slots i v }

  abbrev pub with_active : Heap X → ℕ → ℕ → Heap X
  with_active m r v = with_rec m r (record (m.recs r) { active = v })

  abbrev pub with_rcount : Heap X → ℕ → ℕ → Heap X
  with_rcount m r v = with_rec m r (record (m.recs r) { rcount = v })

  abbrev pub with_count : Heap X → ℕ → ℕ → Heap X
  with_count m r v = with_rec m r (record (m.recs r) { count = v })

  abbrev pub with_entry : Heap X → ℕ → ℕ → ℕ → Heap X
  with_entry m r i v = with_rec m r (record (m.recs r) { list = update (m.recs r).list i v })

  -- `myhprec->HP[i] = v`
  abbrev pub set_hp : ℕ → ℕ → ℕ → Prog (Heap X) ℕ
  set_hp me i v = store (λ m. with_slot m ((m.recs me).base + i) v)

  -- `free`
  abbrev pub free : ℕ → Prog (Heap X) ℕ
  free node = store (λ m. record m { freed = update m.freed node true })

  -- The loop of `allocateHPRec` over the records that there are.
  unfoldable pub find_rec : ℕ → ℕ → Prog (Heap X) (Option ℕ)
  find_rec zero local = out_of_fuel
  find_rec (suc fuel) local =
      let next = (do following ← load (λ m. (m.recs local).next); find_rec fuel following) in
      if local == 0 then ret none else (do
        active ← load (λ m. (m.recs local).active)
        if active == 1 then next else (do
          won ← swap (λ m. (m.recs local).active) (λ m. with_active m local) 0 1
          if won == 1 then ret (some local) else next))

  -- The loop on `H`: two more hazard pointers.
  unfoldable pub take_slots : ℕ → Prog (Heap X) ℕ
  take_slots zero = out_of_fuel
  take_slots (suc fuel) = do
    old ← load (λ m. m.slot_count)
    won ← swap (λ m. m.slot_count) (λ m v. record m { slot_count = v }) old ((old + 2) % 2 ^ 32)
    if won == 1 then ret old else take_slots fuel

  -- `list[i].node = NULL` for the `n` entries from `i`.
  unfoldable pub clear_list : ℕ → ℕ → ℕ → Prog (Heap X) ℕ
  clear_list me zero i = ret 0
  clear_list me (suc n) i = do store (λ m. with_entry m me i 0); clear_list me n (i + 1)

  -- The loop that links a new record in front of the others.
  unfoldable pub push_rec : ℕ → ℕ → Prog (Heap X) ℕ
  push_rec zero local = out_of_fuel
  push_rec (suc fuel) local = do
    old ← load (λ m. m.first_rec)
    store (λ m. with_rec m local (record (m.recs local) { next = old }))
    won ← swap (λ m. m.first_rec) (λ m v. record m { first_rec = v }) old local
    if won == 1 then ret local else push_rec fuel local

  -- The fields of a new record, whose hazard pointers stand from `old`.
  unfoldable pub new_rec : Settings → ℕ → ℕ → ℕ → Prog (Heap X) ℕ
  new_rec set fuel fresh old = do
    store (λ m. with_active m fresh 1)
    store (λ m. with_rec m fresh (record (m.recs fresh) { next = 0 }))
    store (λ m. with_rec m fresh (record (m.recs fresh) { base = old }))
    set_hp fresh 0 0
    set_hp fresh 1 0
    store (λ m. with_rcount m fresh 0)
    store (λ m. with_count m fresh 0)
    clear_list fresh set.max_thres 0
    push_rec fuel fresh

  -- A record that was taken over, or a new one, where `malloc` gives `fresh`.
  unfoldable pub found_or_new : Settings → ℕ → ℕ → Option ℕ → Prog (Heap X) ℕ
  found_or_new set fuel fresh (some local) = ret local
  found_or_new set fuel fresh none = take_slots fuel >>= new_rec set fuel fresh

  -- `allocateHPRec`: the record that becomes `myhprec`.
  unfoldable pub allocate_hp_rec : Settings → ℕ → ℕ → Prog (Heap X) ℕ
  allocate_hp_rec set fuel fresh = do
    start ← load (λ m. m.first_rec)
    found ← find_rec fuel start
    found_or_new set fuel fresh found

  -- `retireHPrec`
  unfoldable pub retire_hp_rec : ℕ → Prog (Heap X) ℕ
  retire_hp_rec me = do set_hp me 0 0; set_hp me 1 0; store (λ m. with_active m me 0)

  -- The loop of `isIn` over the `n` hazard pointers from `i`.
  unfoldable pub in_slots : ℕ → ℕ → ℕ → Prog (Heap X) Bool
  in_slots node zero i = ret false
  in_slots node (suc n) i = do
    held ← load (λ m. m.slots i)
    if held == 0 then in_slots node n (i + 1) else (do
      again ← load (λ m. m.slots i)
      if node == again then ret true else in_slots node n (i + 1))

  -- `isIn`
  unfoldable pub is_in : ℕ → Prog (Heap X) Bool
  is_in node = do n ← load (λ m. m.slot_count); in_slots node n 0

  -- The loop of `retireNode` over the `n` entries from `i`: the first that is free, or the end.
  unfoldable pub free_entry : ℕ → ℕ → ℕ → Prog (Heap X) ℕ
  free_entry me zero i = ret i
  free_entry me (suc n) i = do
    node ← load (λ m. (m.recs me).list i)
    if node == 0 then ret i else free_entry me n (i + 1)

  -- `scan` and `retireNode`, with the `isIn` of the program.
  module _ (held : ℕ → Prog (Heap X) Bool) (me : ℕ) where
    -- The body of the loop of `scan` at an entry that is not free.
    unfoldable pub scan_entry : ℕ → ℕ → Prog (Heap X) ℕ
    scan_entry i node = do
      kept ← held node
      if kept then ret 0 else (do
        free node
        store (λ m. with_entry m me i 0)
        store (λ m. with_count m me (((m.recs me).count + (2 ^ 32 - 1)) % 2 ^ 32)))

    -- The loop of `scan` from entry `i`.
    unfoldable pub scan_from : ℕ → ℕ → Prog (Heap X) ℕ
    scan_from zero i = out_of_fuel
    scan_from (suc fuel) i = do
      last ← load (λ m. (m.recs me).rcount)
      let next = scan_from fuel (i + 1)
      if ltb last i then ret 0 else (do
        node ← load (λ m. (m.recs me).list i)
        if node == 0 then next else (do scan_entry i node; next))

    unfoldable pub scan : ℕ → Prog (Heap X) ℕ
    scan fuel = do store (λ m. record m { scans = (m.scans + 1) % 2 ^ 32 }); scan_from fuel 0

    -- What follows in `retireNode` when entry `i` is free.
    unfoldable pub retire_at : Settings → ℕ → ℕ → ℕ → Prog (Heap X) ℕ
    retire_at set fuel node i = do
      store (λ m. with_entry m me i node)
      last ← load (λ m. (m.recs me).rcount)
      (if ltb last i then store (λ m. with_rcount m me i) else ret 0)
      store (λ m. with_count m me (((m.recs me).count + 1) % 2 ^ 32))
      n ← load (λ m. (m.recs me).count)
      if int_ltb n set.threshold then ret 0 else scan fuel

    -- `retireNode`
    unfoldable pub retire_node : Settings → ℕ → ℕ → ℕ → Prog (Heap X) ℕ
    retire_node set fuel zero node = out_of_fuel
    retire_node set fuel (suc n) node = do
      i ← free_entry me set.max_thres 0
      if i == set.max_thres
          then (do scan fuel; retire_node set fuel n node)
          else retire_at set fuel node i
