-- ===== src/HandleQueue.antt =====
-- The queue of hazard_long.c, an access at a time: it guards the nodes that a thread reads by the
-- counted keys of the list instead of hazard pointers.
pub mod Scan
pub mod Rules
pub mod Enqueue
pub mod Dequeue
pub mod Threads
mod Examples
use psly_algorithm.Base.{ℕ, zero, suc, Bool, not, ◌==◌, if◌then◌else◌}
use psly_algorithm.Prog.{Prog, ret, act, out_of_fuel, crash, ◌>>=◌, ◌>>◌}
use psly_algorithm.Hazard.{Heap, Settings, load, store, retire_node}
use psly_algorithm.NodeQueue.{no_value, with_value, with_next, swap_tail, swap_head, swap_next}

-- `psly_record`, `psly_remove` and `psly_search` over the memory of the list.
pub record Handles (X : Type 0) : Type 0 where
  pub psly_record : ℕ → Prog X ℕ
  pub psly_remove : ℕ → Prog X ℕ
  pub psly_search : ℕ → Prog X ℕ

-- A program of the list, over the whole memory.
unfoldable pub guarded : {X A : Type 0} → Prog X A → Prog (Heap X) A
guarded (ret a) = ret a
guarded (act f k) =
    act (λ m. ((f m.guards).0, record m { guards = (f m.guards).1 })) (λ w. guarded (k w))
guarded out_of_fuel = out_of_fuel
guarded crash = crash

module _ {X : Type 0} (ops : Handles X) where
  abbrev pub record_handle : ℕ → Prog (Heap X) ℕ
  record_handle node = guarded (ops.psly_record node)

  abbrev pub remove_handle : ℕ → Prog (Heap X) ℕ
  remove_handle node = guarded (ops.psly_remove node)

  -- `isIn`
  unfoldable pub has_handle : ℕ → Prog (Heap X) Bool
  has_handle node = do n ← guarded (ops.psly_search node); ret (not (n == 0))

  -- The loop of `enqueue`: the node behind which `node` is linked.
  unfoldable pub link_loop : ℕ → ℕ → Prog (Heap X) ℕ
  link_loop zero node = out_of_fuel
  link_loop (suc fuel) node = do
    t ← load (λ m. m.tail)
    record_handle t
    t1 ← load (λ m. m.tail)
    let again = link_loop fuel node
    if t1 == t
        then (do
          next ← load (λ m. (m.nodes t).next)
          t2 ← load (λ m. m.tail)
          if t2 == t
              then if next == 0
                then (do
                  won ← swap_next t 0 node
                  remove_handle t
                  if won == 1 then (if t == node then crash else ret t) else again)
                else (do remove_handle t; swap_tail t next; again)
              else (do remove_handle t; again))
        else (do remove_handle t; again)

  -- `enqueue`, where `posix_memalign` gives `node`.
  unfoldable pub enqueue : ℕ → ℕ → ℕ → Prog (Heap X) ℕ
  enqueue fuel node value = do
    store (λ m. with_next (with_value m node 0) node 0)
    store (λ m. with_value m node value)
    store (λ m. with_next m node 0)
    t ← link_loop fuel node
    swap_tail t node

  -- `psly_remove(h); psly_remove(next);`
  unfoldable pub remove_both : ℕ → ℕ → Prog (Heap X) ℕ
  remove_both h next = do remove_handle h; remove_handle next

  -- `if(flagRet) retireNode(h); return data;`
  unfoldable pub retire_head : Settings → ℕ → ℕ → ℕ → ℕ → Prog (Heap X) ℕ
  retire_head set me fuel h value =
      if set.flag_ret then (do retire_node has_handle me set fuel fuel h; ret value) else ret value

  -- `dequeue`
  unfoldable pub dequeue : Settings → ℕ → ℕ → Prog (Heap X) ℕ
  dequeue set me zero = out_of_fuel
  dequeue set me (suc fuel) = do
    h ← load (λ m. m.head)
    record_handle h
    h1 ← load (λ m. m.head)
    let again = dequeue set me fuel
    if h1 == h
        then (do
          t ← load (λ m. m.tail)
          next ← load (λ m. (m.nodes h).next)
          record_handle next
          h2 ← load (λ m. m.head)
          if h2 == h
              then if next == 0
                then (do remove_both h next; ret no_value)
                else if h == t
                then (do remove_both h next; swap_tail t next; again)
                else (do
                  value ← load (λ m. (m.nodes next).value)
                  won ← swap_head h next
                  remove_both h next
                  if won == 1 then retire_head set me fuel h value else again)
              else (do remove_both h next; again))
        else (do remove_handle h; again)
