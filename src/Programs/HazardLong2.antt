-- ===== src/Programs/HazardLong2.antt =====
-- cfilesforhazardpointer/hazard_long2.c: the functions it shares with the models, at its own layout.
use psly_algorithm.Base.{ℕ, Bool, Option}
use psly_algorithm.Prog.{Prog}
use psly_algorithm.Hazard.{Heap, Settings}
use psly_algorithm.Hazard
use psly_algorithm.HandleQueue.{Handles}
use psly_algorithm.HandleQueue
use psly_algorithm.Pool.{Layout, Memory}
use psly_algorithm.Pool
use psly_algorithm.Pool.Growing.{Growing}
use psly_algorithm.Pool.Growing
use psly_algorithm.Pool.Growing.Init
use psly_algorithm.RecordList.Word
use psly_algorithm.RecordList.Init.Growing.{init_growing_lists}

abbrev layout : Layout
layout = record { ref_num = 16; idx_num = 16; arr_num = 4; list_num = 131072 }

abbrev get_record : ℕ → ℕ → Prog Growing (Option ℕ)
get_record = Growing.get_record layout

abbrev init_growing : Growing
init_growing = Init.init_growing layout 4

abbrev init_lists : ℕ → ℕ → Prog Growing (Unit {0})
init_lists fuel rounds = init_growing_lists layout fuel rounds layout.list_num 0

abbrev return_record : ℕ → ℕ → Prog Memory (Unit {0})
return_record = Pool.return_record layout

abbrev next_address_version : ℕ → ℕ → ℕ
next_address_version = Word.next_address_version layout

abbrev plus_record : ℕ → ℕ
plus_record = Word.plus_record layout

abbrev new_next : ℕ → ℕ → ℕ
new_next = Word.new_next layout

-- Hazard records and the queue, over the operations on keys of this file.
abbrev allocate_hp_rec : Settings → ℕ → ℕ → Prog (Heap Memory) ℕ
allocate_hp_rec = Hazard.allocate_hp_rec

abbrev retire_hp_rec : ℕ → Prog (Heap Memory) ℕ
retire_hp_rec = Hazard.retire_hp_rec

abbrev has_handle : Handles Memory → ℕ → Prog (Heap Memory) Bool
has_handle = HandleQueue.has_handle

abbrev scan : Handles Memory → ℕ → ℕ → Prog (Heap Memory) ℕ
scan ops = Hazard.scan (has_handle ops)

abbrev retire_node : Handles Memory → ℕ → Settings → ℕ → ℕ → ℕ → Prog (Heap Memory) ℕ
retire_node ops = Hazard.retire_node (has_handle ops)

abbrev dequeue : Handles Memory → Settings → ℕ → ℕ → Prog (Heap Memory) ℕ
dequeue = HandleQueue.dequeue

abbrev enqueue : Handles Memory → ℕ → ℕ → ℕ → Prog (Heap Memory) ℕ
enqueue = HandleQueue.enqueue
