-- ===== src/Programs/LockfreelistCompare.antt =====
-- cfilesforhazardpointer/fast/fast64bitversion/hazardP/compare_LockFreeList/lockfreelist_now.c: the functions it shares with the models, at its own layout.
use psly_algorithm.Base.{ℕ, Option}
use psly_algorithm.Prog.{Prog}
use psly_algorithm.Pool.{Layout, Memory}
use psly_algorithm.Pool
use psly_algorithm.RecordList.Word
use psly_algorithm.Pool.Init
use psly_algorithm.RecordList.Init as Lists
use psly_algorithm.RecordList.{Task}
use psly_algorithm.RecordList as List

abbrev layout : Layout
layout = record { ref_num = 16; idx_num = 16; arr_num = 6; list_num = 65536 }

abbrev get_record : ℕ → Prog Memory (Option ℕ)
get_record = Pool.get_record layout

abbrev return_record : ℕ → ℕ → Prog Memory (Unit {0})
return_record = Pool.return_record layout

abbrev next_address_version : ℕ → ℕ → ℕ
next_address_version = Word.next_address_version layout

abbrev plus_record : ℕ → ℕ
plus_record = Word.plus_record layout

abbrev new_next : ℕ → ℕ → ℕ
new_next = Word.new_next layout

abbrev init_pool : Memory
init_pool = Init.init_pool layout

abbrev init_lists : ℕ → Prog Memory (Unit {0})
init_lists fuel = Lists.init_lists layout fuel layout.list_num 0

abbrev handle_records : Task → ℕ → ℕ → Prog Memory ℕ
handle_records = List.handle_records layout

abbrev psly_record : ℕ → ℕ → ℕ → Prog Memory ℕ
psly_record = List.psly_record layout

abbrev psly_remove : ℕ → ℕ → ℕ → Prog Memory ℕ
psly_remove = List.psly_remove layout

abbrev psly_search : ℕ → ℕ → ℕ → Prog Memory ℕ
psly_search = List.psly_search layout
