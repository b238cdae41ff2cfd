-- ===== src/Lib.antt =====
-- Verification of the lock-free record structures of PslyAlgorithm.
--
-- cfilesforhazardpointer/lockfreelist_now.c keeps its records in a pool: arrays of records, each
-- with a queue of free records linked through `next` words that carry a version and a tail bit.
-- `get_Record` takes the oldest free record of a queue, `return_Record` appends one. On top of the
-- pool stands a map of counted keys: lists in the order of their keys, linked through `nextRecord`
-- words that carry a reference count and two versions. `psly_record` counts a key up, `psly_remove`
-- counts it down, `psly_search` reads its count; all three are `psly_handle_records`.
--
-- Prog.antt is the language of the models: a program is a tree of atomic accesses to a shared
-- memory, so one definition of a function can be run alone (`run`) and in any interleaving with
-- any number of other threads (`System`, `Step`, `Reach`). Every read, write, compare-and-swap
-- and fetch-and-add of the source is one access; memory is sequentially consistent. Prog/Rely.antt
-- is the method for threads that rely on one another (`Protocol`, `IsSafe`): an invariant of the
-- memory and of a value beside it, what one access of a thread may do, and what a thread sees of
-- the others. Prog/History.antt is such a protocol for threads that rely on the values that a word had
-- before in the run (`Observed`, `Had`). Prog/Advance.antt runs a thread of a system for some accesses.
--
-- Pool.antt models the pool, Pool/Init.antt the first part of `INIT_RESOURCE`. `Pool.take_from` is
-- the inner loop of `get_Record`, `Pool.take_round` and `Pool.take_each` its two outer loops,
-- `Pool.append_loop` the loop of `return_Record`. Words are bit patterns: `& ((1 << k) - 1)` is
-- `% 2 ^ k`, `>> k` is `/ 2 ^ k`, and disjoint fields are put together by `+`. A pointer to a
-- record is its number, array times array length plus index, which `self` holds. Pool/Holds.antt
-- says what a queue holds (`Holds`, `IsPool`), Pool/Take.antt, Pool/Get.antt and Pool/Return.antt
-- are about the functions run alone, Pool/Worker.antt about any number of threads: Pool/Worker/History.antt
-- says what one access may change, by the words that each `next` had in the run,
-- Pool/Worker/History/Calls.antt that the calls change nothing else, Pool/Worker/History/Threads.antt what
-- that says of a run.
-- Pool/Growing.antt models the pool of cfilesforhazardpointer/hazard_long2.c, whose `get_Record` adds an
-- array (`grow`) where it finds no record, with its set-up in Pool/Growing/Init.antt and RecordList/Init/Growing.antt; `take_once`,
-- `take_turns` and `Pool.take_each` are its three searches. Pool/Growing/Fits.antt says what a search
-- gives back, Pool/Growing/Shared.antt is the protocol of any number of threads, which
-- Pool/Growing/Threads.antt runs; Pool/Growing/Stock.antt, Pool/Growing/Alone.antt and
-- Pool/Growing/Given.antt are about one thread alone, Pool/Growing/Started.antt about the set-up.
--
-- RecordList.antt models `psly_handle_records` and its callers: each part between two labels or
-- jumps is a definition (`keep_prev`, `at_place`, `at_entry`, `at_key`, `increment`, `cas_append`,
-- `give_back`, `restart`, `just_next_change`, `look_back`), RecordList/Word.antt the fields of
-- `nextRecord` with `nxtAddrV`, `plusRecord` and `newNext` (RecordList/Word/Masks.antt has the masks as
-- the macros compute them), RecordList/Init.antt the second part of
-- `INIT_RESOURCE` (RecordList/Init/Started.antt is about what it leaves). RecordList/Entries.antt has
-- the abstract map (`count_of`, `add_key`, `drop_key`) and what it means that a list holds it,
-- RecordList/Set.antt and RecordList/Set/Remove.antt the refinement of it by the functions run alone; RecordList/Steps.antt, RecordList/Place.antt,
-- RecordList/Insert.antt and RecordList/Remove.antt are the parts of these proofs.
-- RecordList/Readers.antt is a system of threads that search and remove, RecordList/Readers/Threads.antt
-- is about any run of it; a run in RecordList/Set/Examples.antt wraps a count around.
--
-- RecordList/Checkpoints.antt models `psly_handle_records` of cfilesforhazardpointer/hazard_long.c, which
-- notes the records that it passes in `prevs_` (`Trail`, `pass`) and goes back along them (`resume`) where
-- lockfreelist_now.c begins again at the head. What earlier calls of the thread left in `prevs_` is an
-- argument, and an index below 0 or a NULL in it is a crash. RecordList/Checkpoints/Same.antt,
-- RecordList/Checkpoints/Place.antt, RecordList/Checkpoints/Alone.antt and
-- RecordList/Checkpoints/Walk.antt show that run alone it does what that of lockfreelist_now.c does,
-- RecordList/Checkpoints/Set.antt what that is, RecordList/Checkpoints/Back.antt where it goes back to.
--
-- Hazard.antt models the hazard pointers of cfilesforhazardpointer/hazardpointer.c: records for the
-- threads (`allocate_hp_rec`, `retire_hp_rec`), lists of retired nodes, `is_in`, `scan` and
-- `retire_node`. `scan` and `retire_node` take the test that a node is guarded as an argument, since
-- the other programs have another one; Hazard/Scan.antt and Hazard/Freed.antt are about what a scan
-- frees, Hazard/Quiet.antt about what it leaves. NodeQueue.antt models the queue of that file, `enqueue`
-- and `dequeue`: NodeQueue/Holds.antt, NodeQueue/Link.antt, NodeQueue/Put.antt and NodeQueue/Take.antt
-- run them alone, NodeQueue/Shared.antt is their protocol, with its rules in the modules below it,
-- NodeQueue/Enqueue.antt, NodeQueue/Dequeue.antt and NodeQueue/Threads.antt are about any number of
-- threads. HandleQueue.antt models the queue of cfilesforhazardpointer/hazard_long.c, which guards its
-- nodes by `psly_record` and `psly_remove`, over an interface of three operations on keys
-- (`Handles`); HandleQueue/Scan.antt fills it with the list of RecordList/Checkpoints.antt.
--
-- Counter.antt models cfilesforhazardpointer/mayijin/LockFreeAtomic.c, whose shared `Value` names a
-- handle and a version of it; of `Value` the lower 32 bits are kept, the others repeat the highest
-- of them. Counter/Alone.antt says when the counter stands at a count and runs
-- it alone, Counter/History.antt is the history of its words, Counter/Shared.antt and
-- Counter/Rules.antt are its protocol, Counter/Threads.antt is about any number of threads.
--
-- Programs.antt has a module for each other file under cfilesforhazardpointer/ that repeats these
-- functions, with the layout that the file chooses.
--
-- Loops that retry run on fuel. Run alone, two rounds are enough for `get_record`, a round for each
-- free record of a queue for `return_record`, and a round for each entry and four more for the list.
-- A null pointer that is followed is a crash. What malloc answers is an argument, and the theorems
-- about the interleavings of the queues are for addresses that are not given again. Printing and the
-- test drivers are not modelled, nor are the wait-free counter and the older versions of the list.
pub mod Base
pub mod Prog
pub mod Pool
pub mod RecordList
pub mod Counter
pub mod Hazard
pub mod NodeQueue
pub mod HandleQueue
pub mod Programs
