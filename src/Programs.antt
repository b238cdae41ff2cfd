-- ===== src/Programs.antt =====
-- The programs under cfilesforhazardpointer/ that repeat the functions of the models, a module for
-- each file. They differ in the layout that they choose, in the list that a key goes to, and in that
-- some write a jump out where it stands.
mod HazardLong
mod HazardLongNew
mod HazardpointerFast
mod LockfreePro
mod LockfreelistMayijin
mod TakeRefcount
mod LockfreelistBefore
mod LockfreelistCompare
mod Locklong
mod SimpleT2
mod HazardLong2
mod HazardLong2Mayijin
mod ConcurrentQueues
mod HazardMap
mod HazardpointerFastCopy
mod HazardLoop
mod HazardNew
