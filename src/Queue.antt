-- ===== src/Queue.antt =====
-- libs/static_queue: a queue of at most N_MEMB elements whose nodes stand in an array.
pub mod Node
pub mod Linked
pub mod Static
pub mod Search
pub mod Chain
pub mod Unlinking
pub mod Appending
pub mod Contents
pub mod Removal
pub mod Length
pub mod Slots
pub mod Insertion
pub mod Departure
pub mod Walking
pub mod Answers
pub mod Fifo
pub mod Overrun
pub mod Leak
pub mod Filling
pub mod Capacity
pub mod Splitting
pub mod Pointers
pub mod Resetting
pub mod Sound
pub mod Upkeep
pub mod Withdrawal
pub mod Counting
