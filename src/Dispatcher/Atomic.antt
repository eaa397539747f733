-- ===== src/Dispatcher/Atomic.antt =====
-- The parts of `queue_dispatcher` in src/nqueue.h that run under the lock, seen as single steps.
pub mod History
pub mod Loops
pub mod During
pub mod Simulation
pub mod Passes
pub mod Prints
pub mod Arrivals
pub mod Refine
mod Tests
