-- ===== src/Workqueue.antt =====
-- workqueue.c and barrier.c: client threads hand items to at most four queues, each with a thread
-- that runs them. What a mutex guards is one step.
pub mod Station
pub mod Barrier
pub mod Pool
pub mod Safety
pub mod Routing
mod Tests
