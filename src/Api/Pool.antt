-- ===== src/Api/Pool.antt =====
-- src/api/analyze.ts: the packages go to the scanner in batches, which some workers send. Workers
-- share one cursor; between its awaits a worker runs undisturbed, so a step of the pool is what one
-- worker does from one await to the next, and a schedule says which worker goes on. What the scanner
-- answers to a batch, retries included, is a parameter.
pub mod Batches
pub mod Steps
pub mod Sound
pub mod Settled
pub mod Ends
