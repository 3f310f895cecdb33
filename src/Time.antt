-- ===== src/Time.antt =====
-- Timers, time/. A time is a count of microseconds, an `int64_t` that the code keeps far from its
-- limits, so it is an integer here; an overflow would be undefined in the source.
pub mod Timer
pub mod Queue
pub mod Text
pub mod Ops
pub mod Sorting
pub mod Firing
pub mod Counting
pub mod Loops
mod Tests
