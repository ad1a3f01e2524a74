-- ===== src/Clocks.antt =====
-- src/SampleClock.{h,cpp}: the clocks of a stream of samples and of the host. A lock makes each call one
-- step. The reads of the operating system's clocks are I/O. Its children are the fit of the arrivals
-- (Arrival), the capture stamps (Capture) and the guard of the host clock's rate (Slew).
pub mod Arrival
pub mod Capture
pub mod Slew
pub mod Plausible
pub mod Ordered
pub mod Calm
mod Tests
