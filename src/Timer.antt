-- ===== src/Timer.antt =====
-- src/pattern/timer and include/trz/pattern/timer: the timers of actors and the service behind them.
pub mod Clock
pub mod Proxy
pub mod Service
mod Tests
