-- ===== src/Poller.antt =====
-- src/poller: the event loop.
pub mod TimerHeap
pub mod Timers
pub mod Tasks
pub mod Load
pub mod Pool
pub mod Select
pub mod Epoll
