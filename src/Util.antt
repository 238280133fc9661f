-- ===== src/Util.antt =====
-- src/util: buffers, queues and clocks.
pub mod BufPool
pub mod Buf
pub mod ByteBuf
pub mod Mpsc
pub mod Timer
