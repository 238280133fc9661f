-- ===== src/Lib.antt =====
-- Verification of zero-tool-kit (ZTK), a C library of event loops, timers, buffers and sockets.
--
-- The program. A poller (src/poller) is an event loop of one thread with a heap of timers, a queue
-- of posted tasks and an account of how busy it is; a pool of pollers spreads the work. Buffers
-- (src/util/buf.c) are counted references to memory from a pool of freelists; a pool that belongs to
-- a poller takes back blocks from other threads through that poller's task queue. The user's
-- timers (src/util/timer.c) are delayed calls of a poller. A TCP server's sessions
-- (src/net/tcp_server.c) queue what the socket does not take at once and flush it when the socket
-- is writable. A socket (src/net/socket.c) is registered at one poller, whose back end here is
-- poller_select.c, and turns its events into callbacks; the TCP client, the UDP client and the
-- TCP server's listening side stand on it. The MPSC queue (src/util/mpsc.c) passes pointers
-- from many threads to one. The port pool (src/net/rtp_port.c) leases pairs of UDP ports. The
-- thread pool (src/thread/thread_pool.c) runs blocking tasks on worker threads.
--
-- The modules, each with the operations in the file of its name and the proofs in files below it:
--   Errno             include/ztk/ztk_errno.h: the status codes
--   Util/BufPool      src/util/buf.c: ztk_buf_pool_*, the freelists by capacity
--   Util/Buf          src/util/buf.c: ztk_buf_*, allocation; Util/Buf/Sharing: the atomic steps of
--                     ztk_buf_ref, ztk_buf_try_ref and ztk_buf_unref under any interleaving
--   Util/ByteBuf      src/util/byte_buf.c: ztk_byte_buf_*
--   Util/Timer        src/util/timer.c: ztk_timer_start, ztk_timer_stop, timer_bridge
--   Util/Mpsc         src/util/mpsc.c; Util/Mpsc/Steps: each atomic access of a producer or of the
--                     consumer as a step, in any order
--   Poller/TimerHeap  src/poller/poller_timer.c: timer_heap_*, ztk_poller_timer_insert_locked
--   Poller/Timers     src/poller/poller_timer.c: flush_expired_timers, the timeout, delay, cancel
--   Poller/Tasks      src/poller/poller_task.c: async, drain
--   Poller/Load       src/poller/poller_load.c
--   Poller/Pool       src/poller/poller_pool.c: the choice of a poller
--   Poller/Select     src/poller/poller_select.c: add, mod, del, poll, wake
--   Poller/Epoll      src/poller/poller_epoll.c: add, mod, del and the kernel's set
--   Net/RtpPort       src/net/rtp_port.c; Net/RtpPort/Leases: clients that acquire and release
--   Net/TcpSession    src/net/tcp_server.c: session_out_*, ztk_tcp_session_send, _sendv, _send_buf
--   Net/Socket        src/net/socket.c: the object and its registration; Net/Socket/Dispatch:
--                     socket_poller_cb; Net/Socket/Guards: the calls handed on after a check
--   Net/TcpClient     src/net/tcp_client.c
--   Net/UdpClient     src/net/udp_client.c
--   Net/TcpServer     src/net/tcp_server.c: start, stop, the table of sessions
--   ThreadPool        src/thread/thread_pool.c: callers, workers and the shutdown as atomic steps
--   Prelude           shared tests on numbers, lists and machine words
--
-- How it is modelled. A pointer is an address, a number; NULL is `none`. Machine integers are natural
-- numbers with their wrap-around written out (u16, u32, u64, sub64), the pending bytes of a session
-- included; size_t has 64 bits. A semaphore's count has no limit, but any post and any wait may fail.
-- The byte size of the table of sessions is left out. A linked list is a list; the
-- heap's array and the timers' memory are functions, so that the back pointer `heap_index` is
-- modelled as it is. Functions under a mutex are atomic. malloc, calloc and realloc, the clock, the
-- callbacks of timers and tasks and the load readings of a poller are parameters; what a socket
-- answers is a script in the session's state, and for src/net/socket.c an argument of each call.
-- Callbacks of sockets and clients are listed in the order in which they are called, and are taken to
-- leave the object that calls them alone. A descriptor that the platform hands out is not one of a
-- poller's wake pipe. The MPSC queue is modelled for fewer than 2 ^ 63 items and a capacity below
-- 2 ^ 62; its atomic accesses are sequentially consistent, as in the source.
--
-- Fuel. The loop of ztk_rtp_port_pool_create has 32769 rounds, one for each even uint16_t and the
-- last test. The doubling loops on size_t have 65, which passes every size_t. bubble_up from
-- index i has i rounds and bubble_down as many as the heap has timers. A flush of a session has
-- one round for each pending byte and each chunk, and one more. The send of a TCP client has
-- 65 rounds for each byte and 65 more, for at most 64 answers ZTK_ERR_AGAIN in a row. flush_expired_timers is
-- limited by the source, to 256 rounds.
--
-- Not modelled: the other back ends (poller_epoll.c's poll, poller_wepoll.c, sock_linux.c, sock_win32.c,
-- src/platform) with the copy of wepoll, the TLS modules, the UDP server, the accept loop and the receiving
-- side of the TCP server, the start and join of the threads of both pools, and the log. Null checks
-- of receivers are left to the callers, who have the object here.
pub mod Prelude
pub mod Errno
pub mod Net
pub mod Util
pub mod Poller
pub mod ThreadPool
