-- ===== src/Net/TcpSession.antt =====
-- src/net/tcp_server.c, the outgoing side of a session: the queue of chunks behind a socket that
-- takes a part of the bytes, and the calls that send. A chunk's buffer is the list of its bytes; the
-- linked list from `out_head` to `out_tail` is a list. Chunks of the kind ZTK_TCP_OUT_MEM are
-- never made by the source, so every chunk here has the kind ZTK_TCP_OUT_BUF.
pub mod Stream
pub mod Flush
pub mod Queue
pub mod Send
pub mod SendMany
pub mod SendBuf
mod Tests
use zero_tool_kit.Prelude.{
  ℕ, zero, suc, ◌+◌, ◌-◌, min, Bool, true, false, not, ◌&&◌, ◌||◌, Option, none, some, List, [],
  ◌∷◌, ◌++◌, length, take, drop, ltb, leb, ◌==◌, if◌then◌else◌, u64,
}
use zero_tool_kit.Errno.{Err, ok, nomem, invalid, again}

-- `ztk_tcp_out_chunk`
pub record Chunk : Type 0 where
  pub bytes : List ℕ
  pub off : ℕ
  pub len : ℕ

-- What the operating system answers to one send of a non-empty message: it takes up to so many
-- bytes, would block (ZTK_ERR_AGAIN), or fails with another status.
pub data Reply : Type 0 where
  takes : ℕ → Reply
  blocks : Reply
  fails : Err → Reply

-- `struct ztk_tcp_session` less the server's fields that do not change, with its socket: the bytes
-- that the peer gets in order, and the answers to come (no answer left is a socket that blocks).
-- `alarms` is the log of `out_pending` at each call of `on_out_highwater`.
pub record Session : Type 0 where
  pub closing : Bool
  pub out : List Chunk
  pub out_pending : ℕ
  pub highwater_hit : Bool
  pub alarms : List ℕ
  pub wire : List ℕ
  pub replies : List Reply

-- The result of a send: the number of bytes taken, or an error.
pub data Sent : Type 0 where
  sent : ℕ → Sent
  refused : Err → Sent

-- `ztk_socket_send` and `ztk_socket_sendv`: the iov of the latter is one message.
abbrev pub answer : Session → List ℕ → List Reply → Sent × Session
answer s msg [] = (refused again, s)
answer s msg (takes n ∷ rest) =
    (sent (min n (length msg)), record s { wire = s.wire ++ take n msg; replies = rest })
answer s msg (blocks ∷ rest) = (refused again, record s { replies = rest })
answer s msg (fails e ∷ rest) = (refused e, record s { replies = rest })

pub socket_send : Session → List ℕ → Sent × Session
socket_send s msg = answer s msg s.replies

-- `ZTK_SOCKET_IOV_MAX`
abbrev pub iov_max : ℕ
iov_max = 16

-- The bytes of a chunk that are still to be sent.
abbrev pub chunk_view : Chunk → List ℕ
chunk_view c = take c.len (drop c.off c.bytes)

-- `if (out_pending >= n) out_pending -= n; else out_pending = 0;`
abbrev pub less : ℕ → ℕ → ℕ
less pending n = if leb n pending then pending - n else 0

-- `out_highwater_bytes`, 0 where the server has no `on_out_highwater`.
abbrev pub check_highwater : ℕ → Session → Session
check_highwater mark s =
    if mark == 0
    then s
    else if ltb s.out_pending mark
    then record s { highwater_hit = false }
    else if not s.highwater_hit
    then record s { highwater_hit = true; alarms = s.alarms ++ (s.out_pending ∷ []) }
    else s

-- `out_pending` is a size_t of 64 bits, and the addition wraps.
pub out_enqueue : ℕ → Session → Chunk → Session
out_enqueue mark s chunk =
    check_highwater mark
      (record s { out = s.out ++ (chunk ∷ []); out_pending = u64 (s.out_pending + chunk.len) })

-- `alloc` says whether the memory for so many bytes is given: the buffer, and the chunk's header.
-- `none` is the result -1. A buffer of length 0 is accepted and not queued.
pub out_append_buf : (ℕ → Bool) → ℕ → Session → List ℕ → Option Session
out_append_buf alloc mark s buf =
    if length buf == 0
    then some s
    else if alloc (length buf)
    then some (out_enqueue mark s (record { bytes = buf; off = 0; len = length buf }))
    else none

-- The copy of the data goes into a buffer of just that length.
abbrev pub out_append_mem : (ℕ → Bool) → ℕ → Session → List ℕ → Option Session
out_append_mem alloc mark s msg = out_append_buf alloc mark s msg

-- The chunks and the pending count after `skip` bytes were sent.
pub advance_sent : ℕ → List Chunk → ℕ → List Chunk × ℕ
advance_sent skip [] pending = ([], pending)
advance_sent skip (c ∷ cs) pending =
    let next = advance_sent (if c.len == 0 then skip else skip - c.len) cs (less pending c.len) in
    if skip == 0
    then (c ∷ cs, pending)
    else if c.len == 0 || leb c.len skip
    then next
    else (record c { off = c.off + skip; len = c.len - skip } ∷ cs, less pending skip)

-- The message of one `session_out_try_sendv`: the bytes of the first chunks that are not empty.
pub gather : ℕ → List Chunk → List ℕ
gather zero cs = []
gather (suc n) [] = []
gather (suc n) (c ∷ cs) =
    let rest = gather (if c.len == 0 then suc n else n) cs in
    if c.len == 0 then rest else chunk_view c ++ rest

-- How the loop of a flush ended: with an empty queue, with a socket that took nothing, or without
-- fuel.
pub data Ended : Type 0 where
  drained stuck no_fuel : Ended

abbrev pub advanced : Session → ℕ → Session
advanced s n =
    let (out, pending) = advance_sent n s.out s.out_pending in
    record s { out = out; out_pending = pending }

-- The head of the queue is empty: it is popped.
abbrev pub popped : Session → List Chunk → ℕ → Session
popped s rest len = record s { out = rest; out_pending = less s.out_pending len }

abbrev pub flush_round : (Session → Ended × Session) → Sent × Session → Ended × Session
flush_round more (sent zero, s) = (stuck, s)
flush_round more (sent (suc n), s) = more (advanced s (suc n))
flush_round more (refused e, s) = (stuck, s)

abbrev pub flush_step : (Session → Ended × Session) → Session → List Chunk → Ended × Session
flush_step more s [] = (drained, s)
flush_step more s (c ∷ rest) =
    let sending = flush_round more (socket_send s (gather iov_max s.out)) in
    let popping = more (popped s rest c.len) in if c.len == 0 then popping else sending

-- Each round sends at least a byte or pops an empty chunk.
pub flush_loop : ℕ → Session → Ended × Session
flush_loop zero s = (no_fuel, s)
flush_loop (suc fuel) s = flush_step (λ s'. flush_loop fuel s') s s.out

abbrev pub flush_fuel : Session → ℕ
flush_fuel s = s.out_pending + length s.out + 1

pub out_flush : Session → Session
out_flush s = (flush_loop (flush_fuel s) s).1

abbrev pub flush_queued : Session → Option Session → Err × Session
flush_queued s none = (nomem, s)
flush_queued s (some s') = (ok, out_flush s')

abbrev pub keep_queued : Session → Option Session → Err × Session
keep_queued s none = (nomem, s)
keep_queued s (some s') = (ok, s')

module _ (alloc : ℕ → Bool) (mark : ℕ) where
  -- After the direct send of `msg`: all of it, a part, nothing yet, or an error. A result of 0
  -- bytes is returned as the status 0, which is ZTK_OK.
  abbrev pub after_send : List ℕ → Sent × Session → Err × Session
  after_send msg (sent n, s) =
      if n == length msg
      then (ok, s)
      else if n == 0
      then (ok, s)
      else flush_queued s (out_append_mem alloc mark s (drop n msg))
  after_send msg (refused Err.again, s) = keep_queued s (out_append_mem alloc mark s msg)
  after_send msg (refused e, s) = (e, s)

  abbrev pub send_first : Session → List ℕ → List Chunk → Err × Session
  send_first s msg [] = after_send msg (socket_send s msg)
  send_first s msg (c ∷ cs) = flush_queued s (out_append_mem alloc mark s msg)

  pub send : Session → List ℕ → Err × Session
  send s msg = if s.closing || length msg == 0 then (invalid, s) else send_first s msg s.out

  -- `ztk_tcp_session_send_buf`. After a part was sent the rest of the same buffer is queued.
  abbrev pub queue_rest : Session → List ℕ → ℕ → Option Session
  queue_rest s buf n =
      if alloc (length buf)
      then some (out_enqueue mark s (record { bytes = buf; off = n; len = length buf - n }))
      else none

  abbrev pub after_send_buf : List ℕ → Sent × Session → Err × Session
  after_send_buf buf (sent n, s) =
      if n == length buf
      then (ok, s)
      else if n == 0
      then (ok, s)
      else flush_queued s (queue_rest s buf n)
  after_send_buf buf (refused Err.again, s) = keep_queued s (out_append_buf alloc mark s buf)
  after_send_buf buf (refused e, s) = (e, s)

  abbrev pub send_buf_first : Session → List ℕ → List Chunk → Err × Session
  send_buf_first s buf [] = after_send_buf buf (socket_send s buf)
  send_buf_first s buf (c ∷ cs) = flush_queued s (out_append_buf alloc mark s buf)

  pub send_buf : Session → List ℕ → Err × Session
  send_buf s buf =
      if s.closing
      then (invalid, s)
      else if length buf == 0
      then (ok, s)
      else send_buf_first s buf s.out

  -- `ztk_tcp_session_sendv`. The parts that are looked at are the first 16.
  abbrev pub any_empty : List (List ℕ) → Bool
  any_empty [] = false
  any_empty (part ∷ parts) = length part == 0 || any_empty parts

  abbrev pub joined : List (List ℕ) → List ℕ
  joined [] = []
  joined (part ∷ parts) = part ++ joined parts

  -- The loops that queue every part; the session is the one at which memory ran out.
  pub append_parts : Session → List (List ℕ) → Bool × Session
  append_parts s [] = (true, s)
  append_parts s (part ∷ parts) = elim (out_append_mem alloc mark s part) [
    | none ↦ (false, s)
    | some s' ↦ append_parts s' parts
  ]

  -- The loop after a part of the message was sent: whole parts are skipped.
  pub append_after : ℕ → Session → List (List ℕ) → Bool × Session
  append_after skip s [] = (true, s)
  append_after skip s (part ∷ parts) =
      let later = append_after (skip - length part) s parts in
      let now = append_parts s (drop skip part ∷ parts) in
      if leb (length part) skip then later else now

  abbrev pub flush_parts : Bool × Session → Err × Session
  flush_parts (false, s) = (nomem, s)
  flush_parts (true, s) = (ok, out_flush s)

  abbrev pub keep_parts : Bool × Session → Err × Session
  keep_parts (false, s) = (nomem, s)
  keep_parts (true, s) = (ok, s)

  abbrev pub after_sendv : List (List ℕ) → Sent × Session → Err × Session
  after_sendv parts (sent n, s) =
      if n == length (joined parts)
      then (ok, s)
      else if n == 0
      then (ok, s)
      else flush_parts (append_after n s parts)
  after_sendv parts (refused Err.again, s) = keep_parts (append_parts s parts)
  after_sendv parts (refused e, s) = (e, s)

  abbrev pub sendv_first : Session → List (List ℕ) → List Chunk → Err × Session
  sendv_first s parts [] = after_sendv parts (socket_send s (joined parts))
  sendv_first s parts (c ∷ cs) = flush_parts (append_parts s parts)

  pub sendv : Session → List (List ℕ) → Err × Session
  sendv s all_parts =
      let parts = take iov_max all_parts in
      if s.closing || length all_parts == 0 || any_empty parts
      then (invalid, s)
      else sendv_first s parts s.out

-- `ztk_tcp_session_out_discard`
abbrev pub discarded : List Chunk → ℕ → ℕ
discarded [] pending = pending
discarded (c ∷ cs) pending = discarded cs (less pending c.len)

pub out_discard : Session → Session
out_discard s = record s {
  out = [];
  out_pending = discarded s.out s.out_pending;
  highwater_hit = false;
}

-- `ztk_tcp_session_flush`
pub session_flush : Session → Session
unfolding out_flush
session_flush s = out_flush s

-- `none` is NULL.
pub session_out_pending : Option Session → ℕ
session_out_pending none = 0
session_out_pending (some s) = s.out_pending
