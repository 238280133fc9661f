-- ===== src/Net/TcpSession/Tests.antt =====
-- The theorems on a session of src/net/tcp_server.c at concrete inputs.
use zero_tool_kit.Prelude.{◌<◌, ◌≡◌, ◌⊎◌, refl, true, false, [], ◌∷◌, All, arith}
use zero_tool_kit.Net.TcpSession.{
  Chunk, Session, takes, blocks, stuck, drained, socket_send, out_enqueue, out_append_buf,
  advance_sent, gather, flush_loop, flush_fuel, out_flush, send, append_parts, append_after, sendv,
}
use zero_tool_kit.Net.TcpSession.Stream.{IsValid, Fits}
use zero_tool_kit.Net.TcpSession.Flush.{Kept, flush_ends, out_flush-Kept}
use zero_tool_kit.Net.TcpSession.Queue.{Accepted}
use zero_tool_kit.Net.TcpSession.Send.{IsReply, send-Accepted}
use zero_tool_kit.Net.TcpSession.{send_buf}
use zero_tool_kit.Net.TcpSession.SendBuf.{send_buf-Accepted}
use zero_tool_kit.Net.TcpSession.SendMany.{sendv-Accepted}

-- An idle session whose socket takes two bytes and then blocks.
abbrev idle : Session
idle = record {
  closing = false;
  out = [];
  out_pending = 0;
  highwater_hit = false;
  alarms = [];
  wire = [];
  replies = takes 2 ∷ blocks ∷ [];
}

idle-IsValid : IsValid idle
idle-IsValid = record { fits = tt; counted = refl }

idle-replies : All IsReply idle.replies
idle-replies = ground arith

-- A chunk of three bytes of which one was sent.
abbrev chunk : Chunk
chunk = record { bytes = 7 ∷ 8 ∷ 9 ∷ []; off = 1; len = 2 }

abbrev queued : Session
queued = record idle { out = chunk ∷ []; out_pending = 2; wire = 7 ∷ [] }

chunk-Fits : All Fits (chunk ∷ [])
chunk-Fits = ground arith

queued-IsValid : IsValid queued
queued-IsValid = record { fits = chunk-Fits; counted = refl }

out_flush-Kept_example : Kept queued (out_flush queued)
out_flush-Kept_example = out_flush-Kept queued queued-IsValid

flush_ends_example :
    (2 < flush_fuel queued)
    × (((flush_loop 3 queued).0 ≡ stuck)
        ⊎ (((flush_loop 3 queued).0 ≡ drained) × ((flush_loop 3 queued).1.out ≡ [])))
flush_ends_example = flush_ends queued 3 queued-IsValid (omega arith)

-- Three bytes are sent: two are on the wire, and one is queued.
abbrev rest : Session
rest = record idle {
  out = record { bytes = 3 ∷ []; off = 0; len = 1 } ∷ [];
  out_pending = 1;
  wire = 1 ∷ 2 ∷ [];
  replies = [];
}

send-Accepted_example : Accepted idle (1 ∷ 2 ∷ 3 ∷ []) rest
unfolding send socket_send out_append_buf out_enqueue out_flush flush_loop gather advance_sent
send-Accepted_example =
    send-Accepted (λ n. true) 0 idle rest (1 ∷ 2 ∷ 3 ∷ []) idle-IsValid (omega arith) idle-replies
      refl

sendv-Accepted_example : Accepted idle (1 ∷ 2 ∷ 3 ∷ []) rest
unfolding sendv append_parts append_after socket_send out_append_buf out_enqueue out_flush
    flush_loop gather advance_sent
sendv-Accepted_example =
    sendv-Accepted (λ n. true) 0 idle rest ((1 ∷ []) ∷ (2 ∷ 3 ∷ []) ∷ []) idle-IsValid (omega arith)
      idle-replies refl

-- The rest of the same buffer is queued, from offset 2.
abbrev shared_rest : Session
shared_rest = record idle {
  out = record { bytes = 1 ∷ 2 ∷ 3 ∷ []; off = 2; len = 1 } ∷ [];
  out_pending = 1;
  wire = 1 ∷ 2 ∷ [];
  replies = [];
}

send_buf-Accepted_example : Accepted idle (1 ∷ 2 ∷ 3 ∷ []) shared_rest
unfolding send_buf socket_send out_append_buf out_enqueue out_flush flush_loop gather advance_sent
send_buf-Accepted_example =
    send_buf-Accepted (λ n. true) 0 idle shared_rest (1 ∷ 2 ∷ 3 ∷ []) idle-IsValid (omega arith)
      idle-replies refl
