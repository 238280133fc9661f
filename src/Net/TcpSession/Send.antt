-- ===== src/Net/TcpSession/Send.antt =====
-- src/net/tcp_server.c: sending one message.
use zero_tool_kit.Prelude.{
  ℕ, ◌<◌, ◌≡◌, ◌≢◌, refl, min, Bool, false, ◌||◌, Option, none, some, List, [], ◌∷◌, ◌++◌, length,
  All, take, drop, ◌==◌, arith, ap, ◌∙◌, sym, append_assoc, append-nil, take-append-drop, take_all,
  take-min, Bool-cases, length-drop, inl, inr,
}
use mathlib.Core.Path.{subst}
use zero_tool_kit.Errno.{Err, ok, again}
use zero_tool_kit.Net.TcpSession.{
  Chunk, Session, Reply, takes, blocks, fails, sent, refused, socket_send, answer, out_flush,
  flush_queued, keep_queued, after_send, send_first, send,
}
use zero_tool_kit.Net.TcpSession.Stream.{stream, IsValid, HasRoom}
use zero_tool_kit.Net.TcpSession.Flush.{Kept, out_flush-Kept}
use zero_tool_kit.Net.TcpSession.Queue.{Accepted, appended}

-- What the sockets of the operating system are documented to answer to a message that is not
-- empty: a positive number of bytes, or that they would block, or an error.
abbrev pub IsReply : Reply → Type 0
IsReply (takes n) = 0 < n
IsReply blocks = Unit {0}
IsReply (fails e) = e ≢ ok

-- If the status is ZTK_OK, the message is accepted.
abbrev pub OkMeans : Session → List ℕ → Err × Session → Type 0
OkMeans s msg p = p.0 ≡ ok → Accepted s msg p.1

pub Accepted-Kept :
    (s t u : Session) (msg : List ℕ) → Accepted s msg t → Kept t u → Accepted s msg u
Accepted-Kept s t u msg a k = record { valid = k.valid; added = k.same ∙ a.added }

pub Accepted-trans :
    (s t u : Session) (msg rest : List ℕ)
    → Accepted s msg t
    → Accepted t rest u
    → Accepted s (msg ++ rest) u
Accepted-trans s t u msg rest a b = record {
  valid = b.valid;
  added = b.added ∙ ap (λ r. r ++ rest) a.added ∙ append_assoc (stream s) msg rest;
}

pub flush_queued-OkMeans :
    (s s0 : Session) (msg : List ℕ) (o : Option Session)
    → ((t : Session) → o ≡ some t → Accepted s msg t)
    → OkMeans s msg (flush_queued s0 o)
flush_queued-OkMeans s s0 msg none h = λ e. cc
flush_queued-OkMeans s s0 msg (some t) h =
    λ _. Accepted-Kept s t (out_flush t) msg (h t refl) (out_flush-Kept t (h t refl).valid)

pub keep_queued-OkMeans :
    (s s0 : Session) (msg : List ℕ) (o : Option Session)
    → ((t : Session) → o ≡ some t → Accepted s msg t)
    → OkMeans s msg (keep_queued s0 o)
keep_queued-OkMeans s s0 msg none h = λ e. cc
keep_queued-OkMeans s s0 msg (some t) h = λ _. h t refl

-- A direct send on an empty queue of which the socket took `n` bytes.
pub sent-Accepted :
    (s : Session) (msg : List ℕ) (n : ℕ) (rest : List Reply)
    → IsValid s
    → s.out ≡ []
    → Accepted s (take n msg) (record s { wire = s.wire ++ take n msg; replies = rest })
sent-Accepted s msg n rest v empty = record {
  valid = record { fits = v.fits; counted = v.counted };
  added =
      rw empty
        (append-nil (s.wire ++ take n msg) ∙ ap (λ r. r ++ take n msg) (sym (append-nil s.wire)));
}

-- The part that the socket did not take is queued behind it.
pub queued_rest :
    (s t u : Session) (msg : List ℕ) (n : ℕ)
    → Accepted s (take n msg) t
    → Accepted t (drop n msg) u
    → Accepted s msg u
queued_rest s t u msg n a b =
    subst (λ r. Accepted s r u) (take-append-drop n msg)
      (Accepted-trans s t u (take n msg) (drop n msg) a b)

module _ (alloc : ℕ → Bool) (mark : ℕ) where
  -- After a refusal on a session with the stream of `s`.
  refused-OkMeans :
      (s s' : Session) (msg : List ℕ) (e : Err)
      → IsValid s'
      → HasRoom s' (length msg)
      → stream s' ≡ stream s
      → e ≢ ok
      → OkMeans s msg (after_send alloc mark msg (refused e, s'))
  refused-OkMeans s s' msg ok v room same h = absurd (h refl)
  refused-OkMeans s s' msg again v room same h = keep_queued-OkMeans s s' msg _ (λ t e.
      let a = appended alloc mark s' t msg v room e in
      record { valid = a.valid; added = a.added ∙ ap (λ r. r ++ msg) same })
  refused-OkMeans s s' msg _ v room same h = λ e. cc

  pub again-ne-ok : again ≢ ok
  again-ne-ok e = cc

  taken-OkMeans :
      (s : Session) (msg : List ℕ) (n : ℕ) (rest : List Reply)
      → IsValid s
      → s.out ≡ []
      → HasRoom s (length msg)
      → 0 < length msg
      → 0 < n
      → OkMeans s msg (
          after_send alloc mark msg
            (sent (min n (length msg)), record s { wire = s.wire ++ take n msg; replies = rest }))
  taken-OkMeans s msg n rest v empty room some_bytes pos =
      elim (Bool-cases (min n (length msg) == length msg)) [
        | inl whole ↦
            let all : take n msg ≡ msg = take_all n msg (ground arith) in
            rw whole (λ _. subst (λ r. Accepted s r t) all here)
        | inr part ↦
            let some_taken : (min n (length msg) == 0) ≡ false = ground arith in
            rw (part, some_taken)
              (flush_queued-OkMeans s t msg _ (λ u e.
                queued_rest s t u msg (min n (length msg))
                  (subst (λ r. Accepted s r t) (take-min n msg) here)
                  (appended alloc mark t u (drop (min n (length msg)) msg) here.valid
                    (omega (arith, length-drop (min n (length msg)) msg)) e)))
      ]
    where
      t : Session
      t = record s { wire = s.wire ++ take n msg; replies = rest }

      here : Accepted s (take n msg) t
      here = sent-Accepted s msg n rest v empty

  after_send-OkMeans :
      (s : Session) (msg : List ℕ) (rs : List Reply)
      → IsValid s
      → s.out ≡ []
      → HasRoom s (length msg)
      → 0 < length msg
      → All IsReply rs
      → OkMeans s msg (after_send alloc mark msg (answer s msg rs))
  after_send-OkMeans s msg [] v empty room some_bytes good =
      refused-OkMeans s s msg again v room refl again-ne-ok
  after_send-OkMeans s msg (blocks ∷ rest) v empty room some_bytes good =
      refused-OkMeans s (record s { replies = rest }) msg again
        (record { fits = v.fits; counted = v.counted }) room refl again-ne-ok
  after_send-OkMeans s msg (fails f ∷ rest) v empty room some_bytes good =
      refused-OkMeans s (record s { replies = rest }) msg f
        (record { fits = v.fits; counted = v.counted }) room refl good.0
  after_send-OkMeans s msg (takes n ∷ rest) v empty room some_bytes good =
      taken-OkMeans s msg n rest v empty room some_bytes good.0

  send_first-OkMeans :
      (s : Session) (msg : List ℕ) (cs : List Chunk)
      → IsValid s
      → s.out ≡ cs
      → HasRoom s (length msg)
      → 0 < length msg
      → All IsReply s.replies
      → OkMeans s msg (send_first alloc mark s msg cs)
  unfolding socket_send
  send_first-OkMeans s msg [] v e room some_bytes good =
      after_send-OkMeans s msg s.replies v e room some_bytes good
  send_first-OkMeans s msg (c ∷ cs) v e room some_bytes good =
      flush_queued-OkMeans s s msg _ (λ t e'. appended alloc mark s t msg v room e')

  -- If `ztk_tcp_session_send` returns ZTK_OK, the message stands whole and in order behind everything
  -- that was sent before, part of it with the peer and the rest in the queue, which is well formed
  -- and counted. (The bytes that are queued with the message's are less than 2 ^ 64, so that the
  -- count does not wrap; the socket answers as operating systems do, with at least a byte or an
  -- error.)
  pub send-Accepted :
      (s t : Session) (msg : List ℕ)
      → IsValid s
      → HasRoom s (length msg)
      → All IsReply s.replies
      → send alloc mark s msg ≡ (ok, t)
      → Accepted s msg t
  unfolding send
  send-Accepted s t msg v room good e = elim (Bool-cases (s.closing || length msg == 0)) [
    | inl bad ↦ absurd (ground arith)
    | inr fine ↦
        let e' : send_first alloc mark s msg s.out ≡ (ok, t) = rw fine at e in
        let h : Accepted s msg (send_first alloc mark s msg s.out).1 =
          send_first-OkMeans s msg s.out v refl room (ground arith) good (ap (λ p. p.0) e') in
        subst (λ p. Accepted s msg p.1) e' h
  ]
