-- ===== src/Net/TcpSession/SendBuf.antt =====
-- src/net/tcp_server.c: sending a buffer without a copy.
use zero_tool_kit.Prelude.{
  ℕ, ◌-◌, ◌<◌, ◌≡◌, ◌≢◌, refl, min, Bool, true, false, some, List, [], ◌∷◌, ◌++◌, length, All, take,
  drop, ◌==◌, if◌then◌else◌, arith, ap, ◌∙◌, sym, append-nil, take_all, take-min, length-drop,
  Bool-cases, inl, inr,
}
use mathlib.Core.Path.{subst}
use zero_tool_kit.Errno.{Err, ok, invalid, again}
use zero_tool_kit.Net.TcpSession.{
  Chunk, Session, Reply, takes, blocks, fails, sent, refused, socket_send, answer, out_enqueue,
  chunk_view, queue_rest, after_send_buf, send_buf_first, send_buf,
}
use zero_tool_kit.Net.TcpSession.Stream.{stream, IsValid, HasRoom}
use zero_tool_kit.Net.TcpSession.Queue.{Accepted, appended, out_enqueue-Accepted}
use zero_tool_kit.Net.TcpSession.Send.{
  IsReply, OkMeans, flush_queued-OkMeans, keep_queued-OkMeans, sent-Accepted, queued_rest,
  again-ne-ok,
}

module _ (alloc : ℕ → Bool) (mark : ℕ) where
  queue_rest-Accepted :
      (s t : Session) (buf : List ℕ) (k : ℕ)
      → IsValid s
      → k < length buf
      → HasRoom s (length buf)
      → queue_rest alloc mark s buf k ≡ some t
      → Accepted s (drop k buf) t
  queue_rest-Accepted s t buf k v inside room e = elim (Bool-cases (alloc (length buf))) [
    | inr no_memory ↦ absurd (ground arith)
    | inl memory ↦
        let c : Chunk = record { bytes = buf; off = k; len = length buf - k } in
        let made : some (out_enqueue mark s c) ≡ some t = rw memory at e in
        let q : out_enqueue mark s c ≡ t = cc in
        let whole : chunk_view c ≡ drop k buf =
          take_all (length buf - k) (drop k buf) (omega (arith, length-drop k buf)) in
        subst (λ r. Accepted s (drop k buf) r) q
          (subst (λ r. Accepted s r (out_enqueue mark s c)) whole
            (out_enqueue-Accepted mark s c v (omega arith, omega arith) (omega arith)))
  ]

  refused_buf-OkMeans :
      (s s' : Session) (buf : List ℕ) (e : Err)
      → IsValid s'
      → HasRoom s' (length buf)
      → stream s' ≡ stream s
      → e ≢ ok
      → OkMeans s buf (after_send_buf alloc mark buf (refused e, s'))
  refused_buf-OkMeans s s' buf ok v room same h = absurd (h refl)
  refused_buf-OkMeans s s' buf again v room same h = keep_queued-OkMeans s s' buf _ (λ t e.
      let a = appended alloc mark s' t buf v room e in
      record { valid = a.valid; added = a.added ∙ ap (λ r. r ++ buf) same })
  refused_buf-OkMeans s s' buf _ v room same h = λ e. cc

  taken_buf-OkMeans :
      (s : Session) (buf : List ℕ) (n : ℕ) (rest : List Reply)
      → IsValid s
      → s.out ≡ []
      → HasRoom s (length buf)
      → 0 < length buf
      → 0 < n
      → OkMeans s buf (
          after_send_buf alloc mark buf
            (sent (min n (length buf)), record s { wire = s.wire ++ take n buf; replies = rest }))
  taken_buf-OkMeans s buf n rest v empty room some_bytes pos =
      elim (Bool-cases (min n (length buf) == length buf)) [
        | inl whole ↦
            let all : take n buf ≡ buf = take_all n buf (ground arith) in
            rw whole (λ _. subst (λ r. Accepted s r t) all here)
        | inr part ↦
            let some_taken : (min n (length buf) == 0) ≡ false = ground arith in
            rw (part, some_taken)
              (flush_queued-OkMeans s t buf _ (λ u e.
                queued_rest s t u buf (min n (length buf))
                  (subst (λ r. Accepted s r t) (take-min n buf) here)
                  (queue_rest-Accepted t u buf (min n (length buf)) here.valid (ground arith) room
                    e)))
      ]
    where
      t : Session
      t = record s { wire = s.wire ++ take n buf; replies = rest }

      here : Accepted s (take n buf) t
      here = sent-Accepted s buf n rest v empty

  answered-OkMeans :
      (s : Session) (buf : List ℕ) (rs : List Reply)
      → IsValid s
      → s.out ≡ []
      → HasRoom s (length buf)
      → 0 < length buf
      → All IsReply rs
      → OkMeans s buf (after_send_buf alloc mark buf (answer s buf rs))
  answered-OkMeans s buf [] v empty room some_bytes good =
      refused_buf-OkMeans s s buf again v room refl (again-ne-ok alloc mark)
  answered-OkMeans s buf (blocks ∷ rest) v empty room some_bytes good =
      refused_buf-OkMeans s (record s { replies = rest }) buf again
        (record { fits = v.fits; counted = v.counted }) room refl (again-ne-ok alloc mark)
  answered-OkMeans s buf (fails f ∷ rest) v empty room some_bytes good =
      refused_buf-OkMeans s (record s { replies = rest }) buf f
        (record { fits = v.fits; counted = v.counted }) room refl good.0
  answered-OkMeans s buf (takes n ∷ rest) v empty room some_bytes good =
      taken_buf-OkMeans s buf n rest v empty room some_bytes good.0

  send_buf_first-OkMeans :
      (s : Session) (buf : List ℕ) (cs : List Chunk)
      → IsValid s
      → s.out ≡ cs
      → HasRoom s (length buf)
      → 0 < length buf
      → All IsReply s.replies
      → OkMeans s buf (send_buf_first alloc mark s buf cs)
  unfolding socket_send
  send_buf_first-OkMeans s buf [] v e room some_bytes good =
      answered-OkMeans s buf s.replies v e room some_bytes good
  send_buf_first-OkMeans s buf (c ∷ cs) v e room some_bytes good =
      flush_queued-OkMeans s s buf _ (λ t e'. appended alloc mark s t buf v room e')

  -- A result that is ZTK_OK did not come from the guard.
  past_guard :
      (closed : Bool) (p : Err × Session) (s t : Session)
      → (if closed then (invalid, s) else p) ≡ (ok, t)
      → p ≡ (ok, t)
  past_guard true p s t e = absurd (ground arith)
  past_guard false p s t e = e

  -- If `ztk_tcp_session_send_buf` returns ZTK_OK, the buffer's bytes stand whole and in order behind
  -- everything that was sent before, and the queue is well formed and counted. (The bytes that are
  -- queued with the buffer's are less than 2 ^ 64, so that the count does not wrap; the socket
  -- answers with at least a byte or an error.)
  pub send_buf-Accepted :
      (s t : Session) (buf : List ℕ)
      → IsValid s
      → HasRoom s (length buf)
      → All IsReply s.replies
      → send_buf alloc mark s buf ≡ (ok, t)
      → Accepted s buf t
  unfolding send_buf
  send_buf-Accepted s t [] v room good e =
      subst (λ p. Accepted s [] p.1) (past_guard s.closing (ok, s) s t e)
        (record { valid = v; added = sym (append-nil (stream s)) })
  send_buf-Accepted s t (b ∷ bs) v room good e =
      let p : Err × Session = send_buf_first alloc mark s (b ∷ bs) s.out in
      let full : (length (b ∷ bs) == 0) ≡ false = ground arith in
      let e' : p ≡ (ok, t) = rw full at (past_guard s.closing _ s t e) in
      let h : OkMeans s (b ∷ bs) p =
        send_buf_first-OkMeans s (b ∷ bs) s.out v refl room (omega arith) good in
      subst (λ p. Accepted s (b ∷ bs) p.1) e' (h (ap (λ p. p.0) e'))
