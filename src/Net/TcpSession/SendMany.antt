-- ===== src/Net/TcpSession/SendMany.antt =====
-- src/net/tcp_server.c: sending several parts at once.
use zero_tool_kit.Prelude.{
  ℕ, ◌-◌, ◌<◌, ◌≡◌, ◌≢◌, refl, min, Bool, true, false, ◌||◌, List, [], ◌∷◌, ◌++◌, length, All, take,
  drop, leb, ◌==◌, arith, ap, ◌∙◌, sym, append-nil, take_all, take-min, drop-append_le,
  drop-append_ge, Option-cases, drop-nil, leb→le, take-min, length-append, length-drop, Bool-cases,
  inl, inr,
}
use mathlib.Core.Path.{subst}
use zero_tool_kit.Errno.{Err, ok, again}
use zero_tool_kit.Net.TcpSession.{
  Chunk, Session, Reply, takes, blocks, fails, sent, refused, socket_send, answer, out_append_mem,
  out_flush, any_empty, joined, append_parts, append_after, flush_parts, keep_parts, after_sendv,
  sendv_first, sendv, iov_max,
}
use zero_tool_kit.Net.TcpSession.Stream.{stream, IsValid, HasRoom}
use zero_tool_kit.Net.TcpSession.Flush.{out_flush-Kept}
use zero_tool_kit.Net.TcpSession.Queue.{Accepted, appended, appended_total}
use zero_tool_kit.Net.TcpSession.Send.{
  IsReply, OkMeans, Accepted-Kept, Accepted-trans, sent-Accepted, queued_rest, again-ne-ok,
}

-- If every part was queued, all their bytes are accepted.
abbrev PartsMean : Session → List ℕ → Bool × Session → Type 0
PartsMean s msg p = p.0 ≡ true → Accepted s msg p.1

module _ (alloc : ℕ → Bool) (mark : ℕ) where
  append_parts-lem :
      (s : Session) (parts : List (List ℕ))
      → IsValid s
      → HasRoom s (length (joined alloc mark parts))
      → PartsMean s (joined alloc mark parts) (append_parts alloc mark s parts)
  unfolding append_parts
  append_parts-lem s [] v room = λ _. record { valid = v; added = sym (append-nil (stream s)) }
  append_parts-lem s (part ∷ parts) v room =
      elim (Option-cases (out_append_mem alloc mark s part)) [
        | inl failed ↦ rw (failed, append_parts) (λ e. cc)
        | inr (s', got) ↦
            let whole = length-append part (joined alloc mark parts) in
            let a = appended alloc mark s s' part v (omega (arith, whole)) got in
            let ih =
              append_parts-lem s' parts a.valid
                (omega (arith, whole, appended_total alloc mark s s' part got)) in
            rw (got, append_parts)
              (λ e. Accepted-trans s s' _ part (joined alloc mark parts) a (ih e))
      ]

  append_after-lem :
      (skip : ℕ) (s : Session) (parts : List (List ℕ))
      → IsValid s
      → HasRoom s (length (joined alloc mark parts))
      → PartsMean s (drop skip (joined alloc mark parts)) (append_after alloc mark skip s parts)
  unfolding append_after
  append_after-lem skip s [] v room =
      λ _. record { valid = v; added = rw (drop-nil {A = ℕ} skip) (sym (append-nil (stream s))) }
  append_after-lem skip s (part ∷ parts) v room = elim (Bool-cases (leb (length part) skip)) [
    | inl whole ↦
        rw (whole, drop-append_ge skip part (joined alloc mark parts) (leb→le _ _ whole))
          (append_after-lem (skip - length part) s parts v
            (omega (arith, length-append part (joined alloc mark parts))))
    | inr cut ↦
        rw (cut, drop-append_le skip part (joined alloc mark parts) (ground arith))
          (append_parts-lem s (drop skip part ∷ parts) v (
            omega (
              arith,
              length-append part (joined alloc mark parts),
              length-append (drop skip part) (joined alloc mark parts),
              length-drop skip part,
            )))
  ]

  flush_parts-OkMeans :
      (s : Session) (msg : List ℕ) (p : Bool × Session)
      → PartsMean s msg p
      → OkMeans s msg (flush_parts alloc mark p)
  flush_parts-OkMeans s msg (false, t) h = λ e. cc
  flush_parts-OkMeans s msg (true, t) h =
      λ _. Accepted-Kept s t (out_flush t) msg (h refl) (out_flush-Kept t (h refl).valid)

  keep_parts-OkMeans :
      (s : Session) (msg : List ℕ) (p : Bool × Session)
      → PartsMean s msg p
      → OkMeans s msg (keep_parts alloc mark p)
  keep_parts-OkMeans s msg (false, t) h = λ e. cc
  keep_parts-OkMeans s msg (true, t) h = λ _. h refl

  PartsMean-base :
      (s s' : Session) (msg : List ℕ) (p : Bool × Session)
      → stream s' ≡ stream s
      → PartsMean s' msg p
      → PartsMean s msg p
  PartsMean-base s s' msg p same h =
      λ e. record { valid = (h e).valid; added = (h e).added ∙ ap (λ r. r ++ msg) same }

  refused-OkMeans :
      (s s' : Session) (parts : List (List ℕ)) (e : Err)
      → IsValid s'
      → HasRoom s' (length (joined alloc mark parts))
      → stream s' ≡ stream s
      → e ≢ ok
      → OkMeans s (joined alloc mark parts) (after_sendv alloc mark parts (refused e, s'))
  refused-OkMeans s s' parts ok v room same h = absurd (h refl)
  refused-OkMeans s s' parts again v room same h =
      keep_parts-OkMeans s (joined alloc mark parts) (append_parts alloc mark s' parts)
        (PartsMean-base s s' _ _ same (append_parts-lem s' parts v room))
  refused-OkMeans s s' parts _ v room same h = λ e. cc

  taken-OkMeans :
      (s : Session) (parts : List (List ℕ)) (n : ℕ) (rest : List Reply)
      → IsValid s
      → s.out ≡ []
      → HasRoom s (length (joined alloc mark parts))
      → 0 < length (joined alloc mark parts)
      → 0 < n
      → let msg = joined alloc mark parts in
        OkMeans s msg (
          after_sendv alloc mark parts
            (sent (min n (length msg)), record s { wire = s.wire ++ take n msg; replies = rest }))
  taken-OkMeans s parts n rest v empty room some_bytes pos =
      elim (Bool-cases (min n (length msg) == length msg)) [
        | inl whole ↦
            let all : take n msg ≡ msg = take_all n msg (ground arith) in
            rw whole (λ _. subst (λ r. Accepted s r t) all here)
        | inr part ↦
            let some_taken : (min n (length msg) == 0) ≡ false = ground arith in
            let k = min n (length msg) in
            rw (part, some_taken)
              (flush_parts-OkMeans s msg (append_after alloc mark k t parts) (λ e.
                queued_rest s t _ msg k (subst (λ r. Accepted s r t) (take-min n msg) here)
                  (append_after-lem k t parts here.valid room e)))
      ]
    where
      msg : List ℕ
      msg = joined alloc mark parts

      t : Session
      t = record s { wire = s.wire ++ take n msg; replies = rest }

      here : Accepted s (take n msg) t
      here = sent-Accepted s msg n rest v empty

  after_sendv-OkMeans :
      (s : Session) (parts : List (List ℕ)) (rs : List Reply)
      → IsValid s
      → s.out ≡ []
      → HasRoom s (length (joined alloc mark parts))
      → 0 < length (joined alloc mark parts)
      → All IsReply rs
      → OkMeans s
          (joined alloc mark parts)
          (after_sendv alloc mark parts (answer s (joined alloc mark parts) rs))
  after_sendv-OkMeans s parts [] v empty room some_bytes good =
      refused-OkMeans s s parts again v room refl (again-ne-ok alloc mark)
  after_sendv-OkMeans s parts (blocks ∷ rest) v empty room some_bytes good =
      refused-OkMeans s (record s { replies = rest }) parts again
        (record { fits = v.fits; counted = v.counted }) room refl (again-ne-ok alloc mark)
  after_sendv-OkMeans s parts (fails f ∷ rest) v empty room some_bytes good =
      refused-OkMeans s (record s { replies = rest }) parts f
        (record { fits = v.fits; counted = v.counted }) room refl good.0
  after_sendv-OkMeans s parts (takes n ∷ rest) v empty room some_bytes good =
      taken-OkMeans s parts n rest v empty room some_bytes good.0

  sendv_first-OkMeans :
      (s : Session) (parts : List (List ℕ)) (cs : List Chunk)
      → IsValid s
      → s.out ≡ cs
      → HasRoom s (length (joined alloc mark parts))
      → 0 < length (joined alloc mark parts)
      → All IsReply s.replies
      → OkMeans s (joined alloc mark parts) (sendv_first alloc mark s parts cs)
  unfolding socket_send
  sendv_first-OkMeans s parts [] v e room some_bytes good =
      after_sendv-OkMeans s parts s.replies v e room some_bytes good
  sendv_first-OkMeans s parts (c ∷ cs) v e room some_bytes good =
      flush_parts-OkMeans s _ (append_parts alloc mark s parts) (append_parts-lem s parts v room)

  joined_some :
      (parts : List (List ℕ))
      → (length parts == 0) ≡ false
      → any_empty alloc mark (take iov_max parts) ≡ false
      → 0 < length (joined alloc mark (take iov_max parts))
  joined_some [] h f = absurd (ground arith)
  joined_some (part ∷ parts) h f =
      ground (arith, length-append part (joined alloc mark (take 15 parts)))

  -- If `ztk_tcp_session_sendv` returns ZTK_OK, the bytes of the first 16 parts, and of no later part,
  -- stand whole and in order behind everything that was sent before, and the queue is well formed
  -- and counted. (The bytes that are queued with those of the parts are less than 2 ^ 64, so that the
  -- count does not wrap; the socket answers with at least a byte or an error.)
  pub sendv-Accepted :
      (s t : Session) (parts : List (List ℕ))
      → IsValid s
      → HasRoom s (length (joined alloc mark (take iov_max parts)))
      → All IsReply s.replies
      → sendv alloc mark s parts ≡ (ok, t)
      → Accepted s (joined alloc mark (take iov_max parts)) t
  unfolding sendv
  sendv-Accepted s t parts v room good e =
      elim (Bool-cases
        (s.closing || length parts == 0 || any_empty alloc mark (take iov_max parts))) [
          | inl bad ↦ absurd (ground arith)
          | inr fine ↦
              let e' : sendv_first alloc mark s (take iov_max parts) s.out ≡ (ok, t) =
                rw fine at e in
              let h : OkMeans s (joined alloc mark (take iov_max parts))
                  (sendv_first alloc mark s (take iov_max parts) s.out) =
                sendv_first-OkMeans s (take iov_max parts) s.out v refl room
                  (joined_some parts (ground arith) (ground arith)) good in
              subst (λ p. Accepted s (joined alloc mark (take iov_max parts)) p.1) e'
                (h (ap (λ p. p.0) e'))
        ]
