-- ===== src/Net/TcpSession/Flush.antt =====
-- src/net/tcp_server.c: `session_out_flush`.
use zero_tool_kit.Prelude.{
  ℕ, zero, suc, ◌+◌, length-append, length-drop, ◌<◌, ◌≡◌, ◌≢◌, ◌⊎◌, refl, min, false, List, [],
  ◌∷◌, ◌++◌, length, All, take, drop, ◌==◌, arith, ap, ◌∙◌, sym, append_assoc, append-nil,
  take-append_le, take-append-drop, take-min,
}
use mathlib.Core.Path.{subst}
use zero_tool_kit.Net.TcpSession.{
  Chunk, Session, Reply, takes, blocks, fails, sent, Ended, drained, stuck, no_fuel, socket_send,
  answer, advance_sent, gather, advanced, iov_max, flush_round, flush_step, flush_loop, flush_fuel,
  out_flush,
}
use zero_tool_kit.Net.TcpSession.Stream.{
  pending_bytes, total, stream, Fits, IsValid, gather_split, advance_sent_lem, length-pending_bytes,
}

-- `s'` has the stream of `s`, is valid, and has got no new answers, chunks or alarms.
pub record Kept (s s' : Session) : Type 0 where
  pub valid : IsValid s'
  pub same : stream s' ≡ stream s
  pub closing : s'.closing ≡ s.closing
  pub alarms : s'.alarms ≡ s.alarms

Kept-self : (s : Session) → IsValid s → Kept s s
Kept-self s v = record { valid = v; same = refl; closing = refl; alarms = refl }

Kept-trans : (s t u : Session) → Kept s t → Kept t u → Kept s u
Kept-trans s t u p q = record {
  valid = q.valid;
  same = q.same ∙ p.same;
  closing = q.closing ∙ p.closing;
  alarms = q.alarms ∙ p.alarms;
}

-- Sending `n` bytes of the gathered message moves them from the queue to the wire.
sent-Kept :
    (s : Session) (n : ℕ) (rest : List Reply)
    → IsValid s
    → let m = min n (length (gather iov_max s.out)) in
      Kept s
        (advanced (record s { wire = s.wire ++ take n (gather iov_max s.out); replies = rest }) m)
sent-Kept s n rest v = record {
  valid = record { fits = moved.1; counted = moved.2 };
  same =
      ap (λ r. (s.wire ++ take n msg) ++ r) moved.0
      ∙ append_assoc s.wire (take n msg) (drop m (pending_bytes s.out))
      ∙ ap (λ r. s.wire ++ (r ++ drop m (pending_bytes s.out))) taken
      ∙ ap (λ r. s.wire ++ r) (take-append-drop m (pending_bytes s.out));
  closing = refl;
  alarms = refl;
}
  where
    msg : List ℕ
    msg = gather iov_max s.out

    m : ℕ
    m = min n (length msg)

    moved :
        let (cs, pending) = advance_sent m s.out s.out_pending in
        (pending_bytes cs ≡ drop m (pending_bytes s.out)) × All Fits cs × (pending ≡ total cs)
    moved = advance_sent_lem m s.out s.out_pending v.fits v.counted

    split : (r : List ℕ) × (pending_bytes s.out ≡ msg ++ r)
    split = gather_split iov_max s.out v.fits

    taken : take n msg ≡ take m (pending_bytes s.out)
    taken =
        take-min n msg
        ∙ sym (take-append_le m msg split.0 (omega arith))
        ∙ ap (take m) (sym split.1)

-- What is sent is not queued any more.
sent-total :
    (s : Session) (n : ℕ)
    → IsValid s
    → let m = min n (length (gather iov_max s.out)) in total (advanced s m).out + m ≡ total s.out
sent-total s n v =
    let m = min n (length (gather iov_max s.out)) in
    let (bytes, fits, counted) = advance_sent_lem m s.out s.out_pending v.fits v.counted in
    let (rest, split) = gather_split iov_max s.out v.fits in
    omega (
      arith,
      length-pending_bytes s.out v.fits,
      length-pending_bytes (advanced s m).out fits,
      ap (length {A = ℕ}) bytes,
      ap (length {A = ℕ}) split,
      length-drop m (pending_bytes s.out),
      length-append (gather iov_max s.out) rest,
    )

-- What a loop from `s` may end with.
abbrev EndsWell : Session → Ended × Session → Type 0
EndsWell s p = Kept s p.1 × (p.0 ≢ no_fuel) × (p.0 ≡ drained → p.1.out ≡ [])

drained-ne-no_fuel : drained ≢ no_fuel
drained-ne-no_fuel e = cc

stuck-ne-no_fuel : stuck ≢ no_fuel
stuck-ne-no_fuel e = cc

stuck-EndsWell : (s t : Session) → Kept s t → EndsWell s (stuck, t)
stuck-EndsWell s t k = (k, stuck-ne-no_fuel, λ e. cc)

-- The loop with enough fuel.
flush_loop_lem :
    (fuel : ℕ) (s : Session) → total s.out < fuel → IsValid s → EndsWell s (flush_loop fuel s)
unfolding flush_loop socket_send
flush_loop_lem zero s le v = absurd (omega arith)
flush_loop_lem (suc fuel) s le v = at_queue (flush_loop_lem fuel) s.out refl
  where
    Below : Type 0
    Below = (t : Session) → total t.out < fuel → IsValid t → EndsWell t (flush_loop fuel t)

    msg : List ℕ
    msg = gather iov_max s.out

    took :
        Below
        → (n : ℕ) (rest : List Reply) (k : ℕ) → s.replies ≡ takes n ∷ rest
        → min n (length msg) ≡ k
        → EndsWell s (
            flush_round
              (λ s'. flush_loop fuel s')
              (sent k, record s { wire = s.wire ++ take n msg; replies = rest }))
    took ih n rest zero e q =
        let nothing : take n msg ≡ [] = take-min n msg ∙ ap (λ k. take k msg) q in
        stuck-EndsWell s _ (record {
          valid = record { fits = v.fits; counted = v.counted };
          same =
              ap (λ r. (s.wire ++ r) ++ pending_bytes s.out) nothing
              ∙ ap (λ r. r ++ pending_bytes s.out) (append-nil s.wire);
          closing = refl;
          alarms = refl;
        })
    took ih n rest (suc k) e q =
        let t = record s { wire = s.wire ++ take n msg; replies = rest } in
        let kept : Kept s (advanced t (suc k)) =
          subst (λ j. Kept s (advanced t j)) q (sent-Kept s n rest v) in
        let shorter : total (advanced t (suc k)).out < fuel =
          omega (arith, q, sent-total s n v, ap (λ j. total (advanced s j).out) q) in
        let (kept', ends, empty) = ih (advanced t (suc k)) shorter kept.valid in
        (Kept-trans s _ _ kept kept', ends, empty)

    at_reply :
        Below
        → (rs : List Reply) → s.replies ≡ rs
        → EndsWell s (flush_round (λ s'. flush_loop fuel s') (answer s msg rs))
    at_reply ih [] e = stuck-EndsWell s s (Kept-self s v)
    at_reply ih (takes n ∷ rest) e = took ih n rest (min n (length msg)) e refl
    at_reply ih (blocks ∷ rest) e = stuck-EndsWell s _ (record {
      valid = record { fits = v.fits; counted = v.counted };
      same = refl;
      closing = refl;
      alarms = refl;
    })
    at_reply ih (fails f ∷ rest) e = stuck-EndsWell s _ (record {
      valid = record { fits = v.fits; counted = v.counted };
      same = refl;
      closing = refl;
      alarms = refl;
    })

    at_queue :
        Below
        → (cs : List Chunk) → s.out ≡ cs
        → EndsWell s (flush_step (λ s'. flush_loop fuel s') s cs)
    at_queue ih [] e = (Kept-self s v, drained-ne-no_fuel, λ _. e)
    at_queue ih (c ∷ cs) e =
        let full : (c.len == 0) ≡ false = ground (arith, subst (All Fits) e v.fits) in
        rw full (at_reply ih s.replies refl)

-- A flush ends, whatever the socket answers and however long it goes on answering: any number of
-- rounds that is larger than the number of bytes in the queue is enough, the fuel of `out_flush` is
-- such a number, and then the queue is empty or the socket took nothing more.
pub flush_ends :
    (s : Session) (fuel : ℕ)
    → IsValid s
    → total s.out < fuel
    → (total s.out < flush_fuel s)
      × (((flush_loop fuel s).0 ≡ stuck)
          ⊎ (((flush_loop fuel s).0 ≡ drained) × ((flush_loop fuel s).1.out ≡ [])))
flush_ends s fuel v le = (omega (arith, v.counted), ground (arith, flush_loop_lem fuel s le v))

-- A flush neither loses, nor repeats, nor reorders a byte: what the peer has got, with what is
-- still queued behind it, is the same before and after, whatever the socket answers; and the queue
-- stays well formed and counted.
pub out_flush-Kept : (s : Session) → IsValid s → Kept s (out_flush s)
unfolding out_flush
out_flush-Kept s v = (flush_loop_lem (flush_fuel s) s (omega (arith, v.counted)) v).0
