-- ===== src/Net/TcpSession/Queue.antt =====
-- src/net/tcp_server.c: `session_out_enqueue` and the appending of a buffer to a session's queue.
use zero_tool_kit.Prelude.{
  ℕ, ◌+◌, ◌≡◌, Bool, false, Option, none, some, List, [], ◌∷◌, ◌++◌, length, ◌==◌, arith, ap, ◌∙◌,
  sym, append_assoc, append-nil, take_all, Bool-cases, u64, inl, inr, All-append,
}
use mathlib.Core.Path.{subst}
use zero_tool_kit.Net.TcpSession.{
  Chunk, Session, out_enqueue, check_highwater, out_append_buf, chunk_view,
}
use zero_tool_kit.Net.TcpSession.Stream.{pending_bytes, total, stream, Fits, IsValid, HasRoom}

-- `t` is `s` with `msg` at the end of its stream.
pub record Accepted (s : Session) (msg : List ℕ) (t : Session) : Type 0 where
  pub valid : IsValid t
  pub added : stream t ≡ stream s ++ msg

pending_bytes-append :
    (cs : List Chunk) (c : Chunk)
    → pending_bytes (cs ++ (c ∷ [])) ≡ pending_bytes cs ++ chunk_view c
pending_bytes-append [] c = append-nil (chunk_view c)
pending_bytes-append (d ∷ cs) c =
    ap (λ r. chunk_view d ++ r) (pending_bytes-append cs c)
    ∙ sym (append_assoc (chunk_view d) (pending_bytes cs) (chunk_view c))

total-append : (cs : List Chunk) (c : Chunk) → total (cs ++ (c ∷ [])) ≡ total cs + c.len
total-append [] c = omega arith
total-append (d ∷ cs) c = omega (arith, total-append cs c)

check_highwater_lem :
    (mark : ℕ) (s : Session)
    → ((check_highwater mark s).out ≡ s.out)
      × ((check_highwater mark s).out_pending ≡ s.out_pending)
      × ((check_highwater mark s).wire ≡ s.wire)
check_highwater_lem mark s = ground arith

pub out_enqueue-Accepted :
    (mark : ℕ) (s : Session) (c : Chunk)
    → IsValid s
    → Fits c
    → HasRoom s c.len
    → Accepted s (chunk_view c) (out_enqueue mark s c)
unfolding out_enqueue
out_enqueue-Accepted mark s c v f room =
    let q = record s { out = s.out ++ (c ∷ []); out_pending = u64 (s.out_pending + c.len) } in
    let (out, pending, wire) = check_highwater_lem mark q in
    record {
      valid = record {
        fits = rw out (All-append Fits s.out (c ∷ []) v.fits (f, tt));
        counted = rw (pending, out) (omega (arith, total-append s.out c, v.counted));
      };
      added =
          rw (wire, out)
            (ap (λ r. s.wire ++ r) (pending_bytes-append s.out c)
              ∙ sym (append_assoc s.wire (pending_bytes s.out) (chunk_view c)));
    }

-- What appending a buffer adds to the queue.
pub appended_total :
    (alloc : ℕ → Bool) (mark : ℕ) (s t : Session) (buf : List ℕ)
    → out_append_buf alloc mark s buf ≡ some t
    → total t.out ≡ total s.out + length buf
unfolding out_append_buf out_enqueue
appended_total alloc mark s t [] e = ground arith
appended_total alloc mark s t (b ∷ bs) e = elim (Bool-cases (alloc (length (b ∷ bs)))) [
  | inr no_memory ↦ absurd (ground arith)
  | inl memory ↦
      let buf : List ℕ = b ∷ bs in
      let full : (length buf == 0) ≡ false = ground arith in
      let c : Chunk = record { bytes = buf; off = 0; len = length buf } in
      let q = record s {
        out = s.out ++ (c ∷ []);
        out_pending = u64 (s.out_pending + length buf);
      } in
      let made : some (check_highwater mark q) ≡ some t = rw (full, memory) at e in
      let same : check_highwater mark q ≡ t = cc in
      ap (λ r. total r.out) (sym same)
      ∙ ap total (check_highwater_lem mark q).0
      ∙ total-append s.out c
]

-- What appending a buffer may return.
abbrev AppendedOr : Session → List ℕ → Option Session → Type 0
AppendedOr s buf none = Unit {0}
AppendedOr s buf (some t) = Accepted s buf t

out_append_buf_lem :
    (alloc : ℕ → Bool) (mark : ℕ) (s : Session) (buf : List ℕ)
    → IsValid s
    → HasRoom s (length buf)
    → AppendedOr s buf (out_append_buf alloc mark s buf)
unfolding out_append_buf
out_append_buf_lem alloc mark s [] v room = record {
  valid = v;
  added = sym (append-nil (stream s));
}
out_append_buf_lem alloc mark s (b ∷ bs) v room = elim (Bool-cases (alloc (length (b ∷ bs)))) [
  | inr no_memory ↦
      let full : (length (b ∷ bs) == 0) ≡ false = ground arith in rw (full, no_memory) tt
  | inl memory ↦
      let buf : List ℕ = b ∷ bs in
      let full : (length buf == 0) ≡ false = ground arith in
      let c : Chunk = record { bytes = buf; off = 0; len = length buf } in
      let whole : chunk_view c ≡ buf = take_all (length buf) buf (omega arith) in
      rw (full, memory)
        (subst (λ r. Accepted s r (out_enqueue mark s c)) whole
          (out_enqueue-Accepted mark s c v (omega arith) room))
]

pub appended :
    (alloc : ℕ → Bool) (mark : ℕ) (s t : Session) (buf : List ℕ)
    → IsValid s
    → HasRoom s (length buf)
    → out_append_buf alloc mark s buf ≡ some t
    → Accepted s buf t
appended alloc mark s t buf v room e =
    subst (AppendedOr s buf) e (out_append_buf_lem alloc mark s buf v room)
