-- ===== src/Net/TcpSession/Stream.antt =====
-- src/net/tcp_server.c: the bytes in a session's queue, and what sending a part of them leaves.
use zero_tool_kit.Prelude.{
  ℕ, zero, suc, ◌+◌, ◌^◌, ◌-◌, ◌≤◌, ◌<◌, ◌≡◌, refl, false, List, [], ◌∷◌, ◌++◌, length, All, take,
  drop, leb, ◌==◌, arith, ap, ◌∙◌, sym, append_assoc, drop-nil, drop-append_le, drop-append_ge,
  drop-take, drop-drop, length-take, length-drop, length-append, Bool-cases, inl, inr,
}
use zero_tool_kit.Net.TcpSession.{Chunk, Session, chunk_view, advance_sent, gather, less}

-- The bytes that the queue holds, in order, and their number.
abbrev pub pending_bytes : List Chunk → List ℕ
pending_bytes [] = []
pending_bytes (c ∷ cs) = chunk_view c ++ pending_bytes cs

abbrev pub total : List Chunk → ℕ
total [] = 0
total (c ∷ cs) = c.len + total cs

-- The bytes that are queued, with so many more, can be counted by a size_t of 64 bits.
abbrev pub HasRoom : Session → ℕ → Type 0
HasRoom s n = total s.out + n < 2 ^ 64

-- What the peer has got and will get, if the queue is sent.
abbrev pub stream : Session → List ℕ
stream s = s.wire ++ pending_bytes s.out

-- A chunk lies inside its buffer and is not empty.
abbrev pub Fits : Chunk → Type 0
Fits c = (c.off + c.len ≤ length c.bytes) × (0 < c.len)

-- The chunks fit, and `out_pending` counts their bytes.
pub record IsValid (s : Session) : Type 0 where
  pub fits : All Fits s.out
  pub counted : s.out_pending ≡ total s.out

pub length-view : (c : Chunk) → Fits c → length (chunk_view c) ≡ c.len
length-view c f = omega (arith, length-take c.len (drop c.off c.bytes), length-drop c.off c.bytes)

pub length-pending_bytes : (cs : List Chunk) → All Fits cs → length (pending_bytes cs) ≡ total cs
length-pending_bytes [] f = refl
length-pending_bytes (c ∷ cs) f = omega (
  arith,
  length-view c f.0,
  length-pending_bytes cs f.1,
  length-append (chunk_view c) (pending_bytes cs),
)

-- The message of a send is the beginning of the queue's bytes.
pub gather_split :
    (n : ℕ) (cs : List Chunk)
    → All Fits cs
    → (rest : List ℕ) × (pending_bytes cs ≡ gather n cs ++ rest)
unfolding gather
gather_split zero cs f = (pending_bytes cs, refl)
gather_split (suc n) [] f = ([], refl)
gather_split (suc n) (c ∷ cs) f =
    let (rest, e) = gather_split n cs f.1 in
    let full : (c.len == 0) ≡ false = ground arith in
    (
      rest,
      rw full
          (ap (λ r. chunk_view c ++ r) e ∙ sym (append_assoc (chunk_view c) (gather n cs) rest)),
    )

rest_view :
    (c : Chunk) (skip : ℕ)
    → Fits c
    → skip ≤ c.len
    → take (c.len - skip) (drop (c.off + skip) c.bytes) ≡ drop skip (chunk_view c)
rest_view c skip f le =
    ap (take (c.len - skip)) (sym (drop-drop c.off skip c.bytes))
    ∙ sym (drop-take skip c.len (drop c.off c.bytes) le)

-- After `skip` bytes were sent the queue holds the others, fits, and is counted.
pub advance_sent_lem :
    (skip : ℕ) (cs : List Chunk) (pending : ℕ)
    → All Fits cs
    → pending ≡ total cs
    → let (cs', pending') = advance_sent skip cs pending in
      (pending_bytes cs' ≡ drop skip (pending_bytes cs)) × All Fits cs' × (pending' ≡ total cs')
unfolding advance_sent
advance_sent_lem skip [] pending f e = (sym (drop-nil skip), tt, e)
advance_sent_lem skip (c ∷ cs) pending f e = elim (Bool-cases (skip == 0)) [
  | inl none_sent ↦ let z : skip ≡ 0 = ground arith in rw none_sent (rw z refl, f, e)
  | inr some_sent ↦
      let full : (c.len == 0) ≡ false = ground arith in
      rw (some_sent, full)
        (elim (Bool-cases (leb c.len skip)) [
          | inl whole ↦
              let (bytes, fits, counted) =
                advance_sent_lem (skip - c.len) cs (less pending c.len) f.1 (ground arith) in
              rw whole (
                bytes
                    ∙ sym (
                        drop-append_ge skip (chunk_view c) (pending_bytes cs)
                          (ground (arith, length-view c f.0))
                        ∙ ap (λ k. drop (skip - k) (pending_bytes cs)) (length-view c f.0)),
                fits,
                counted,
              )
          | inr part ↦ rw part (
            ap (λ r. r ++ pending_bytes cs) (rest_view c skip f.0 (ground arith))
                ∙ sym (
                    drop-append_le skip (chunk_view c) (pending_bytes cs)
                      (ground (arith, length-view c f.0))),
            (ground arith, f.1),
            ground arith,
          )
        ])
]
