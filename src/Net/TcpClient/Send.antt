-- ===== src/Net/TcpClient/Send.antt =====
-- src/net/tcp_client.c: the loop of `ztk_tcp_client_send`.
use zero_tool_kit.Prelude.{
  ℕ, zero, suc, ◌+◌, ◌-◌, ◌*◌, ◌<◌, ◌≤◌, ◌≡◌, ◌≢◌, ◌⊎◌, inl, inr, refl, sym, ap, ◌∙◌, true, false,
  not, ◌||◌, none, some, List, [], ◌∷◌, ◌++◌, length, take, drop, take-append-drop, length-drop,
  append-nil, append_assoc, leb, ◌==◌, arith, Bool-cases,
}
use zero_tool_kit.Errno.{ok}
use zero_tool_kit.Net.TcpSession.{Reply, takes, blocks, fails}
use zero_tool_kit.Net.TcpClient.{Client, Ended, send_step, send_loop, send}

-- Nothing is lost or reordered, and ZTK_OK is said only of a whole message.
abbrev pub IsSplit : List ℕ → Ended → Type 0
IsSplit msg e = (e.wire ++ e.left ≡ msg) × (e.status ≡ some ok → e.left ≡ [])

send_step-IsSplit :
    (more : List ℕ → List ℕ → ℕ → Ended) (r : Reply) (wire left : List ℕ) (spin : ℕ) {msg : List ℕ}
    → ((wire' left' : List ℕ) (spin' : ℕ)
        → wire' ++ left' ≡ msg
        → IsSplit msg (more wire' left' spin'))
    → r ≢ fails ok
    → wire ++ left ≡ msg
    → IsSplit msg (send_step more r wire left spin)
send_step-IsSplit more (takes n) wire left spin go honest e = elim (Bool-cases (n == 0)) [
  | inl nothing ↦ rw nothing (e, λ h. absurd cc)
  | inr some_bytes ↦ rw some_bytes (
      go (wire ++ take n left) (drop n left) 0
        (append_assoc wire _ _ ∙ ap (λ l. wire ++ l) (take-append-drop n left) ∙ e))
]
send_step-IsSplit more blocks wire left spin go honest e = elim (Bool-cases (leb 64 spin)) [
  | inl last ↦ rw last (e, λ h. absurd cc)
  | inr again_one ↦ rw again_one (go wire left (spin + 1) e)
]
send_step-IsSplit more (fails err) wire left spin go honest e =
    (e, λ h. let same : err ≡ ok = cc in absurd (honest (ap fails same)))

send_loop-IsSplit :
    (fuel : ℕ) (replies : ℕ → Reply) (k : ℕ) (wire left : List ℕ) (spin : ℕ) {msg : List ℕ}
    → ((j : ℕ) → replies j ≢ fails ok)
    → wire ++ left ≡ msg
    → IsSplit msg (send_loop fuel replies k wire left spin)
unfolding send_loop
send_loop-IsSplit fuel replies k wire [] spin honest e = (e, λ h. refl)
send_loop-IsSplit zero replies k wire (x ∷ left) spin honest e = (e, λ h. absurd cc)
send_loop-IsSplit (suc fuel) replies k wire (x ∷ left) spin honest e =
    send_step-IsSplit (send_loop fuel replies (k + 1)) (replies k) wire (x ∷ left) spin
      (λ wire' left' spin' e'. send_loop-IsSplit fuel replies (k + 1) wire' left' spin' honest e')
      (honest k) e

-- A socket that always takes something sooner than 65 answers ZTK_ERR_AGAIN in a row, and never fails.
pub record IsWilling (replies : ℕ → Reply) : Type 0 where
  pub no_failure : (k : ℕ) → (replies k ≡ blocks) ⊎ ((n : ℕ) × (replies k ≡ takes (n + 1)))
  pub soon : (k : ℕ) → (j : ℕ) × (j ≤ 64) × (replies (k + j) ≢ blocks)

-- A round that is not the last takes bytes or uses one of the 64 spins.
send_step-sends :
    (more : List ℕ → List ℕ → ℕ → Ended) (fuel k : ℕ) (replies : ℕ → Reply) (r : Reply)
    (wire : List ℕ) (x : ℕ) (left : List ℕ) (spin : ℕ)
    → ((wire' left' : List ℕ) (spin' : ℕ)
        → spin' ≤ 64
        → spin' ≤ k + 1
        → ((j : ℕ) → k + 1 ≤ j + spin' → j < k + 1 → replies j ≡ blocks)
        → 65 * length left' + 64 < fuel + spin'
        → (more wire' left' spin').status ≡ some ok)
    → IsWilling replies
    → replies k ≡ r
    → spin ≤ 64
    → spin ≤ k
    → ((j : ℕ) → k ≤ j + spin → j < k → replies j ≡ blocks)
    → 65 * length (x ∷ left) + 64 < suc fuel + spin
    → (send_step more r wire (x ∷ left) spin).status ≡ some ok
send_step-sends more fuel k replies (takes n) wire x left spin go w e le ge past h =
    let pos : 0 < n = elim (w.no_failure k) [
      | inl a ↦ absurd cc
      | inr (m, b) ↦ let same : n ≡ m + 1 = cc in omega arith
    ] in
    let some_bytes : (n == 0) ≡ false = ground arith in
    rw some_bytes (
      go (wire ++ take n (x ∷ left)) (drop n (x ∷ left)) 0 (omega arith) (omega arith)
        (λ j lo hi. absurd (omega arith)) (omega (arith, length-drop n (x ∷ left))))
send_step-sends more fuel k replies blocks wire x left spin go w e le ge past h =
    elim (Bool-cases (leb 64 spin)) [
      | inl last ↦
          let (j, near, other) = w.soon (k - spin) in
          absurd (other (up_to (k - spin + j) (ground arith) (ground arith)))
      | inr again_one ↦ rw again_one (
          go wire (x ∷ left) (spin + 1) (ground arith) (omega arith)
            (λ j lo hi. up_to j (omega arith) (omega arith)) (omega arith))
    ]
  where
    up_to : (j : ℕ) → k ≤ j + spin → j ≤ k → replies j ≡ blocks
    up_to j lo hi = elim (Bool-cases (j == k)) [
      | inl same ↦ let e' : j ≡ k = ground arith in ap replies e' ∙ e
      | inr before ↦ past j lo (ground arith)
    ]
send_step-sends more fuel k replies (fails err) wire x left spin go w e le ge past h =
    elim (w.no_failure k) [ inl a ↦ absurd cc | inr (m, b) ↦ absurd cc ]

send_loop-sends :
    (fuel : ℕ) (replies : ℕ → Reply) (k : ℕ) (wire left : List ℕ) (spin : ℕ)
    → IsWilling replies
    → spin ≤ 64
    → spin ≤ k
    → ((j : ℕ) → k ≤ j + spin → j < k → replies j ≡ blocks)
    → 65 * length left + 64 < fuel + spin
    → (send_loop fuel replies k wire left spin).status ≡ some ok
unfolding send_loop
send_loop-sends fuel replies k wire [] spin w le ge past h = refl
send_loop-sends zero replies k wire (x ∷ left) spin w le ge past h = absurd (omega arith)
send_loop-sends (suc fuel) replies k wire (x ∷ left) spin w le ge past h =
    send_step-sends (send_loop fuel replies (k + 1)) fuel k replies (replies k) wire x left spin
      (λ wire' left' spin' le' ge' past' h'.
        send_loop-sends fuel replies (k + 1) wire' left' spin' w le' ge' past' h')
      w refl le ge past h

send_step-ends :
    (more : List ℕ → List ℕ → ℕ → Ended) (fuel : ℕ) (r : Reply) (wire : List ℕ) (x : ℕ)
    (left : List ℕ) (spin : ℕ)
    → ((wire' left' : List ℕ) (spin' : ℕ)
        → spin' ≤ 64
        → 65 * length left' + 64 < fuel + spin'
        → (more wire' left' spin').status ≢ none)
    → spin ≤ 64
    → 65 * length (x ∷ left) + 64 < suc fuel + spin
    → (send_step more r wire (x ∷ left) spin).status ≢ none
send_step-ends more fuel (takes n) wire x left spin go le h = elim (Bool-cases (n == 0)) [
  | inl nothing ↦ rw nothing (λ e. absurd cc)
  | inr some_bytes ↦
      let pos : 0 < n = ground arith in
      rw some_bytes (
        go (wire ++ take n (x ∷ left)) (drop n (x ∷ left)) 0 (omega arith)
          (omega (arith, length-drop n (x ∷ left))))
]
send_step-ends more fuel blocks wire x left spin go le h = elim (Bool-cases (leb 64 spin)) [
  | inl last ↦ rw last (λ e. absurd cc)
  | inr again_one ↦ rw again_one (go wire (x ∷ left) (spin + 1) (ground arith) (omega arith))
]
send_step-ends more fuel (fails err) wire x left spin go le h = λ e. absurd cc

send_loop-ends :
    (fuel : ℕ) (replies : ℕ → Reply) (k : ℕ) (wire left : List ℕ) (spin : ℕ)
    → spin ≤ 64
    → 65 * length left + 64 < fuel + spin
    → (send_loop fuel replies k wire left spin).status ≢ none
unfolding send_loop
send_loop-ends fuel replies k wire [] spin le h = λ e. absurd cc
send_loop-ends zero replies k wire (x ∷ left) spin le h = absurd (omega arith)
send_loop-ends (suc fuel) replies k wire (x ∷ left) spin le h =
    send_step-ends (send_loop fuel replies (k + 1)) fuel (replies k) wire x left spin
      (λ wire' left' spin' le' h'. send_loop-ends fuel replies (k + 1) wire' left' spin' le' h') le
      h

-- A send ends, on a socket of any behaviour, within 65 answers for each byte and 65 more, and then
-- what went out is the start of the message, what is left is the rest, and ZTK_OK is said only when
-- nothing is left. (The socket does not answer the failure "ZTK_OK".)
pub client_send :
    (replies : ℕ → Reply) (c : Client) (msg : List ℕ)
    → ((j : ℕ) → replies j ≢ fails ok)
    → let e = send (65 * length msg + 65) replies c msg in
      (e.status ≢ none) × (e.wire ++ e.left ≡ msg) × (e.status ≡ some ok → e.left ≡ [])
unfolding send
client_send replies c msg honest =
    elim (Bool-cases ((not c.connected || c.closing) || (length msg == 0))) [
      | inl bad ↦ rw bad (λ e. absurd cc, refl, λ e. absurd cc)
      | inr good ↦
          let (split, whole) =
            send_loop-IsSplit (65 * length msg + 65) replies 0 [] msg 0 honest refl in
          rw good (
            send_loop-ends (65 * length msg + 65) replies 0 [] msg 0 (omega arith) (omega arith),
            split,
            whole,
          )
    ]

willing_honest : (replies : ℕ → Reply) → IsWilling replies → (j : ℕ) → replies j ≢ fails ok
willing_honest replies w j e = elim (w.no_failure j) [ inl a ↦ absurd cc | inr (m, b) ↦ absurd cc ]

-- On a connected client whose socket does not fail and takes something at the latest after 64 answers
-- ZTK_ERR_AGAIN, the send of a message that is not empty ends with ZTK_OK and the whole message is out.
pub client_send_succeeds :
    (replies : ℕ → Reply) (c : Client) (msg : List ℕ)
    → IsWilling replies
    → c.connected ≡ true
    → c.closing ≡ false
    → 0 < length msg
    → let e = send (65 * length msg + 65) replies c msg in (e.status ≡ some ok) × (e.wire ≡ msg)
unfolding send
client_send_succeeds replies c msg w on working more =
    let good : ((not c.connected || c.closing) || (length msg == 0)) ≡ false = ground arith in
    let fine =
      send_loop-sends (65 * length msg + 65) replies 0 [] msg 0 w (omega arith) (omega arith)
        (λ j lo hi. absurd (omega arith)) (omega arith) in
    let (split, whole) =
      send_loop-IsSplit (65 * length msg + 65) replies 0 [] msg 0 (willing_honest replies w) refl in
    rw good (
      fine,
      sym (append-nil _)
          ∙ ap (λ l. (send_loop (65 * length msg + 65) replies 0 [] msg 0).wire ++ l)
              (sym (whole fine))
          ∙ split,
    )
