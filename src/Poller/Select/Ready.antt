-- ===== src/Poller/Select/Ready.antt =====
-- src/poller/poller_select.c: which callbacks one poll makes.
use zero_tool_kit.Prelude.{
  ℕ, ◌+◌, ◌<◌, ◌==◌, ◌≡◌, inl, inr, refl, sym, ap, ap₂, ◌∙◌, Bool, true, false, not, ◌&&◌, ◌||◌,
  some, List, [], ◌∷◌, ◌++◌, length, take, take_all, take-append_le, length-append, append-nil,
  append_assoc, ltb, leb, if◌then◌else◌, arith, Bool-cases,
}
use zero_tool_kit.Poller.Select.{
  Entry, Poller, Sets, Call, Found, fd_setsize, out_of, ready_cap, collect_one, collect, selected,
  poll, polled_of,
}
use zero_tool_kit.Poller.Select.Registry.{IsRegistry, last_fd}

-- Whether an entry is the wake pipe's and can be read, and whether its callback is to be called.
abbrev pub wakes : Sets → ℕ → Entry → Bool
wakes s wake_r e = not (leb fd_setsize e.fd) && (e.fd == wake_r && s.rfds e.fd)

abbrev pub calls : Sets → ℕ → Entry → Bool
calls s wake_r e =
    not (leb fd_setsize e.fd)
    && (not (e.fd == wake_r && s.rfds e.fd)
        && ((s.rfds e.fd || (s.wfds e.fd || s.efds e.fd)) && not (e.cb == 0)))

-- What a callback is told: 1 if its descriptor can be read, 2 if it can be written, 4 on an error.
abbrev pub told : Sets → ℕ → ℕ
told s fd =
    (if s.rfds fd then 1 else 0) + ((if s.wfds fd then 2 else 0) + (if s.efds fd then 4 else 0))

told-out_of : (s : Sets) (fd : ℕ) → out_of s fd ≡ told s fd
told-out_of s fd = omega arith

quiet_lem :
    (s : Sets) (fd cb : ℕ)
    → ((out_of s fd == 0) || (cb == 0))
      ≡ not ((s.rfds fd || (s.wfds fd || s.efds fd)) && not (cb == 0))
quiet_lem s fd cb = ground arith

-- All calls that the answer of select() asks for.
pub calls_of : Sets → ℕ → List Entry → List Call
calls_of s wake_r [] = []
calls_of s wake_r (e ∷ es) =
    let rest = calls_of s wake_r es in
    if calls s wake_r e
    then record { fd = e.fd; out = told s e.fd; cb = e.cb; user = e.user } ∷ rest
    else rest

abbrev pub any_wakes : Sets → ℕ → List Entry → Bool
any_wakes s wake_r [] = false
any_wakes s wake_r (e ∷ es) = wakes s wake_r e || any_wakes s wake_r es

-- The table after the calls of `acc`.
abbrev pub found : List Call → Bool → Found
found acc drained = record { ready = take ready_cap acc; fired = length acc; drained = drained }

take-snoc_room :
    (n : ℕ) (l : List Call) (c : Call)
    → length l < n
    → take n (l ++ (c ∷ [])) ≡ take n l ++ (c ∷ [])
take-snoc_room n l c h =
    take_all n (l ++ (c ∷ [])) (omega (arith, length-append l (c ∷ [])))
    ∙ ap (λ m. m ++ (c ∷ [])) (sym (take_all n l (omega arith)))

abbrev table_of : Bool → List Call → ℕ → Found
table_of drained l n = record { ready = l; fired = n; drained = drained }

table :
    (acc : List Call) (c : Call) (drained : Bool)
    → record {
      ready =
          if ltb (length acc) ready_cap then take ready_cap acc ++ (c ∷ []) else take ready_cap acc;
      fired = length acc + 1;
      drained = drained;
    }
      ≡ found (acc ++ (c ∷ [])) drained
table acc c drained =
    ap₂ (table_of drained)
      (elim (Bool-cases (ltb (length acc) ready_cap)) [
        | inl room ↦ rw room (sym (take-snoc_room ready_cap acc c (ground arith)))
        | inr full ↦ rw full (sym (take-append_le ready_cap acc (c ∷ []) (ground arith)))
      ])
      (sym (length-append acc (c ∷ [])))

collect_one_lem :
    (s : Sets) (wake_r : ℕ) (acc : List Call) (drained : Bool) (e : Entry)
    → collect_one s wake_r (found acc drained) e
      ≡ found
          (if calls s wake_r e
            then acc ++ (record { fd = e.fd; out = told s e.fd; cb = e.cb; user = e.user } ∷ [])
            else acc)
          (wakes s wake_r e || drained)
collect_one_lem s wake_r acc drained e = elim (Bool-cases (leb fd_setsize e.fd)) [
  | inl big ↦ rw big refl
  | inr small ↦ elim (Bool-cases (e.fd == wake_r && s.rfds e.fd)) [
    | inl wake ↦ rw (small, wake) refl
    | inr other ↦
        elim (Bool-cases ((s.rfds e.fd || (s.wfds e.fd || s.efds e.fd)) && not (e.cb == 0))) [
          | inr quiet ↦ rw (small, other, quiet_lem s e.fd e.cb, quiet) refl
          | inl due ↦
              rw (small, other, quiet_lem s e.fd e.cb, due, told-out_of s e.fd)
                (table acc (record { fd = e.fd; out = told s e.fd; cb = e.cb; user = e.user })
                  drained)
        ]
  ]
]

or_swap : (a b c : Bool) → (a || (b || c)) ≡ ((b || a) || c)
or_swap true true c = refl
or_swap true false c = refl
or_swap false true c = refl
or_swap false false c = refl

collect_lem :
    (s : Sets) (wake_r : ℕ) (es : List Entry) (acc : List Call) (drained : Bool)
    → collect s wake_r (found acc drained) es
      ≡ found (acc ++ calls_of s wake_r es) (any_wakes s wake_r es || drained)
unfolding collect calls_of
collect_lem s wake_r [] acc drained = ap (λ l. found l drained) (sym (append-nil acc))
collect_lem s wake_r (e ∷ es) acc drained =
    ap (λ f. collect s wake_r f es) (collect_one_lem s wake_r acc drained e)
    ∙ collect_lem s wake_r es _ _
    ∙ ap₂ found
        (elim (Bool-cases (calls s wake_r e)) [
          | inl due ↦ rw due (append_assoc acc _ _)
          | inr idle ↦ rw idle refl
        ])
        (or_swap (any_wakes s wake_r es) (wakes s wake_r e) drained)

-- The wake pipe is read exactly when it is ready.
any_wakes_lem :
    (s : Sets) (wake_r d : ℕ) (e : Entry) (es : List Entry)
    → last_fd d (e ∷ es) ≡ wake_r
    → any_wakes s wake_r (e ∷ es) ≡ (not (leb fd_setsize wake_r) && s.rfds wake_r)
any_wakes_lem s wake_r d e [] h = ground arith
any_wakes_lem s wake_r d e (x ∷ es) h = elim (Bool-cases (wakes s wake_r e)) [
  | inl due ↦ rw due (ground arith)
  | inr idle ↦ rw idle (any_wakes_lem s wake_r e.fd x es h)
]

-- A poll whose select() found sets ready counts all calls that are due, makes the first 64 of
-- them, in the order of the entries, and drains the wake pipe and runs the tasks exactly when the
-- pipe can be read. A call is due for an entry below FD_SETSIZE that has a callback and is in one of
-- the sets, the readable wake pipe excepted; it is told 1 for readable, 2 for writable and 4 for an
-- error, added up.
pub poll-calls :
    (pending : Bool) (p : Poller) (s : Sets)
    → IsRegistry p
    → poll pending p (selected s) ≡ record {
      result = some (length (calls_of s p.wake_r p.entries));
      drained = not (leb fd_setsize p.wake_r) && s.rfds p.wake_r;
      calls = take 64 (calls_of s p.wake_r p.entries);
    }
unfolding poll
poll-calls pending p s v =
    ap polled_of
      (collect_lem s p.wake_r p.entries [] false ∙ ap (found _) (wake p.entries v.wake_last))
  where
    wake :
        (es : List Entry)
        → ((d : ℕ) → last_fd d es ≡ p.wake_r)
        → (any_wakes s p.wake_r es || false) ≡ (not (leb fd_setsize p.wake_r) && s.rfds p.wake_r)
    wake [] last = absurd (omega (arith, last 0, last 1))
    wake (e ∷ es) last = ground (arith, any_wakes_lem s p.wake_r 0 e es (last 0))
