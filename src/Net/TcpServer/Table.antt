-- ===== src/Net/TcpServer/Table.antt =====
-- src/net/tcp_server.c: the table of sessions.
use zero_tool_kit.Prelude.{
  ℕ, zero, suc, ◌+◌, ◌-◌, ◌^◌, ◌<◌, ◌≤◌, ◌≡◌, ◌⊎◌, inl, inr, refl, sym, ap, ◌∙◌, Bool, false, none,
  some, List, [], ◌∷◌, ◌++◌, length, get_or, set, take, count, length-append, length-set,
  get_or-set_self, get_or-set_ne, count-append, length-take, min, leb, ◌==◌, if◌then◌else◌, arith,
  Bool-cases,
}
use zero_tool_kit.Errno.{ok, nomem}
use zero_tool_kit.Net.TcpServer.{Sessions, session_list_add, index_of, swap_out, session_remove}

-- One for equal numbers.
abbrev pub one_if : ℕ → ℕ → ℕ
one_if a b = if a == b then 1 else 0

count-set :
    (x i v : ℕ) (l : List ℕ)
    → i < length l
    → count x (set l i v) + one_if (get_or l i 0) x ≡ count x l + one_if v x
count-set x i v [] h = absurd (omega arith)
count-set x zero v (y ∷ l) h = ground arith
count-set x (suc i) v (y ∷ l) h = omega (arith, count-set x i v l (omega arith))

count-take_last :
    (x : ℕ) (y : ℕ) (l : List ℕ)
    → count x (take (length l) (y ∷ l)) + one_if (get_or (y ∷ l) (length l) 0) x ≡ count x (y ∷ l)
count-take_last x y [] = ground arith
count-take_last x y (z ∷ l) = omega (arith, count-take_last x z l)

-- Where the search stops there is the session; where it fails there is none.
index_of_lem :
    (t : ℕ) (l : List ℕ)
    → ((index_of t l ≡ none) × (count t l ≡ 0))
      ⊎ ((i : ℕ) × (index_of t l ≡ some i) × (i < length l) × (get_or l i 0 ≡ t))
index_of_lem t [] = inl (refl, refl)
index_of_lem t (s ∷ rest) = elim (Bool-cases (s == t)) [
  | inl same ↦ rw same (inr (0, refl, omega arith, ground arith))
  | inr other ↦ elim (index_of_lem t rest) [
    | inl (missing, nothing) ↦ rw (other, missing) (inl (refl, omega arith))
    | inr (i, found, lt, there) ↦
        rw (other, found)
          (inr (
            i + 1,
            refl,
            omega arith,
            let e : i + 1 ≡ suc i = omega arith in ap (λ n. get_or (s ∷ rest) n 0) e ∙ there,
          ))
  ]
]

count_but_last :
    (x : ℕ) (m : List ℕ)
    → 0 < length m
    → count x (take (length m - 1) m) + one_if (get_or m (length m - 1) 0) x ≡ count x m
count_but_last x [] h = absurd (omega arith)
count_but_last x (y ∷ l) h =
    let e : length (y ∷ l) - 1 ≡ length l = omega arith in rw e (count-take_last x y l)

-- The last element is put at the place that is freed.
last_of_set :
    (l : List ℕ) (i : ℕ)
    → i < length l
    → get_or (set l i (get_or l (length l - 1) 0)) (length l - 1) 0 ≡ get_or l (length l - 1) 0
last_of_set l i h = elim (Bool-cases (i == length l - 1)) [
  | inl same ↦
      let e : i ≡ length l - 1 = ground arith in
      ap (λ n. get_or (set l i (get_or l (length l - 1) 0)) n 0) (sym e) ∙ get_or-set_self l i _ 0 h
  | inr other ↦ get_or-set_ne l i (length l - 1) _ 0 (λ e. ground arith)
]

count-swap_out :
    (x i : ℕ) (l : List ℕ)
    → i < length l
    → count x (swap_out l (some i)) + one_if (get_or l i 0) x ≡ count x l
count-swap_out x i l h =
    let v = get_or l (length l - 1) 0 in
    let m = set l i v in
    let size : length m ≡ length l = length-set l i v in
    let a = count-set x i v l h in
    let b = count_but_last x m (omega arith) in
    let c : get_or m (length m - 1) 0 ≡ v = ap (λ n. get_or m (n - 1) 0) size ∙ last_of_set l i h in
    let d : take (length l - 1) m ≡ take (length m - 1) m = ap (λ n. take (n - 1) m) (sym size) in
    let d' = ap (count x) d in let c' = ap (λ n. one_if n x) c in omega arith

-- The table never has more sessions than room.
abbrev pub IsTable : Sessions → Type 0
IsTable srv = length srv.sessions ≤ srv.session_cap

-- Adding puts the session into the table once more, or leaves the table as it is if it is full and
-- there is no memory.
session_list_add_lem :
    (room : Bool) (srv : Sessions) (s x : ℕ)
    → IsTable srv
    → srv.session_cap < 2 ^ 62
    → let (err, added) = session_list_add room srv s in
      IsTable added
      × (((err ≡ ok) × (count x added.sessions ≡ count x srv.sessions + one_if s x))
          ⊎ ((err ≡ nomem)
              × (added ≡ srv)
              × (room ≡ false)
              × (length srv.sessions ≡ srv.session_cap)))
unfolding session_list_add
session_list_add_lem room srv s x v small =
    let longer = length-append srv.sessions (s ∷ []) in
    let more : count x (srv.sessions ++ (s ∷ [])) ≡ count x srv.sessions + one_if s x =
      count-append x srv.sessions (s ∷ []) ∙ omega arith in
    elim (Bool-cases (leb srv.session_cap (length srv.sessions))) [
      | inl full ↦ elim (Bool-cases room) [
        | inl given ↦ rw (full, given) (ground (arith, longer), inl (refl, more))
        | inr refused ↦ rw (full, refused) (v, inr (refl, refl, refl, ground arith))
      ]
      | inr space ↦ rw space (ground (arith, longer), inl (refl, more))
    ]

-- Removing takes one occurrence out and leaves how often every other session is there, although
-- the order changes.
session_remove_lem :
    (srv : Sessions) (s x : ℕ)
    → IsTable srv
    → IsTable (session_remove srv s)
      × (count x (session_remove srv s).sessions
            + (if s == x then min 1 (count x srv.sessions) else 0)
          ≡ count x srv.sessions)
unfolding session_remove
session_remove_lem srv s x v = elim (index_of_lem s srv.sessions) [
  | inl (missing, nothing) ↦ rw missing (v, ground (arith, nothing))
  | inr (i, found, lt, there) ↦
      let one = count-swap_out x i srv.sessions lt in
      let same = ap (λ n. one_if n x) there in
      rw found (
        omega (
          arith,
          length-take (length srv.sessions - 1)
              (set srv.sessions i (get_or srv.sessions (length srv.sessions - 1) 0)),
          v,
        ),
        ground (arith, one, same),
      )
]

-- A table of the server never has more sessions than room (of fewer than 2 ^ 62). Adding puts the
-- session into it once more, or changes nothing if the table is full and there is no memory;
-- removing takes out one occurrence, if there is one; how often every other session stands in
-- it is as before.
pub IsTable-account :
    (room : Bool) (srv : Sessions) (s x : ℕ)
    → IsTable srv
    → srv.session_cap < 2 ^ 62
    → let (err, added) = session_list_add room srv s in
      IsTable added
      × (((err ≡ ok) × (count x added.sessions ≡ count x srv.sessions + one_if s x))
          ⊎ ((err ≡ nomem)
              × (added ≡ srv)
              × (room ≡ false)
              × (length srv.sessions ≡ srv.session_cap)))
      × IsTable (session_remove srv s)
      × (count x (session_remove srv s).sessions
            + (if s == x then min 1 (count x srv.sessions) else 0)
          ≡ count x srv.sessions)
IsTable-account room srv s x v small =
    let (a, b) = session_list_add_lem room srv s x v small in
    let (c, d) = session_remove_lem srv s x v in (a, b, c, d)
