-- ===== src/Net/TcpClient/States.antt =====
-- src/net/tcp_client.c: what a client tells its user under any sequence of events.
use zero_tool_kit.Prelude.{
  ℕ, ◌≡◌, ◌≢◌, ◌⊎◌, inl, inr, refl, sym, ap, ◌∙◌, Bool, true, false, not, ◌||◌, List, [], ◌∷◌, ◌++◌,
  append_assoc, All, All-append, if◌then◌else◌, arith, Bool-cases,
}
use mathlib.Core.Path.{subst}
use zero_tool_kit.Errno.{Err}
use zero_tool_kit.Net.Socket.{World, is_ok, detach_poller, check_connect}
use zero_tool_kit.Net.Socket.Tied.{Tied, detach_poller-Tied}
use zero_tool_kit.Net.Socket.Each.{check_connect-Tied}
use zero_tool_kit.Net.Socket.Dispatch.{
  Called, readable, writable, error, dispatch, dispatch-Tied, dispatch_attached,
}
use zero_tool_kit.Net.TcpClient.{
  Event, on_connect, on_recv, on_error, Client, say, fire_error, is_again, client_on_writable,
  Received, bytes, refused, received, client_on_readable, run_call, run_calls, on_event,
}

-- A log without an error.
abbrev pub Quiet : List Event → Type 0
Quiet l = All (λ e. e ≢ on_error) l

-- Since the log `l` the client told no error while it works, and one at the very end when it failed;
-- then its socket is on no poller.
pub record IsSpoken (l : List Event) (c : Client) : Type 0 where
  pub tied : Tied c.world
  pub off : c.closing ≡ true → c.world.sock.attached ≡ false
  pub running : c.closing ≡ false → (new : List Event) × (c.log ≡ l ++ new) × Quiet new
  pub failed :
      c.closing ≡ true → (new : List Event) × (c.log ≡ l ++ (new ++ (on_error ∷ []))) × Quiet new

-- The parts of a client that the predicate reads, changed together.
pub say-IsSpoken :
    (l : List Event) (c : Client) (e : Event) (connected : Bool)
    → IsSpoken l c
    → c.closing ≡ false
    → e ≢ on_error
    → IsSpoken l (say e (record c { connected = connected }))
say-IsSpoken l c e connected v on ne = record {
  tied = v.tied;
  off = v.off;
  running = λ h.
      let (new, same, quiet) = v.running on in
      (
        new ++ (e ∷ []),
        ap (λ m. m ++ (e ∷ [])) same ∙ append_assoc l new (e ∷ []),
        All-append (λ x. x ≢ on_error) new (e ∷ []) quiet (ne, tt),
      );
  failed = λ h. absurd cc;
}

pub fire_error-IsSpoken : (l : List Event) (c : Client) → IsSpoken l c → IsSpoken l (fire_error c)
unfolding fire_error
fire_error-IsSpoken l c v = choose (Bool-cases c.closing)
  where
    told : Client
    told =
        let t = say on_error (record c { closing = true }) in
        record t { world = detach_poller c.world }

    tells : c.closing ≡ false → IsSpoken l told
    tells on =
        let (tied, off) = detach_poller-Tied c.world v.tied in
        let (new, same, quiet) = v.running on in
        record {
          tied = tied;
          off = λ h. off;
          running = λ h. absurd cc;
          failed = λ h. (
            new,
            ap (λ m. m ++ (on_error ∷ [])) same ∙ append_assoc l new (on_error ∷ []),
            quiet,
          );
        }

    choose : (c.closing ≡ true) ⊎ (c.closing ≡ false) → IsSpoken l (if c.closing then c else told)
    choose (inl closed) = subst (λ b. IsSpoken l (if b then c else told)) (sym closed) v
    choose (inr on) = subst (λ b. IsSpoken l (if b then c else told)) (sym on) (tells on)

pub if-IsSpoken :
    (l : List Event) (b : Bool) (x y : Client)
    → (b ≡ true → IsSpoken l x)
    → (b ≡ false → IsSpoken l y)
    → IsSpoken l (if b then x else y)
if-IsSpoken l true x y v u = v refl
if-IsSpoken l false x y v u = u refl

-- A world with the registrations in order, put in while the client works.
pub world-IsSpoken :
    (l : List Event) (c : Client) (w : World)
    → IsSpoken l c
    → c.closing ≡ false
    → Tied w
    → IsSpoken l (record c { world = w })
world-IsSpoken l c w v on tied = record {
  tied = tied;
  off = λ h. absurd cc;
  running = v.running;
  failed = v.failed;
}

client_on_writable-IsSpoken :
    (l : List Event) (check : Err) (c : Client)
    → IsSpoken l c
    → IsSpoken l (client_on_writable check c)
unfolding client_on_writable
client_on_writable-IsSpoken l check c v =
    if-IsSpoken l (c.closing || c.connected) _ _ (λ h. v)
      (λ h.
        let on : c.closing ≡ false = ground arith in
        let (err, w) = check_connect check c.world in
        let seen = world-IsSpoken l c w v on (check_connect-Tied check c.world v.tied) in
        if-IsSpoken l (is_ok err) _ _
          (λ fine. say-IsSpoken l (record c { world = w }) on_connect true seen on (λ e. cc))
          (λ bad.
            if-IsSpoken l (is_again err) _ _ (λ h. seen)
              (λ h. fire_error-IsSpoken l (record c { world = w }) seen)))

received-IsSpoken :
    (l : List Event) (r : Received) (c : Client)
    → IsSpoken l c
    → c.closing ≡ false
    → IsSpoken l (received r c)
received-IsSpoken l (bytes []) c v on = fire_error-IsSpoken l c v
received-IsSpoken l (bytes (b ∷ bs)) c v on =
    say-IsSpoken l c (on_recv (b ∷ bs)) c.connected v on (λ e. cc)
received-IsSpoken l (refused err) c v on =
    if-IsSpoken l (is_again err) _ _ (λ h. v) (λ h. fire_error-IsSpoken l c v)

client_on_readable-IsSpoken :
    (l : List Event) (check : Err) (r : Received) (c : Client)
    → IsSpoken l c
    → IsSpoken l (client_on_readable check r c)
unfolding client_on_readable
client_on_readable-IsSpoken l check r c v =
    let ready = if c.connected then c else client_on_writable check c in
    let w : IsSpoken l ready =
      if-IsSpoken l c.connected _ _ (λ h. v) (λ h. client_on_writable-IsSpoken l check c v) in
    if-IsSpoken l c.closing _ _ (λ h. v)
      (λ h.
        if-IsSpoken l (not ready.connected || ready.closing) _ _ (λ h. w)
          (λ h. received-IsSpoken l r ready w (ground arith)))

run_call-IsSpoken :
    (l : List Event) (check : Err) (r : Received) (c : Client) (call : Called)
    → IsSpoken l c
    → IsSpoken l (run_call check r c call)
run_call-IsSpoken l check r c readable v = client_on_readable-IsSpoken l check r c v
run_call-IsSpoken l check r c writable v = client_on_writable-IsSpoken l check c v
run_call-IsSpoken l check r c error v = fire_error-IsSpoken l c v

run_calls-IsSpoken :
    (l : List Event) (check : Err) (r : Received) (c : Client) (calls : List Called)
    → IsSpoken l c
    → IsSpoken l (run_calls check r c calls)
run_calls-IsSpoken l check r c [] v = v
run_calls-IsSpoken l check r c (call ∷ calls) v =
    run_calls-IsSpoken l check r (run_call check r c call) calls
      (run_call-IsSpoken l check r c call v)

on_event-IsSpoken :
    (l : List Event) (fd events : ℕ) (check : Err) (r : Received) (c : Client)
    → IsSpoken l c
    → IsSpoken l (on_event fd events check r c)
unfolding on_event
on_event-IsSpoken l fd events check r c v =
    let (calls, w) = dispatch fd events check c.world in
    run_calls-IsSpoken l check r (record c { world = w }) calls
      (record {
        tied = dispatch-Tied fd events check c.world v.tied;
        off = λ h. dispatch_attached fd events check c.world ∙ v.off h;
        running = v.running;
        failed = v.failed;
      })

-- An event of the poller, with what the platform then answers.
pub record Arrival : Type 0 where
  pub fd : ℕ
  pub events : ℕ
  pub check : Err
  pub received : Received

pub arrive : List Arrival → Client → Client
arrive [] c = c
arrive (a ∷ rest) c = arrive rest (on_event a.fd a.events a.check a.received c)

-- Whatever events reach a working client, in any number and order, its user hears of an error at
-- most once, as the last callback of all; from then on the client is closing and its socket is on
-- no poller, and as long as it works no error was told. Its entry follows its socket all the time.
pub arrive-IsSpoken :
    (l : List Event) (arrivals : List Arrival) (c : Client)
    → IsSpoken l c
    → IsSpoken l (arrive arrivals c)
unfolding arrive
arrive-IsSpoken l [] c v = v
arrive-IsSpoken l (a ∷ rest) c v =
    arrive-IsSpoken l rest (on_event a.fd a.events a.check a.received c)
      (on_event-IsSpoken l a.fd a.events a.check a.received c v)
