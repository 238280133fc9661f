-- ===== src/Net/TcpClient/Life.antt =====
-- src/net/tcp_client.c: a client from its creation through a connection.
use zero_tool_kit.Prelude.{
  ℕ, ◌≡◌, ◌≢◌, refl, ◌∙◌, Bool, true, false, not, some, List, [], if◌then◌else◌,
}
use zero_tool_kit.Errno.{Err}
use zero_tool_kit.Poller.Select.{Poller}
use zero_tool_kit.Net.Socket.{World, is_ok, detach_poller, connect, attach_poller}
use zero_tool_kit.Net.Socket.Tied.{Tied, IsNew, detach_poller-Tied, detach_poller-wake_r}
use zero_tool_kit.Net.Socket.Calls.{Step-Tied, does_connect, start-Tied, IsUnknown}
use zero_tool_kit.Net.Socket.Each.{attach_poller-Tied}
use zero_tool_kit.Net.TcpClient.{
  Event, on_connect, Client, create, connect_client, client_callbacks,
}
use zero_tool_kit.Net.TcpClient.States.{
  IsSpoken, say-IsSpoken, world-IsSpoken, Arrival, arrive, arrive-IsSpoken,
}

if-pair :
    (l : List Event) (b : Bool) (x y : Err × Client)
    → IsSpoken l x.1
    → IsSpoken l y.1
    → IsSpoken l (if b then x else y).1
if-pair l true x y v u = v
if-pair l false x y v u = u

connect_client-IsSpoken :
    (l : List Event) (init : Err) (host : Bool) (answer : Err × ℕ) (pending calloc_ok : Bool)
    (self : ℕ) (c : Client)
    → IsSpoken l c
    → c.closing ≡ false
    → IsNew c.world answer.1
    → IsSpoken l (connect_client init host answer pending calloc_ok self c).1
unfolding connect_client
connect_client-IsSpoken l init host answer pending calloc_ok self c v on new =
    if-pair l c.closing _ _ v (
      if-pair l (is_ok w.0) _ _
        (if-pair l (not (is_ok a.0)) _ _ there (
          if-pair l pending _ _ there (
            say-IsSpoken l (record c { world = a.1; connected = false }) on_connect true there on
              (λ e. cc))))
        (put w.1 tied))
  where
    w : Err × World
    w = connect init host answer pending (detach_poller c.world)

    a : Err × World
    a = attach_poller calloc_ok (some c.poller) (some client_callbacks) self w.1

    tied : Tied w.1
    tied =
        Step-Tied (detach_poller c.world) w.1
          (does_connect init host answer pending (λ p h. new p (h ∙ detach_poller-wake_r c.world p))
            refl)
          (detach_poller-Tied c.world v.tied).0

    off_line : IsSpoken l (record c { connected = false })
    off_line = record { tied = v.tied; off = v.off; running = v.running; failed = v.failed }

    put : (t : World) → Tied t → IsSpoken l (record c { connected = false; world = t })
    put t tied' = world-IsSpoken l (record c { connected = false }) t off_line on tied'

    there : IsSpoken l (record c { connected = false; world = a.1 })
    there =
        put a.1 (attach_poller-Tied calloc_ok (some c.poller) (some client_callbacks) self w.1 tied)

-- A new client that is told to connect and then gets any events, with any answers of the platform:
-- its user hears of an error at most once, and then nothing more; from then on the client is
-- closing and its socket is on no poller. All the time, the socket has an entry with its poller
-- just while it is attached, for the descriptor it has.
pub client_tells :
    (addr self poller : ℕ) (pollers : ℕ → Poller) (inited : Bool) (init : Err) (host : Bool)
    (answer : Err × ℕ) (pending calloc_ok : Bool) (arrivals : List Arrival)
    → IsUnknown addr pollers
    → ((p : ℕ) → answer.1 ≢ (pollers p).wake_r)
    → IsSpoken [] (
        arrive arrivals
          (connect_client init host answer pending calloc_ok self
            (create addr pollers inited poller)).1)
unfolding create
client_tells addr self poller pollers inited init host answer pending calloc_ok arrivals unknown
      new =
    arrive-IsSpoken [] arrivals _ (
      connect_client-IsSpoken [] init host answer pending calloc_ok self
        (create addr pollers inited poller) fresh refl new)
  where
    fresh : IsSpoken [] (create addr pollers inited poller)
    fresh = record {
      tied = start-Tied addr pollers inited unknown;
      off = λ h. refl;
      running = λ h. ([], refl, tt);
      failed = λ h. absurd cc;
    }
