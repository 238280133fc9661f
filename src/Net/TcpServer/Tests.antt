-- ===== src/Net/TcpServer/Tests.antt =====
-- src/net/tcp_server.c: a table of three sessions, and a server on two pollers.
use zero_tool_kit.Prelude.{
  ◌+◌, ◌≡◌, ◌⊎◌, refl, true, false, [], ◌∷◌, length, count, min, arith, ◌==◌, if◌then◌else◌,
}
use zero_tool_kit.Errno.{ok, nomem}
use zero_tool_kit.Poller.Select.{add}
use zero_tool_kit.Net.Socket.{created, is_ok, listen, ensure_sockplat, close_fd, detach_poller}
use zero_tool_kit.Net.Socket.Sample.{idle_pollers, idle_pollers-IsUnknown}
use zero_tool_kit.Net.TcpServer.{
  Sessions, session_list_add, session_remove, Server, start_server, bind_all, listen_attach_manager,
}
use zero_tool_kit.Net.TcpServer.Table.{IsTable, one_if, IsTable-account}
use zero_tool_kit.Net.TcpServer.Running.{Stopped, start_stop}

abbrev three_sessions : Sessions
three_sessions = record { sessions = 31 ∷ 32 ∷ 33 ∷ []; session_cap = 8 }

IsTable-account_example :
    IsTable (session_list_add true three_sessions 32).1
    × (((session_list_add true three_sessions 32).0 ≡ ok
          × (count 33 (session_list_add true three_sessions 32).1.sessions
              ≡ count 33 three_sessions.sessions + one_if 32 33))
        ⊎ ((session_list_add true three_sessions 32).0 ≡ nomem
            × ((session_list_add true three_sessions 32).1 ≡ three_sessions)
            × (true ≡ false)
            × (length three_sessions.sessions ≡ three_sessions.session_cap)))
    × IsTable (session_remove three_sessions 32)
    × (count 33 (session_remove three_sessions 32).sessions
          + (if 32 == 33 then min 1 (count 33 three_sessions.sessions) else 0)
        ≡ count 33 three_sessions.sessions)
IsTable-account_example = IsTable-account true three_sessions 32 33 (omega arith) (omega arith)

abbrev two_pollers : Server
two_pollers = record {
  listen_world = record {
    sock = created 100;
    pollers = idle_pollers;
    sockplat_inited = false;
    taken = [];
    closed = [];
  };
  pollers = 0 ∷ 1 ∷ [];
  bindings = 500;
  manager_timers = λ i. false;
  with_manager = true;
  port = 0;
  started = false;
}

two_pollers_start :
    is_ok (start_server (λ i. true) (λ i. true) ok (ok, 9) 8080 two_pollers).0 ≡ true
unfolding start_server listen ensure_sockplat bind_all add close_fd detach_poller
    listen_attach_manager
two_pollers_start = refl

start_stop_example :
    Stopped 9 two_pollers (start_server (λ i. true) (λ i. true) ok (ok, 9) 8080 two_pollers).1
start_stop_example =
    start_stop (λ i. true) (λ i. true) ok (ok, 9) 8080 two_pollers refl refl refl
      (λ p. (idle_pollers-IsUnknown p).0) (λ p. omega arith) two_pollers_start
