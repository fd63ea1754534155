-- ===== src/TcpHandlers/Listen.antt =====
-- The constructor of `TCPConnectionHandler` in event_loop/tcp_connection_handler.cpp, and that of
-- `TCPReactor`. What the system calls answer is an argument.
use order_forge_matching_eng.Common.{ℕ, Bool, if◌then◌else◌, Option, none, some, ◌>>=◌, [], ◌∷◌}
use order_forge_matching_eng.EventHandler.{
  ConnectionType, connection_handler, tcp_connection, EventHandler,
}
use order_forge_matching_eng.TcpReactor.{TcpReactor, CtlResult, register_handler}

-- What a listener meets as it starts: the descriptor of its socket, whether `setsockopt`, `bind` and
-- `listen` succeed, the address of its object, and what `epoll_ctl` answers.
pub record Listening : Type 0 where
  pub fd : ℕ
  pub option_set : Bool
  pub bound : Bool
  pub listening : Bool
  pub handle : ℕ
  pub added : CtlResult
  pub changed : CtlResult

-- `none` is an exit of the process. The port is only passed to `bind`.
unfoldable pub tcp_connection_handler : ConnectionType → Listening → Option EventHandler
tcp_connection_handler next_con_type s =
    if s.option_set
    then if s.bound
      then if s.listening
        then some (record {
          handle = s.handle;
          fd = s.fd;
          connection_type = connection_handler;
          class = tcp_connection next_con_type;
        })
        else none
      else none
    else none

-- A new listener, registered.
unfoldable pub add_listener : ConnectionType → Listening → TcpReactor → Option TcpReactor
add_listener next_con_type s r = do
  tcp_handler ← tcp_connection_handler next_con_type s
  register_handler s.added s.changed tcp_handler (record r { objects = tcp_handler ∷ r.objects })

-- `TCPReactor::TCPReactor`
unfoldable pub tcp_reactor : (created : Bool) → Option TcpReactor
tcp_reactor created =
    if created then some (record { event_handlers = λ i. []; objects = []; sent = [] }) else none
