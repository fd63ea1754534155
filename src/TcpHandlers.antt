-- ===== src/TcpHandlers.antt =====
-- event_loop/tcp_client_handler.cpp, tcp_connection_handler.cpp, `TCPReactor::run` and reactor.h:
-- what happens on the events of one poll. What the system calls answer is part of the event. `none`
-- is an exit of the process, an exception that nobody catches, or an access to a deleted handler.
pub mod Safe
pub mod Listen
pub mod Kept
use Prim.Native.String.{String}
use order_forge_matching_eng.Common.{
  ℕ, zero, suc, Bool, true, false, ◌&&◌, if◌then◌else◌, Option, none, some, ◌>>=◌, List, [], ◌∷◌,
  ◌++◌,
}
use order_forge_matching_eng.EventHandler.{
  ConnectionType, connection_handler, HandlerClass, tcp_client, tcp_connection, EventHandler,
}
use order_forge_matching_eng.TcpReactor.{
  TcpReactor, CtlResult, find_object, delete_handler, register_handler, unregister_handler,
}

pub data ReadResult : Type 0 where
  read_failed : ReadResult
  disconnected : (del : CtlResult) → ReadResult
  received : String → ReadResult

-- A connection that is accepted, at the address where `new` puts its handler.
pub record Accepted : Type 0 where
  pub client_fd : ℕ
  pub handle : ℕ
  pub added : CtlResult
  pub changed : CtlResult

-- What the handler finds when it is called with `EPOLLIN`.
pub data Ready : Type 0 where
  reads : ReadResult → Ready
  accepts : Option Accepted → Ready

-- One entry of `events_`: the pointer to the handler, and what it finds, if `EPOLLIN` is set.
pub record PollEvent : Type 0 where
  pub handle : ℕ
  pub ready : Option Ready

-- The reactor and what the callbacks of the handlers work on.
module _ (A : Type 0) where
  abbrev pub World : Type 0
  World = TcpReactor × A

  -- `std::function<void(const char*, size_t)>`
  abbrev pub Callback : Type 0
  Callback = String → World → Option World

  -- `for (const auto& handler: handlers_) { handler(buffer, n); }`
  unfoldable pub call_handlers : List Callback → String → World → Option World
  call_handlers [] message w = some w
  call_handlers (f ∷ fs) message w = do w₁ ← f message w; call_handlers fs message w₁

  -- `TCPClientHandler::handle_event`. A failed read closes the socket and deletes the handler.
  unfoldable pub handle_read : List Callback → EventHandler → ReadResult → World → Option World
  handle_read handlers self read_failed (r, a) = some (delete_handler self.handle r, a)
  handle_read handlers self (disconnected del) (r, a) = do
    r₁ ← unregister_handler del self r
    some (delete_handler self.handle r₁, a)
  handle_read handlers self (received message) w = call_handlers handlers message w

  abbrev pub client_handler : ConnectionType → Accepted → EventHandler
  client_handler next c = record {
    handle = c.handle;
    fd = c.client_fd;
    connection_type = next;
    class = tcp_client;
  }

  -- `TCPConnectionHandler::handle_event`
  unfoldable pub handle_accept : ConnectionType → Option Accepted → World → Option World
  handle_accept next none w = some w
  handle_accept next (some c) (r, a) = do
    let handler = client_handler next c
    r₁ ← register_handler c.added c.changed handler (record r { objects = handler ∷ r.objects })
    some (r₁, a)

  -- The virtual `handle_event`. A client only reads and a listener only accepts: the answer of the
  -- other call is no event of the handler.
  unfoldable pub handle_event : List Callback → EventHandler → Ready → World → Option World
  handle_event handlers self (reads result) w = elim self.class [
    | tcp_client ↦ handle_read handlers self result w
    | tcp_connection _ ↦ none
  ]
  handle_event handlers self (accepts result) w = elim self.class [
    | tcp_client ↦ none
    | tcp_connection next ↦ handle_accept next result w
  ]

  -- The loop of `TCPReactor::run` over what `epoll_wait` has answered.
  unfoldable pub run : List Callback → List PollEvent → World → Option World
  run handlers [] w = some w
  run handlers (e ∷ events) (r, a) = do
    self ← find_object e.handle r.objects
    w₁ ← elim e.ready [ none ↦ some (r, a) | some ready ↦ handle_event handlers self ready (r, a) ]
    run handlers events w₁

  -- `Reactor::run` in reactor.h, round after round over its items, until `stop` clears the flag: an item
  -- returns the world after its turn, and whether the flag is still set.
  unfoldable pub run_items :
      List (World → Option (World × Bool)) → World → Bool → Option (World × Bool)
  run_items [] w running = some (w, running)
  run_items (item ∷ items) w running = do
    (w₁, still) ← item w
    run_items items w₁ (running && still)

  unfoldable pub run_reactor :
      (rounds : ℕ) → List (World → Option (World × Bool)) → World → Option World
  run_reactor zero items w = none
  run_reactor (suc rounds) items w = do
    (w₁, still) ← run_items items w true
    let rest = run_reactor rounds items w₁
    if still then rest else some w₁
