-- ===== src/TcpReactor.antt =====
-- event_loop/tcp_reactor.cpp: the registered handlers, and what is sent to them. `none` is an exit of
-- the process, or an access to a handler that is deleted.
pub mod Registry
pub mod Broadcast
use Prim.Native.String.{String}
use order_forge_matching_eng.Common.{
  ℕ, zero, suc, Bool, true, false, not, ◌&&◌, ◌||◌, ◌==◌, ltb, if◌then◌else◌, Option, none, some,
  ◌>>=◌, List, [], ◌∷◌, ◌++◌,
}
use order_forge_matching_eng.EventHandler.{
  ConnectionType, undefined, connection_handler, connection_value, same_connection, HandlerClass,
  tcp_client, tcp_connection, EventHandler,
}

-- `event_handlers_`, `UINT8_MAX` sets of pointers, as a function of the index. `objects` are the
-- handlers that are allocated, and `sent` what `send` was called with, oldest first.
pub record TcpReactor : Type 0 where
  pub event_handlers : ℕ → List EventHandler
  pub objects : List EventHandler
  pub sent : List (ℕ × String)

abbrev pub sets : ℕ
sets = 255

-- What `epoll_ctl` answers.
pub data CtlResult : Type 0 where
  ctl_done ctl_exists ctl_failed : CtlResult

-- A `std::set` of pointers, which are ordered by the address.
unfoldable pub insert : EventHandler → List EventHandler → List EventHandler
insert h [] = h ∷ []
insert h (g ∷ set) =
    let rest = insert h set in
    if ltb h.handle g.handle
    then h ∷ g ∷ set
    else if h.handle == g.handle
    then g ∷ set
    else g ∷ rest

unfoldable pub erase : ℕ → List EventHandler → List EventHandler
erase handle [] = []
erase handle (g ∷ set) = if g.handle == handle then set else g ∷ erase handle set

abbrev pub set_at : ℕ → List EventHandler → (ℕ → List EventHandler) → ℕ → List EventHandler
set_at i set sets j = if j == i then set else sets j

abbrev pub is_done : CtlResult → Bool
is_done ctl_done = true
is_done _ = false

-- The handler is watched after `EPOLL_CTL_ADD`, or `EPOLL_CTL_MOD` if it was watched already.
unfoldable pub is_watched : (added changed : CtlResult) → Bool
is_watched ctl_done changed = true
is_watched ctl_exists changed = is_done changed
is_watched ctl_failed changed = false

unfoldable pub register_handler :
    (added changed : CtlResult) → EventHandler → TcpReactor → Option TcpReactor
register_handler added changed handler r =
    let i = connection_value handler.connection_type in
    if is_watched added changed
    then some (record r {
      event_handlers = set_at i (insert handler (r.event_handlers i)) r.event_handlers;
    })
    else none

unfoldable pub unregister_handler :
    (del : CtlResult) → EventHandler → TcpReactor → Option TcpReactor
unregister_handler del handler r =
    let i = connection_value handler.connection_type in
    if is_done del
    then some (record r {
      event_handlers = set_at i (erase handler.handle (r.event_handlers i)) r.event_handlers;
    })
    else none

unfoldable pub find_object : ℕ → List EventHandler → Option EventHandler
find_object handle [] = none
find_object handle (o ∷ objects) = if o.handle == handle then some o else find_object handle objects

unfoldable pub free_object : ℕ → List EventHandler → List EventHandler
free_object handle [] = []
free_object handle (o ∷ objects) =
    if o.handle == handle then free_object handle objects else o ∷ free_object handle objects

-- `delete handler`
abbrev pub delete_handler : ℕ → TcpReactor → TcpReactor
delete_handler handle r = record r { objects = free_object handle r.objects }

-- The virtual `send_buffer`: a connection handler only logs; an error of `send` is only logged.
unfoldable pub send_buffer : String → EventHandler → TcpReactor → Option TcpReactor
send_buffer message handler r = do
  object ← find_object handler.handle r.objects
  elim object.class [
    | tcp_client ↦ some (record r { sent = r.sent ++ (object.fd, message) ∷ [] })
    | tcp_connection _ ↦ some r
  ]

-- One set, filtered.
unfoldable pub broadcast_set :
    (EventHandler → Bool) → String → List EventHandler → TcpReactor → Option TcpReactor
broadcast_set is message [] r = some r
broadcast_set is message (h ∷ set) r = do
  object ← find_object h.handle r.objects
  r₁ ← if is object then send_buffer message h r else some r
  broadcast_set is message set r₁

-- The sets from the one with index `i` on, `n` of them.
unfoldable pub broadcast_sets :
    (EventHandler → Bool) → String → (n i : ℕ) → TcpReactor → Option TcpReactor
broadcast_sets is message zero i r = some r
broadcast_sets is message (suc n) i r = do
  r₁ ← broadcast_set is message (r.event_handlers i) r
  broadcast_sets is message n (suc i) r₁

unfoldable pub broadcast_all : String → ConnectionType → TcpReactor → Option TcpReactor
broadcast_all message con_type =
    broadcast_sets (λ handler. same_connection handler.connection_type con_type) message sets 0

-- `is_connected_client`
abbrev pub is_connected_client : EventHandler → Bool
is_connected_client handler = not (
    same_connection handler.connection_type undefined
    || same_connection handler.connection_type connection_handler)

unfoldable pub broadcast_everyone : String → TcpReactor → Option TcpReactor
broadcast_everyone message = broadcast_sets is_connected_client message sets 0
