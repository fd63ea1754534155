-- ===== src/EventHandler.antt =====
-- event_loop/event_handler_base.h, tcp_client_handler.h and tcp_connection_handler.h: the objects that
-- the reactor keeps pointers to.
use order_forge_matching_eng.Common.{ℕ, Bool, ◌==◌}

pub data ConnectionType : Type 0 where
  undefined connection_handler private_feed_orders private_feed_trades private_feed_account
        public_feed_order_book public_feed_last_trade :
      ConnectionType

-- `static_cast<uint8_t>(ct)`
unfoldable pub connection_value : ConnectionType → ℕ
connection_value undefined = 0
connection_value connection_handler = 1
connection_value private_feed_orders = 10
connection_value private_feed_trades = 11
connection_value private_feed_account = 12
connection_value public_feed_order_book = 20
connection_value public_feed_last_trade = 21

-- `a == b` on connection types
abbrev pub same_connection : ConnectionType → ConnectionType → Bool
same_connection a b = connection_value a == connection_value b

-- A `TCPClientHandler`, or a `TCPConnectionHandler` with the type of the connections it accepts.
pub data HandlerClass : Type 0 where
  tcp_client : HandlerClass
  tcp_connection : (next_connection_type : ConnectionType) → HandlerClass

-- `handle` is the object's address.
pub record EventHandler : Type 0 where
  pub handle : ℕ
  pub fd : ℕ
  pub connection_type : ConnectionType
  pub class : HandlerClass
