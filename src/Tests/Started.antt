-- ===== src/Tests/Started.antt =====
-- The program from its start, at a concrete configuration.
use order_forge_matching_eng.Common.{ℕ, ◌+◌, ◌≡◌, refl, true, some, [], ◌∷◌, arith}
use order_forge_matching_eng.Common.Int.{pos}
use order_forge_matching_eng.OrderBook.{order_book}
use order_forge_matching_eng.Config.{OrderForgeAppConfig, get_default_logger_config}
use order_forge_matching_eng.EventHandler.{
  EventHandler, private_feed_orders, connection_handler, tcp_client, tcp_connection,
  connection_value,
}
use order_forge_matching_eng.TcpReactor.{
  TcpReactor, ctl_done, find_object, is_watched, register_handler, insert, set_at,
}
use order_forge_matching_eng.TcpReactor.Registry.{Inv}
use order_forge_matching_eng.TcpHandlers as Handlers
use order_forge_matching_eng.TcpHandlers.{
  Accepted, accepts, reads, received, Callback, call_handlers, handle_accept,
}
use order_forge_matching_eng.TcpHandlers.Safe.{handle_event-Inv}
use order_forge_matching_eng.OrderForgeApp.Running.{handle_event-IsKeeping}
use Prim.Native.String.{String}
use order_forge_matching_eng.Common.{◌⊎◌, List, none}
use order_forge_matching_eng.TcpHandlers.Listen.{
  Listening, tcp_connection_handler, add_listener, tcp_reactor,
}
use order_forge_matching_eng.OrderForgeApp.{
  OrderForgeApp, add_books, app_handlers, find_book, handle_event,
}
use order_forge_matching_eng.OrderForgeApp.Start.{add_listeners, order_forge_app}
use order_forge_matching_eng.OrderForgeApp.Running.{AreApart, Running, running-Inv}
use order_forge_matching_eng.Tests.Books.{two_sides}
use order_forge_matching_eng.Tests.Fixtures.{symbol}
use order_forge_matching_eng.Tests.Messages.{order_message}
use order_forge_matching_eng.Tests.Toy.{toy, toy_writer, scaling, sides, types, statuses}

abbrev config : OrderForgeAppConfig
config = record {
  app_id = "app";
  logger_config = get_default_logger_config;
  listener_configs = record { port = pos 9000; connection_type = some private_feed_orders } ∷ [];
  order_book_configs = record { symbol = symbol; tick_size = pos 1 } ∷ [];
}

-- The listener with index `i` has its object at address `100 + i`.
abbrev answers : ℕ → Listening
answers i = record {
  fd = 10 + i;
  option_set = true;
  bound = true;
  listening = true;
  handle = 100 + i;
  added = ctl_done;
  changed = ctl_done;
}

answers-AreApart : AreApart answers
answers-AreApart i j e = omega (arith, e)

abbrev listener : EventHandler
listener = record {
  handle = 100;
  fd = 10;
  connection_type = connection_handler;
  class = tcp_connection private_feed_orders;
}

abbrev client : EventHandler
client = record { handle = 7; fd = 12; connection_type = private_feed_orders; class = tcp_client }

abbrev at_start : TcpReactor
at_start = record {
  event_handlers = set_at 1 (listener ∷ []) (λ i. []);
  objects = listener ∷ [];
  sent = [];
}

abbrev with_client : TcpReactor
with_client = record {
  event_handlers = set_at 10 (client ∷ []) at_start.event_handlers;
  objects = client ∷ listener ∷ [];
  sent = [];
}

abbrev app : OrderForgeApp
app = record {
  order_books = (symbol, order_book symbol (pos 1) app_handlers) ∷ [];
  order_ids = two_sides.order_ids;
  trade_ids = two_sides.trade_ids;
}

starts :
    order_forge_app true answers config two_sides.order_ids two_sides.trade_ids
    ≡ some (at_start, app)
unfolding order_forge_app add_listeners add_listener tcp_connection_handler tcp_reactor add_books
    find_book register_handler is_watched insert connection_value
starts = refl

abbrev arrival : Accepted
arrival = record { client_fd = 12; handle = 7; added = ctl_done; changed = ctl_done }

client_arrives :
    Handlers.handle_event OrderForgeApp
      (handle_event
          (toy order_message)
          (toy_writer order_message)
          scaling
          sides
          types
          statuses
          (λ s. some s)
          0
        ∷ [])
      listener
      (accepts (some arrival))
      (at_start, app)
    ≡ some (with_client, app)
unfolding Handlers.handle_event handle_accept register_handler is_watched insert connection_value
client_arrives = refl

with_client-Running :
    Running
      (toy order_message)
      (toy_writer order_message)
      scaling
      sides
      types
      statuses
      with_client
      app
unfolding find_object is_watched
with_client-Running =
    Running.served (λ s. some s) 0 listener (accepts (some arrival)) at_start with_client app app
      (Running.started answers config two_sides.order_ids two_sides.trade_ids at_start app
        answers-AreApart starts)
      refl (private_feed_orders, refl, refl, refl) client_arrives

running_example : Inv with_client
running_example =
    running-Inv (toy order_message) (toy_writer order_message) scaling sides types statuses
      with_client app with_client-Running

-- The callback that the program gives to every handler.
abbrev callbacks : List (Callback OrderForgeApp)
callbacks =
    handle_event (toy order_message) (toy_writer order_message) scaling sides types statuses
      (λ s. some s) 0
    ∷ []

message_example :
    ((r' : TcpReactor) × (a' : OrderForgeApp) × (Handlers.handle_event OrderForgeApp callbacks
          client
          (reads (received "order"))
          (with_client, app)
        ≡ some (r', a'))
      × Inv r')
    ⊎ ((message : String) × (reads (received "order") ≡ reads (received message))
        × (call_handlers OrderForgeApp callbacks message (with_client, app) ≡ none)
        × (Handlers.handle_event OrderForgeApp callbacks client
              (reads (received "order"))
              (with_client, app)
            ≡ none))
unfolding find_object
message_example =
    handle_event-Inv OrderForgeApp callbacks client (reads (received "order")) with_client app
      (
        handle_event-IsKeeping (toy order_message) (toy_writer order_message) scaling sides types
            statuses (λ s. some s) 0,
        tt,
      )
      (running-Inv (toy order_message) (toy_writer order_message) scaling sides types statuses
        with_client app with_client-Running)
      refl refl
