-- ===== src/Tests/AppRuns.antt =====
-- The theorems on the app and the logger at concrete inputs.
use Prim.Native.String.{String}
use order_forge_matching_eng.Common.{
  ℕ, ◌≡◌, refl, true, Option, none, some, [], ◌∷◌, ◌++◌, inl, arith,
}
use order_forge_matching_eng.Enums.{buy, limit}
use order_forge_matching_eng.Order.{Order, set_symbol}
use order_forge_matching_eng.OrderBook.{add_order, Session}
use order_forge_matching_eng.OrderBook.Adding.{named_order}
use order_forge_matching_eng.OrderBook.Resting.{IsAdmissible}
use order_forge_matching_eng.OrderBook.Invariant as BookInvariant
use order_forge_matching_eng.MessageProtocol.Required.{first_missing}
use order_forge_matching_eng.TcpReactor.Broadcast.{with_sent}
use order_forge_matching_eng.OrderForgeApp.{
  OrderForgeApp, find_book, put_book, session_of, handle_event,
}
use order_forge_matching_eng.OrderForgeApp.Dispatch.{feed, handle_event-missing, handle_event-feed}
use order_forge_matching_eng.Logger.{
  LogStruct, LogInfo, Logger, format_string, Sizes, logger, register_common_types, register_type,
  write_buffer, stop, log_type_value,
}
use order_forge_matching_eng.Logger.Prepend.{get_str, c_str, find_static}
use order_forge_matching_eng.Logger.Prepend.Spelled.{prepend, get_str-prepend}
use order_forge_matching_eng.Logger.Drains.{Stored, shown, stop-prints}
use order_forge_matching_eng.Logger.Writes.{write_buffer-Stored}
use order_forge_matching_eng.RingBuffer.{
  Pointer, ring_buffer, get_write_pointer, make_room, forward_write_pointer,
}
use order_forge_matching_eng.RingBuffer.Fifo
use order_forge_matching_eng.RingBuffer.Fifo.{ring_buffer-Inv}
use order_forge_matching_eng.Tests.Books.{two_sides, two_sides-Inv}
use order_forge_matching_eng.Tests.Fixtures.{symbol, order, program}
use order_forge_matching_eng.Tests.Messages.{order_message, short_message, is_accepted}
use order_forge_matching_eng.Tests.Network.{reactor, reactor-Inv}
use order_forge_matching_eng.Tests.Toy.{
  toy, toy_writer, toy_at, toy_field, scaling, sides, types, statuses,
}

-- One book, with an ask of 5 at 100.
abbrev app : OrderForgeApp
app = record {
  order_books = (symbol, two_sides.book) ∷ [];
  order_ids = two_sides.order_ids;
  trade_ids = two_sides.trade_ids;
}

-- The memory of the JSON value is not used again yet.
abbrev intact : String → Option String
intact symbol = some symbol

message-IsAdmissible :
    IsAdmissible two_sides.book
      (named_order (session_of two_sides.book app) (set_symbol symbol (order limit buy 101 7 3)))
unfolding program
message-IsAdmissible = record {
  positive = omega arith;
  named = λ e. omega arith;
  unknown = refl;
  fits = omega arith;
}

app_missing_example :
    handle_event
      (toy short_message)
      (toy_writer short_message)
      scaling
      sides
      types
      statuses
      intact
      0
      "order"
      (reactor, app)
    ≡ none
unfolding first_missing toy_at toy_field
app_missing_example =
    handle_event-missing (toy short_message) (toy_writer short_message) scaling sides types statuses
      intact 0 "order" "price" short_message reactor app refl refl

feed_example :
    (s : Session) × (o' : Order) × (add_order
        (session_of two_sides.book app)
        (set_symbol symbol (order limit buy 101 7 3))
      ≡ some (s, o'))
    × BookInvariant.Inv s.book
    × (handle_event
          (toy order_message)
          (toy_writer order_message)
          scaling
          sides
          types
          statuses
          intact
          0
          "order"
          (reactor, app)
        ≡ some (
          with_sent
              (feed
                (toy order_message)
                (toy_writer order_message)
                scaling
                sides
                types
                statuses
                reactor
                s.events)
              reactor,
          record app {
            order_books = put_book symbol s.book app.order_books;
            order_ids = s.order_ids;
            trade_ids = s.trade_ids;
          },
        ))
unfolding find_book
feed_example =
    handle_event-feed (toy order_message) (toy_writer order_message) scaling sides types statuses
      intact 0 "order" (order limit buy 101 7 3) symbol symbol two_sides.book reactor app
      is_accepted refl refl reactor-Inv two_sides-Inv message-IsAdmissible

-- A logger with five blocks, as by default.
abbrev sizes : Sizes
sizes = record { log_info = 24; log_struct = λ _. 32 }

abbrev five_blocks : Logger
five_blocks = register_common_types (logger true true 1 5)

abbrev greeting : LogInfo × LogStruct
greeting = (
  record { log_type = format_string; prepend = "[App::run] [INFO]" },
  record { type = format_string; str = "hello" },
)

abbrev one_entry : Logger
one_entry = write_buffer sizes format_string "[App::run] [INFO]" greeting.1 five_blocks

log_write_example :
    (chunk : Pointer × ℕ) × Fifo.Inv one_entry.ring ([] ++ chunk ∷ [])
    × Stored sizes one_entry.memory five_blocks.function_register
        ([] ++ chunk ∷ [])
        ([] ++ greeting ∷ [])
unfolding register_common_types register_type logger ring_buffer log_type_value
log_write_example =
    write_buffer-Stored sizes format_string "[App::run] [INFO]" greeting.1 five_blocks [] []
      (ring_buffer-Inv 1048576 5 (omega arith) (omega arith)) tt refl (omega arith) (omega arith)
      (inl (omega arith))

-- The entry fills the first 56 bytes.
abbrev chunks : Fifo.Chunks
chunks = (record { block = 0; offset = 0 }, 56) ∷ []

one_entry-Inv : Fifo.Inv one_entry.ring chunks
unfolding write_buffer register_common_types register_type logger ring_buffer get_write_pointer
    make_room forward_write_pointer
one_entry-Inv = record {
  many = omega arith;
  block = omega arith;
  size = omega arith;
  inside = omega arith;
  ends = omega arith;
  place = inl (record { same = refl; unclosed = refl; tiles = (refl, omega arith, refl) });
}

one_entry-Stored : Stored sizes one_entry.memory one_entry.function_register chunks (greeting ∷ [])
unfolding write_buffer register_common_types register_type logger ring_buffer get_write_pointer
    make_room forward_write_pointer log_type_value
one_entry-Stored = (refl, refl, refl, tt)

stop_example :
    (l' : Logger) × (stop 2 sizes one_entry ≡ some l')
    × (l'.log_file
        ≡ shown one_entry.log_file_open one_entry.log_file ("[App::run] [INFO] hello" ∷ []))
    × (l'.std_out
        ≡ shown one_entry.write_std_out one_entry.std_out ("[App::run] [INFO] hello" ∷ []))
stop_example =
    stop-prints 2 sizes one_entry chunks (greeting ∷ []) one_entry-Inv one_entry-Stored
      (omega arith)

-- "App" and "run" at "INFO", and then "Box" and "put".
prepend_example :
    let (statics, first) =
      get_str (65 ∷ 112 ∷ 112 ∷ []) (114 ∷ 117 ∷ 110 ∷ []) (73 ∷ 78 ∷ 70 ∷ 79 ∷ []) 6 [] in
    let (_, later) =
      get_str (66 ∷ 111 ∷ 120 ∷ []) (112 ∷ 117 ∷ 116 ∷ []) (73 ∷ 78 ∷ 70 ∷ 79 ∷ []) 6 statics in
    (c_str 18 first 0
      ≡ some (prepend (65 ∷ 112 ∷ 112 ∷ []) (114 ∷ 117 ∷ 110 ∷ []) (73 ∷ 78 ∷ 70 ∷ 79 ∷ [])))
    × (c_str 18 later 0
        ≡ some (prepend (65 ∷ 112 ∷ 112 ∷ []) (114 ∷ 117 ∷ 110 ∷ []) (73 ∷ 78 ∷ 70 ∷ 79 ∷ [])))
unfolding find_static
prepend_example =
    get_str-prepend (65 ∷ 112 ∷ 112 ∷ []) (114 ∷ 117 ∷ 110 ∷ []) (73 ∷ 78 ∷ 70 ∷ 79 ∷ [])
      (66 ∷ 111 ∷ 120 ∷ []) (112 ∷ 117 ∷ 116 ∷ []) (73 ∷ 78 ∷ 70 ∷ 79 ∷ []) 6 []
      (refl, (refl, (refl, tt))) (refl, (refl, (refl, tt))) (refl, (refl, (refl, (refl, tt)))) refl
      refl refl refl
