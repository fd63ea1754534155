-- ===== src/Lib.antt =====
-- OrderForge's limit order book (order_forge/), from the messages' orders to the trades that the
-- handlers hear of.
--
-- An order enters by `OrderBook::add_order`. It gets an id if it has none; a limit or fill-and-kill
-- order whose price meets the best opposite level, and a market order that finds anybody, is
-- matched: the book hands a `MatchingEngine` to the opposite `BookSide`, which lets one `PriceLevel`
-- after another match its orders, oldest first; the engine records trades, changed orders and the
-- levels whose filled orders the book then removes. What is left of a limit order rests on its own
-- side, and the book's map of ids learns where. `OrderBook::remove_order` finds an order by that map.
--
-- The files, by what they model of the repository:
--   ScaledInt        order_forge/data_types/scaled_int.h: quantities wrap at 2^64, prices are compared
--   Enums, Order, Trade, IdGenerator    the headers of those names in order_forge/data_types/
--   NodeList, HashLinkedList    order_forge/data_types/hashed_linked_list.h: the list that its nodes
--                    stand for, and the nodes on the heap with the index
--   MatchingEngine   order_forge/matching_engine.h, .cpp
--   PriceLevel       order_forge/price_level.h, .cpp
--   OrderBookData    order_forge/order_book_data.h: `std::flat_map` as a list in key order
--   BookSide         order_forge/book_side.h, over the order of its prices (`CompFunc`)
--   OrderBook        order_forge/order_book.h, .cpp
--   PoolAllocator    order_forge/data_types/pool_allocator.h: the free list, elements by block and index
--   Logs             the `*Log` structs of order.h, trade.h and price_level.h
--   RingBuffer       logger/ring_buffer.h: where chunks stand, each operation one step
--   Logger           logger/logger.h, with the types of defines.h and data_structs.h; Logger.Prepend has
--                    the texts "[class::function] [LEVEL]" of defines.h
--   JsonLibrary      the JSON library, `magic_enum` and the arithmetic on `double`, as interfaces
--   MessageProtocol, MessageProtocolWrite    message_protocols/json/message_protocol_json.h and
--                    message_protocol_write_json.h
--   EventHandler, TcpReactor, TcpHandlers    event_loop/event_handler_base.h; tcp_reactor.cpp;
--                    tcp_client_handler.cpp, tcp_connection_handler.cpp and reactor.h
--   Config           config/config_helpers.h, and the configurations that are read with it
--   OrderForgeApp    applications/order_forge_app/order_forge_app.cpp; OrderForgeApp.Start has its
--                    constructor, and OrderForgeApp.Running what the started program can come to
-- The files below each of these hold its proofs; `OrderBook.Spec` is what the book promises with no
-- levels, and `HashLinkedList.Refines` and `HashLinkedList.Commands` relate the heap to the sequence.
-- `Tests` runs the definitions and has the theorems at concrete inputs.
--
-- A client's message is parsed into an order by the protocol, the app finds the book of its symbol and
-- adds the order, and what the book's handlers hear is written as messages and broadcast by the
-- reactor to the clients of each feed. What is logged goes through the ring buffer to a thread that
-- prints it.
--
-- Names are those of the source. A method that changes an object returns the object after the call;
-- an `assert` that fails is `none`. A `Session` is a book, the id generators of orders and trades that
-- the process shares, and the calls of the handlers so far. Nodes and levels are values: a marked
-- node is named by its id, a level to be swept by its price, and a level that has left the map is out
-- of reach.
--
-- Third-party code is a parameter: `JsonLibrary`, `JsonWriter`, `EnumNames` and `Scaling` for the
-- protocols, `HashLinkedList.Index` for `tsl::robin_map`, `Sizes` for `sizeof`; `Tests` has an
-- instance of each. The answers of system calls are arguments of the events. `none` is what the
-- code does not survive: an uncaught exception, an exit, a null or deleted object. Loops go over
-- lists, but for the logging thread, the iteration over a list and its destructor, which run on
-- fuel: as many turns as there are entries or nodes, and one more for the last test, are proved to
-- be enough.
--
-- The buffer's invariant has the writer in the reader's block or in the next one, however many
-- blocks there are; `RingBuffer.Lost` is about a writer that is further ahead. A `Symbol` is a text of its own, but where the app reads it from a JSON value that
-- is destroyed, what the memory still shows is a parameter. `Reactor` runs for the rounds it is
-- given, since the app never stops it.
--
-- Not modelled: the bytes of the buffer (a struct is what its `get_str` gives), the texts that the log
-- macros of logger/defines.h give to fmt, and the destructor of the reactor. The local date and the
-- time stamps are arguments. `BookSide::remove_orders` is never instantiated, and would not compile.
pub mod Common
pub mod ScaledInt
pub mod Enums
pub mod IdGenerator
pub mod Order
pub mod Trade
pub mod MatchingEngine
pub mod HashLinkedList
pub mod JsonLibrary
pub mod MessageProtocol
pub mod MessageProtocolWrite
pub mod EventHandler
pub mod TcpReactor
pub mod TcpHandlers
pub mod Config
pub mod OrderForgeApp
pub mod NodeList
pub mod PriceLevel
pub mod OrderBookData
pub mod BookSide
pub mod OrderBook
pub mod Logs
pub mod PoolAllocator
pub mod RingBuffer
pub mod Logger
mod Tests
