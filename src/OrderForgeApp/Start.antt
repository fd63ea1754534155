-- ===== src/OrderForgeApp/Start.antt =====
-- The constructor of `OrderForgeApp` in applications/order_forge_app/order_forge_app.cpp: the reactor
-- with a listener for each configured port, and the books, before the first turn of the loop. The
-- logger that it starts is a component of its own.
use order_forge_matching_eng.Common.{ℕ, suc, Bool, Option, some, ◌>>=◌, List, [], ◌∷◌}
use order_forge_matching_eng.ScaledInt.{Price}
use order_forge_matching_eng.Enums.{Symbol}
use order_forge_matching_eng.IdGenerator.{IdGenerator}
use order_forge_matching_eng.Config.{TcpListenerConfig, OrderBookConfig, OrderForgeAppConfig}
use order_forge_matching_eng.TcpReactor.{TcpReactor}
use order_forge_matching_eng.TcpHandlers.Listen.{Listening, add_listener, tcp_reactor}
use order_forge_matching_eng.OrderForgeApp.{OrderForgeApp, add_books}

-- The listeners, of which the one with index `i` meets `answers i`. The type of a listener that has
-- none in the configuration is indeterminate.
unfoldable pub add_listeners :
    (answers : ℕ → Listening) (i : ℕ) → List TcpListenerConfig → TcpReactor → Option TcpReactor
add_listeners answers i [] r = some r
add_listeners answers i (cfg ∷ cfgs) r = do
  next_con_type ← cfg.connection_type
  r₁ ← add_listener next_con_type (answers i) r
  add_listeners answers (suc i) cfgs r₁

abbrev pub book_configs : List OrderBookConfig → List (Symbol × Price)
book_configs [] = []
book_configs (cfg ∷ cfgs) = (cfg.symbol, cfg.tick_size) ∷ book_configs cfgs

unfoldable pub order_forge_app :
    (created : Bool) (answers : ℕ → Listening)
    → OrderForgeAppConfig
    → (order_ids trade_ids : IdGenerator) → Option (TcpReactor × OrderForgeApp)
order_forge_app created answers config order_ids trade_ids = do
  r ← tcp_reactor created
  r₁ ← add_listeners answers 0 config.listener_configs r
  some (
    r₁,
    record {
      order_books = add_books (book_configs config.order_book_configs) [];
      order_ids = order_ids;
      trade_ids = trade_ids;
    },
  )
