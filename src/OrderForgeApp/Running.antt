-- ===== src/OrderForgeApp/Running.antt =====
-- The program from its start on: the listeners open, and events are handled one after another.
use order_forge_matching_eng.Common.{
  ℕ, suc, ◌≤◌, ◌≡◌, refl, sym, ◌∙◌, ap, subst, true, false, Bool, Option, none, some, bind-inv,
  List, [], ◌∷◌, arith,
}
use order_forge_matching_eng.Enums.{Side, OrderStatus, OrderType, Symbol}
use order_forge_matching_eng.Order.{Order, set_symbol}
use order_forge_matching_eng.IdGenerator.{IdGenerator}
use order_forge_matching_eng.OrderBook.{OrderBook, add_order}
use order_forge_matching_eng.JsonLibrary.{JsonLibrary, JsonWriter, Scaling, EnumNames}
use order_forge_matching_eng.MessageProtocol.{get_value, parse_order}
use order_forge_matching_eng.Config.{TcpListenerConfig, OrderForgeAppConfig}
use order_forge_matching_eng.EventHandler.{EventHandler}
use order_forge_matching_eng.TcpReactor.{TcpReactor, find_object}
use order_forge_matching_eng.TcpReactor.Registry.{Inv}
use order_forge_matching_eng.TcpHandlers as Handlers
use order_forge_matching_eng.TcpHandlers.{Ready}
use order_forge_matching_eng.TcpHandlers.Listen.{Listening, tcp_reactor, add_listener}
use order_forge_matching_eng.TcpHandlers.Safe.{some_inj, IsKeeping, IsOrderly}
use order_forge_matching_eng.TcpHandlers.Kept.{handle_event-keeps, add_listener-keeps}
use order_forge_matching_eng.OrderForgeApp.{
  OrderForgeApp, find_book, session_of, update_handlers, add_to_book, handle_event,
}
use order_forge_matching_eng.OrderForgeApp.Dispatch.{update_handlers-feed}
use order_forge_matching_eng.OrderForgeApp.Start.{add_listeners, order_forge_app}

-- The listeners' objects are at different addresses.
abbrev pub AreApart : (ℕ → Listening) → Type 0
AreApart answers = (i j : ℕ) → (answers i).handle ≡ (answers j).handle → i ≡ j

add_listeners-Inv :
    (answers : ℕ → Listening)
    → AreApart answers
    → (i : ℕ) (cfgs : List TcpListenerConfig) (r r' : TcpReactor) → Inv r
    → ((j : ℕ) → i ≤ j → find_object (answers j).handle r.objects ≡ none)
    → add_listeners answers i cfgs r ≡ some r'
    → Inv r'
unfolding add_listeners
add_listeners-Inv answers apart i [] r r' v free e = subst Inv (some_inj e) v
add_listeners-Inv answers apart i (cfg ∷ cfgs) r r' v free e =
    let (next, _, f) = bind-inv cfg.connection_type _ r' e in
    let (r₁, added, rest) = bind-inv (add_listener next (answers i) r) _ r' f in
    let (w, others) = add_listener-keeps next (answers i) r r₁ v (free i (omega arith)) added in
    add_listeners-Inv answers apart (suc i) cfgs r₁ r' w
      (λ j later.
        others (answers j).handle
          (λ same. (let e' : j ≡ i = apart j i same in absurd (omega (arith, e', later))))
          (free j (omega (arith, later))))
      rest

order_forge_app-Inv :
    (created : Bool) (answers : ℕ → Listening) (config : OrderForgeAppConfig)
    (order_ids trade_ids : IdGenerator) (r : TcpReactor) (app : OrderForgeApp)
    → AreApart answers
    → order_forge_app created answers config order_ids trade_ids ≡ some (r, app)
    → Inv r
unfolding order_forge_app tcp_reactor find_object
order_forge_app-Inv true answers config order_ids trade_ids r app apart e =
    let empty : TcpReactor = record { event_handlers = λ i. []; objects = []; sent = [] } in
    let (r₁, listening, f) =
      bind-inv (add_listeners answers 0 config.listener_configs empty) _ (r, app) e in
    subst Inv (ap (λ (w : TcpReactor × OrderForgeApp). w.0) (some_inj f)) (
      add_listeners-Inv answers apart 0 config.listener_configs empty r₁
        (record { placed = λ i. tt; ascending = λ i. tt }) (λ j later. refl) listening)
order_forge_app-Inv false answers config order_ids trade_ids r app apart e =
    absurd (ground (arith, e))

module _ (J : JsonLibrary) (W : JsonWriter J) (S : Scaling J.Double) (sides : EnumNames Side)
    (types : EnumNames OrderType) (statuses : EnumNames OrderStatus) where
  add_to_book-keeps :
      (symbol : Symbol) (book : OrderBook) (order : Order) (r r' : TcpReactor)
      (app app' : OrderForgeApp)
      → Inv r
      → add_to_book J W S sides types statuses symbol book order (r, app) ≡ some (r', app')
      → Inv r'
  unfolding add_to_book
  add_to_book-keeps symbol book order r r' app app' v e =
      let ((s, x), _, f) = bind-inv (add_order (session_of book app) order) _ (r', app') e in
      let (r₁, told, g) =
        bind-inv (update_handlers J W S sides types statuses s.events r) _ (r', app') f in
      let sends = sym (update_handlers-feed J W S sides types statuses s.events r v) ∙ told in
      subst Inv (some_inj sends ∙ ap (λ (w : TcpReactor × OrderForgeApp). w.0) (some_inj g))
        (record { placed = v.placed; ascending = v.ascending })

  pub handle_event-IsKeeping :
      (left : Symbol → Option Symbol) (now : ℕ)
      → IsKeeping OrderForgeApp (handle_event J W S sides types statuses left now)
  unfolding handle_event
  handle_event-IsKeeping left now message r r' app app' v e =
      let (res, _, f) =
        bind-inv (parse_order J S sides types statuses now message) _ (r', app') e in
      let (order, _, g) = bind-inv (get_value res) _ (r', app') f in
      let (symbol, _, h) = bind-inv (left order.symbol) _ (r', app') g in
      go order (find_book symbol app.order_books) h
    where
      go :
          (order : Order) (found : Option (Symbol × OrderBook))
          → ◌≡◌ {A = Option (TcpReactor × OrderForgeApp)}
              (elim found [
                | none ↦ some (r, app)
                | some (symbol, book) ↦
                    add_to_book J W S sides types statuses symbol book
                      (set_symbol symbol order)
                      (r, app)
              ])
              (some (r', app'))
          → Inv r'
      go order none h = subst Inv (ap (λ (w : TcpReactor × OrderForgeApp). w.0) (some_inj h)) v
      go order (some (symbol, book)) h =
          add_to_book-keeps symbol book (set_symbol symbol order) r r' app app' v h

  -- What the program can come to. `handle_event` is the one callback of every handler.
  pub data Running : TcpReactor → OrderForgeApp → Type 0 where
    started :
        (answers : ℕ → Listening) (config : OrderForgeAppConfig) (order_ids trade_ids : IdGenerator)
        (r : TcpReactor) (app : OrderForgeApp)
        → AreApart answers
        → order_forge_app true answers config order_ids trade_ids ≡ some (r, app)
        → Running r app
    served :
        (left : Symbol → Option Symbol) (now : ℕ) (self : EventHandler) (ready : Ready)
        (r r' : TcpReactor) (app app' : OrderForgeApp)
        → Running r app
        → find_object self.handle r.objects ≡ some self
        → IsOrderly r self ready
        → Handlers.handle_event OrderForgeApp
            (handle_event J W S sides types statuses left now ∷ [])
            self
            ready
            (r, app)
          ≡ some (r', app')
        → Running r' app'

  -- Whatever the clients of the started program do, short of a read that fails, every handler that is
  -- registered is allocated and stands in the set of its connection type. The listeners' objects are
  -- at different addresses, an event is on an allocated handler, `new` gives an address that no handler
  -- has, and `epoll_ctl` succeeds.
  pub running-Inv : (r : TcpReactor) (app : OrderForgeApp) → Running r app → Inv r
  running-Inv r app (started answers config order_ids trade_ids _ _ apart e) =
      order_forge_app-Inv true answers config order_ids trade_ids r app apart e
  running-Inv r app (served left now self ready r₀ _ app₀ _ before there orderly e) =
      handle_event-keeps OrderForgeApp (handle_event J W S sides types statuses left now ∷ []) self
        ready r₀ r app₀ app (handle_event-IsKeeping left now, tt) (running-Inv r₀ app₀ before) there
        orderly e
