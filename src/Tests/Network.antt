-- ===== src/Tests/Network.antt =====
-- The theorems on the reactor and its handlers at concrete inputs.
use order_forge_matching_eng.Common.{
  ℕ, ◌≡◌, refl, true, Bool-cases, inr, none, some, [], ◌∷◌, inl, arith, if◌then◌else◌, ◌==◌,
}
use order_forge_matching_eng.EventHandler.{
  EventHandler, connection_value, private_feed_orders, connection_handler, tcp_client,
  tcp_connection,
}
use order_forge_matching_eng.TcpReactor.{TcpReactor, find_object, broadcast_all, broadcast_set}
use order_forge_matching_eng.TcpReactor.Registry.{Inv}
use order_forge_matching_eng.TcpReactor.Broadcast.{messages, broadcast_all-sends}
use order_forge_matching_eng.TcpHandlers.{reads, read_failed, handle_event}
use order_forge_matching_eng.TcpHandlers.Safe.{handle_event-read_failed}

-- A client of the orders' feed, at address 7, and the listener that accepted it, at address 3.
abbrev pub client : EventHandler
client = record { handle = 7; fd = 12; connection_type = private_feed_orders; class = tcp_client }

abbrev pub listener : EventHandler
listener = record {
  handle = 3;
  fd = 10;
  connection_type = connection_handler;
  class = tcp_connection private_feed_orders;
}

abbrev pub reactor : TcpReactor
reactor = record {
  event_handlers = λ i. if i == 10 then client ∷ [] else if i == 1 then listener ∷ [] else [];
  objects = client ∷ listener ∷ [];
  sent = [];
}

pub reactor-Inv : Inv reactor
unfolding find_object connection_value
reactor-Inv = record {
  placed = λ i. elim (Bool-cases (i == 10)) [
    | inl same ↦ rw same ((ground (arith, same), refl), tt)
    | inr other ↦ rw other (elim (Bool-cases (i == 1)) [
      | inl same ↦ rw same ((ground (arith, same), refl), tt)
      | inr more ↦ rw more tt
    ])
  ];
  ascending = λ i. elim (Bool-cases (i == 10)) [
    | inl same ↦ rw same (tt, tt)
    | inr other ↦
        rw other
          (elim (Bool-cases (i == 1)) [ inl same ↦ rw same (tt, tt) | inr more ↦ rw more tt ])
  ];
}

broadcast_example :
    broadcast_all "m" private_feed_orders reactor ≡ some (record reactor { sent = (12, "m") ∷ [] })
unfolding messages connection_value
broadcast_example = broadcast_all-sends "m" private_feed_orders reactor reactor-Inv

read_failed_example :
    (r' : TcpReactor) × (handle_event ℕ [] client (reads read_failed) (reactor, 0) ≡ some (r', 0))
    × (broadcast_set (λ _. true) "m" (r'.event_handlers 10) r' ≡ none)
unfolding connection_value
read_failed_example = handle_event-read_failed ℕ [] client reactor 0 (λ _. true) "m" [] [] refl refl
