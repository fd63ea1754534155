-- ===== src/OrderBook/Takers.antt =====
-- Market and fill-and-kill orders, which take and never rest.
use order_forge_matching_eng.Common.{
  ◌<◌, ◌≡◌, ◌≢◌, ◌⊎◌, refl, ap, not, ◌&&◌, ◌||◌, inl, inr, Bool-cases, some, ◌∙◌,
}
use order_forge_matching_eng.ScaledInt.{u64_mod}
use order_forge_matching_eng.Enums.{OrderType, limit, market, fill_and_kill, rejected}
use order_forge_matching_eng.Order.{Order, is_buy, set_status}
use order_forge_matching_eng.BookSide.{empty}
use order_forge_matching_eng.OrderBook.{
  Session, match_order, is_crossing_order, market_order, fill_and_kill_order, reject_order,
  dispatch,
}
use order_forge_matching_eng.OrderBook.Invariant.{Inv, IsBook-Inv}
use order_forge_matching_eng.OrderBook.Match.{matched_session, match_order-matched_session}
use order_forge_matching_eng.OrderBook.Resting.{own_side}
use order_forge_matching_eng.OrderBook.LeftOver.{matched_book-own}

-- The order has taken what it could, or it was refused and the session is as it was.
abbrev pub Takes : Session → Order → Session × Order → Type 0
Takes s o r =
    (own_side r.0.book o ≡ own_side s.book o)
    × (r.0.book.orders_id_map ≡ s.book.orders_id_map)
    × ((r ≡ match_order s o) ⊎ (r ≡ (s, set_status rejected o)))

module _ (s : Session) (o : Order) (v : Inv s.book) (h : o.remaining_qty < u64_mod) where
  match_order-Takes : Takes s o (match_order s o)
  unfolding matched_session
  match_order-Takes =
      let e = match_order-matched_session s o (IsBook-Inv v) h in
      let (own, known) = matched_book-own s.book o in
      (
        ap (λ (r : Session × Order). own_side r.0.book o) e ∙ own,
        ap (λ (r : Session × Order). r.0.book.orders_id_map) e ∙ known,
        inl refl,
      )

  refused-Takes : Takes s o (s, reject_order o)
  unfolding reject_order
  refused-Takes = (refl, refl, inr refl)

  market_order-Takes : Takes s o (market_order s o)
  unfolding market_order
  market_order-Takes =
      elim (Bool-cases ((is_buy o && empty s.book.asks) || (not (is_buy o) && empty s.book.bids))) [
        | inl nobody ↦ rw nobody refused-Takes
        | inr someone ↦ rw someone match_order-Takes
      ]

  fill_and_kill_order-Takes : Takes s o (fill_and_kill_order s o)
  unfolding fill_and_kill_order
  fill_and_kill_order-Takes = elim (Bool-cases (is_crossing_order s.book o)) [
    | inl crosses ↦ rw crosses match_order-Takes
    | inr apart ↦ rw apart refused-Takes
  ]

-- In a well-formed book an order that is not a limit order never rests: the call returns, the
-- order's own side and the map of ids are as before, and either the order was matched or it is
-- rejected and nothing else has changed.
pub dispatch-Takes :
    (s : Session) (o : Order) (type : OrderType)
    → Inv s.book
    → o.remaining_qty < u64_mod
    → type ≢ limit
    → (r : Session × Order) × (dispatch type s o ≡ some r) × Takes s o r
unfolding dispatch
dispatch-Takes s o limit v h other = absurd (other refl)
dispatch-Takes s o market v h other = (market_order s o, refl, market_order-Takes s o v h)
dispatch-Takes s o fill_and_kill v h other =
    (fill_and_kill_order s o, refl, fill_and_kill_order-Takes s o v h)
