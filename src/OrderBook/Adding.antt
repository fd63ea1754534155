-- ===== src/OrderBook/Adding.antt =====
-- `OrderBook::add_order` of an admissible order to a well-formed book, whatever the type of the order.
use order_forge_matching_eng.Common.{
  ◌<◌, ◌≡◌, ◌⊎◌, ap, ◌&&◌, ◌||◌, refl, sym, subst, true, false, not, inl, inr, Bool, Bool-cases,
  if◌then◌else◌, Option, some, ◌>>=◌, arith,
}
use order_forge_matching_eng.Enums.{OrderType, limit, market, fill_and_kill, is_filled}
use order_forge_matching_eng.Order.{Order, is_buy, is_same_symbol, set_symbol}
use order_forge_matching_eng.PriceLevel.Queue.{open_qty}
use order_forge_matching_eng.PriceLevel.Trace.{crossed}
use order_forge_matching_eng.OrderBook.{
  reject_order, Event, order_update, order_book_update, Session, notify, is_crossing_order,
  match_order, rest_unfilled, limit_order, market_order, fill_and_kill_order, dispatch,
  with_order_id, add_order,
}
use order_forge_matching_eng.BookSide.{empty}
use order_forge_matching_eng.OrderBook.Spec.{Queues, spec_match, spec_rest, spec_reject, spec_add}
use order_forge_matching_eng.OrderBook.Queues.{
  queues, meets-queues, is_nil-queues, spec_match-queues, spec_rest-queues,
}
use order_forge_matching_eng.OrderBook.Invariant.{Inv, IsBook-Inv}
use order_forge_matching_eng.OrderBook.Match.{
  opposite_queue, matched_book, matched_session, match_order-matched_session,
}
use order_forge_matching_eng.OrderBook.Trading.{matched_book-Inv}
use order_forge_matching_eng.OrderBook.Resting.{IsAdmissible, rested, rested-Inv, rest_order-rested}
use order_forge_matching_eng.OrderBook.LeftOver.{
  crossed_lem, remaining_qty-lt, IsAdmissible-matched_book, uncrossed_of_nil, nil_of_outlasted,
}

-- The call returns, leaves a well-formed book, and does what the specification does.
abbrev pub Keeps : Option (Session × Order) → Queues × Order → Type 0
Keeps r spec =
    (s : Session) × (o : Order) × (r ≡ some (s, o)) × Inv s.book × ((queues s.book, o) ≡ spec)

book-notify : (set : Bool) (e : Event) (s : Session) → (notify set e s).book ≡ s.book
book-notify set e s = ground arith

module _ (s : Session) (v : Inv s.book) where
  done_rest :
      {o : Order} → is_filled o.status ≡ true → (queues s.book, o) ≡ spec_rest (queues s.book) o
  unfolding spec_rest
  done_rest {o} done = rw done refl

  rest_unfilled-Keeps :
      (o : Order)
      → (is_filled o.status ≡ true) ⊎ (IsAdmissible s.book o × (is_crossing_order s.book o ≡ false))
      → Keeps (rest_unfilled s o) (spec_rest (queues s.book) o)
  unfolding rest_unfilled
  rest_unfilled-Keeps o (inl done) = (s, o, rw done refl, v, done_rest done)
  rest_unfilled-Keeps o (inr (n, apart)) = elim (Bool-cases (is_filled o.status)) [
    | inl done ↦ (s, o, rw done refl, v, done_rest done)
    | inr not_done ↦
        let (update, rests) = rest_order-rested s.book o v apart n in
        let b = rested s.book o in
        let s' =
          notify b.handlers.public_order_book (order_book_update update) (record s { book = b }) in
        (
          s',
          o,
          rw (not_done, rests) refl,
          subst Inv
              (sym (
                book-notify b.handlers.public_order_book (order_book_update update)
                  (record s { book = b })))
              (rested-Inv s.book o v apart n),
          rw
              (book-notify b.handlers.public_order_book (order_book_update update)
                (record s { book = b }))
              (sym (spec_rest-queues s.book o v n not_done)),
        )
  ]

module _ (s : Session) (v : Inv s.book) (o : Order) (n : IsAdmissible s.book o) where
  matched-book : match_order s o ≡ (matched_session s o, crossed o (opposite_queue s.book o))
  matched-book = match_order-matched_session s o (IsBook-Inv v) (remaining_qty-lt s.book o n)

  -- What is left of an order that outlasts the opposite side finds it empty.
  left_over :
      open_qty (opposite_queue s.book o) < o.remaining_qty
      → let x = crossed o (opposite_queue s.book o) in
        IsAdmissible (matched_book s.book o) x
        × (is_crossing_order (matched_book s.book o) x ≡ false)
  left_over h =
      let x = crossed o (opposite_queue s.book o) in
      let (rem, ids, side, _) = crossed_lem o (opposite_queue s.book o) n.positive in
      (
        IsAdmissible-matched_book s.book o x n (omega (arith, rem, h)) (omega (arith, rem)) ids
            side,
        uncrossed_of_nil (matched_book s.book o) x (nil_of_outlasted s.book o x v h side),
      )

  matched-Inv : Inv (matched_session s o).book
  unfolding matched_session
  matched-Inv = matched_book-Inv s.book o v

  matched_rest :
      Keeps
        (rest_unfilled (matched_session s o) (crossed o (opposite_queue s.book o)))
        (spec_rest (queues (matched_book s.book o)) (crossed o (opposite_queue s.book o)))
  unfolding matched_session
  matched_rest =
      let (_, _, _, ends) = crossed_lem o (opposite_queue s.book o) n.positive in
      elim ends [
        | inl done ↦ rest_unfilled-Keeps (matched_session s o) matched-Inv _ (inl done)
        | inr more ↦ rest_unfilled-Keeps (matched_session s o) matched-Inv _ (inr (left_over more))
      ]

  limit_order-Keeps : Keeps (limit_order s o) (spec_add limit (queues s.book) o)
  unfolding limit_order spec_add
  limit_order-Keeps = elim (Bool-cases (is_crossing_order s.book o)) [
    | inl crosses ↦
        rw (meets-queues s.book o v, crosses, matched-book, spec_match-queues s.book o v)
          matched_rest
    | inr apart ↦ rw (meets-queues s.book o v, apart) (rest_unfilled-Keeps s v o (inr (n, apart)))
  ]

  match_order-Keeps : Keeps (some (match_order s o)) (spec_match (queues s.book) o)
  unfolding matched_session
  match_order-Keeps = (
    matched_session s o,
    crossed o (opposite_queue s.book o),
    ap some matched-book,
    matched-Inv,
    sym (spec_match-queues s.book o v),
  )

  dispatch-Keeps : (type : OrderType) → Keeps (dispatch type s o) (spec_add type (queues s.book) o)
  unfolding spec_add spec_reject dispatch market_order fill_and_kill_order reject_order
  dispatch-Keeps limit = limit_order-Keeps
  dispatch-Keeps market =
      elim (Bool-cases ((is_buy o && empty s.book.asks) || (not (is_buy o) && empty s.book.bids))) [
        | inl nobody ↦ rw (← is_nil-queues s.book o v, nobody) (s, reject_order o, refl, v, refl)
        | inr someone ↦ rw (← is_nil-queues s.book o v, someone) match_order-Keeps
      ]
  dispatch-Keeps fill_and_kill = elim (Bool-cases (is_crossing_order s.book o)) [
    | inl crosses ↦ rw (meets-queues s.book o v, crosses) match_order-Keeps
    | inr apart ↦ rw (meets-queues s.book o v, apart) (s, reject_order o, refl, v, refl)
  ]

-- The order that the book goes on with.
abbrev pub named_order : Session → Order → Order
named_order s o = (with_order_id s (set_symbol s.book.symbol o)).1

pub with_order_id-book : (s : Session) (o : Order) → (with_order_id s o).0.book ≡ s.book
unfolding with_order_id
with_order_id-book s o = ground arith

announced_Keeps :
    (r : Option (Session × Order)) (spec : Queues × Order)
    → Keeps r spec
    → Keeps (do (s, o) ← r; some (notify s.book.handlers.private_order (order_update o) s, o)) spec
announced_Keeps r spec (s, o, e, v, q) = (
  notify s.book.handlers.private_order (order_update o) s,
  o,
  rw e refl,
  subst Inv (sym (book-notify s.book.handlers.private_order (order_update o) s)) v,
  rw (book-notify s.book.handlers.private_order (order_update o) s) q,
)

-- The specification of `add_order`: an order for another symbol is left alone.
abbrev pub spec_add_order : Session → Order → Queues × Order
spec_add_order s o =
    if not (is_same_symbol s.book.symbol o)
    then (queues s.book, o)
    else spec_add (named_order s o).type (queues s.book) (named_order s o)

-- `add_order` implements the specification. Let the book be well formed, and let the order, once it has
-- its id, have a positive remaining quantity and an id that is set and not in use, and keep the open
-- quantity of its side below 2^64. Then no assertion fails, the book is well formed afterwards, and its
-- queues and the order are those of the specification, whatever the type of the order.
pub add_order-spec_add_order :
    (s : Session) (o : Order)
    → Inv s.book
    → IsAdmissible s.book (named_order s o)
    → Keeps (add_order s o) (spec_add_order s o)
unfolding add_order with_order_id
add_order-spec_add_order s o v n = elim (Bool-cases (is_same_symbol s.book.symbol o)) [
  | inr other ↦ rw other (s, o, refl, v, refl)
  | inl same ↦ rw same (
      announced_Keeps (dispatch x.type s₁ x) (spec_add x.type (queues s.book) x) (
        rw at_book (
          dispatch-Keeps s₁ (subst Inv (sym book) v) x (subst (λ b. IsAdmissible b x) (sym book) n)
            x.type)))
]
  where
    s₁ : Session
    s₁ = (with_order_id s (set_symbol s.book.symbol o)).0

    x : Order
    x = named_order s o

    book : s₁.book ≡ s.book
    book = with_order_id-book s (set_symbol s.book.symbol o)

    at_book : queues s.book ≡ queues s₁.book
    at_book = ap queues (sym book)
