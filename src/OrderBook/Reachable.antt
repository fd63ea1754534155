-- ===== src/OrderBook/Reachable.antt =====
-- The sessions that calls of `OrderBook` lead to, from a book that is just made.
use order_forge_matching_eng.Common.{◌≡◌, refl, Option, none, some, [], ◌∷◌, arith, sym, subst, ◌∙◌}
use order_forge_matching_eng.Common.Int.{◌<ℤ◌}
use order_forge_matching_eng.ScaledInt.{Price}
use order_forge_matching_eng.IdGenerator.{Date, id_generator}
use order_forge_matching_eng.Enums.{Symbol, OrderId}
use order_forge_matching_eng.Order.{Order}
use order_forge_matching_eng.BookSide.{best_price, book_side}
use order_forge_matching_eng.BookSide.Match.{all_nodes}
use order_forge_matching_eng.BookSide.Fill.{cont_of}
use order_forge_matching_eng.OrderBookData.{OrderBookContainer}
use order_forge_matching_eng.OrderBook.{
  Handlers, OrderBook, Session, order_book, add_order, remove_order,
}
use order_forge_matching_eng.OrderBook.Invariant.{Inv, Uncrossed}
use order_forge_matching_eng.OrderBook.Resting.{IsAdmissible}
use order_forge_matching_eng.OrderBook.Adding.{named_order, add_order-spec_add_order}
use order_forge_matching_eng.OrderBook.Cancelled.{remove_order-Cancels}

-- The session of a book that is just made, by the process's id generators.
unfoldable pub new_session : Symbol → Price → Handlers → Date → Date → Session
new_session symbol tick_size handlers order_date trade_date = record {
  book = order_book symbol tick_size handlers;
  order_ids = id_generator order_date;
  trade_ids = id_generator trade_date;
  events = [];
}

pub data Reachable : Session → Type 0 where
  made :
      (symbol : Symbol) (tick_size : Price) (handlers : Handlers) (order_date trade_date : Date)
      → Reachable (new_session symbol tick_size handlers order_date trade_date)
  added :
      (s s' : Session) (o o' : Order)
      → Reachable s
      → IsAdmissible s.book (named_order s o)
      → add_order s o ≡ some (s', o')
      → Reachable s'
  removed : (s : Session) (id : OrderId) → Reachable s → Reachable (remove_order s id)

made-Inv :
    (symbol : Symbol) (tick_size : Price) (handlers : Handlers)
    → Inv (order_book symbol tick_size handlers)
unfolding order_book book_side all_nodes
made-Inv symbol tick_size handlers = record {
  bids = record { is_side = refl; sorted = tt; entries = tt };
  asks = record { is_side = refl; sorted = tt; entries = tt };
  bids_known = tt;
  asks_known = tt;
  named = tt;
  uncrossed = tt;
}

same_session :
    (s t : Session) (o x : Order)
    → Path (Option (Session × Order)) (some (s, o)) (some (t, x))
    → s ≡ t
same_session s t o x e = ground arith

-- Every session that is reachable by adding admissible orders and by cancelling any ids has a
-- well-formed book.
pub reachable-Inv : (s : Session) → Reachable s → Inv s.book
unfolding new_session
reachable-Inv s (made symbol tick_size handlers order_date trade_date) =
    made-Inv symbol tick_size handlers
reachable-Inv s' (added s _ o o' r n e) =
    let (t, x, f, v, _) = add_order-spec_add_order s o (reachable-Inv s r) n in
    subst (λ u. Inv u.book) (same_session t s' x o' (sym f ∙ e)) v
reachable-Inv _ (removed s id r) = (remove_order-Cancels s id (reachable-Inv s r)).0

uncrossed_best :
    (b : OrderBook) (p q : Price)
    → Inv b
    → best_price b.bids ≡ some p
    → best_price b.asks ≡ some q
    → p <ℤ q
uncrossed_best b p q v e f = go (cont_of b.bids) (cont_of b.asks) v.uncrossed e f
  where
    go :
        (bids asks : OrderBookContainer)
        → Uncrossed bids asks
        → elim bids [ [] ↦ none | h ∷ _ ↦ some h.0 ] ≡ some p
        → elim asks [ [] ↦ none | h ∷ _ ↦ some h.0 ] ≡ some q
        → p <ℤ q
    go [] asks u e f = cc
    go (h ∷ bids) [] u e f = cc
    go ((k, l) ∷ bids) ((j, m) ∷ asks) u e f = ground arith

-- In every session that is reachable by cancelling any ids and by adding orders of positive remaining

-- quantity, whose ids are set and not in use and which keep the open quantity of their side below
-- 2^64, the best bid is below the best ask: the book is never left crossed.
pub reachable-uncrossed :
    (s : Session) (p q : Price)
    → Reachable s
    → best_price s.book.bids ≡ some p
    → best_price s.book.asks ≡ some q
    → p <ℤ q
reachable-uncrossed s p q r = uncrossed_best s.book p q (reachable-Inv s r)
