-- ===== src/PriceLevel/Trace.antt =====
-- What the engine records while it goes down a queue: the trades, the orders that it changed and
-- the crossing order.
use order_forge_matching_eng.Common.{
  ℕ, ◌-◌, ◌≡◌, ◌≢◌, refl, ◌==◌, if◌then◌else◌, min, inl, inr, sym, Bool-cases, List, [], ◌∷◌, ◌++◌,
  arith, append-nil, append_assoc,
}
use order_forge_matching_eng.ScaledInt.{Quantity}
use order_forge_matching_eng.IdGenerator.{IdGenerator, generate_id}
use order_forge_matching_eng.Order.{Order}
use order_forge_matching_eng.Trade.{Trade}
use order_forge_matching_eng.MatchingEngine.{MatchingEngine, remaining_qty}
use order_forge_matching_eng.MatchingEngine.Fill.{matched_with, trade_of, met}
use order_forge_matching_eng.NodeList.{NodeList}
use order_forge_matching_eng.PriceLevel.Queue.{open_qty, fills, fills-zero}
use order_forge_matching_eng.PriceLevel.Fill.{met_all}

-- The trades of a crossing order that takes these quantities from these orders.
unfoldable pub trades_from : IdGenerator → Order → List (Order × Quantity) → List Trade
trades_from g x [] = []
trades_from g x (f ∷ fs) = (trade_of g x f).1 ∷ trades_from (generate_id g).0 x fs

-- The generator after as many trades.
unfoldable pub ids_after : IdGenerator → List (Order × Quantity) → IdGenerator
ids_after g [] = g
ids_after g (f ∷ fs) = ids_after (generate_id g).0 fs

-- The passive orders as the engine reports them.
unfoldable pub modified : Quantity → NodeList Order → List Order
modified q [] = []
modified q ((_, o) ∷ nodes) =
    let rest = modified (q - o.remaining_qty) nodes in
    if q == 0 then [] else matched_with q o ∷ rest

-- The crossing order after it has met a queue.
unfoldable pub crossed : Order → NodeList Order → Order
crossed x [] = x
crossed x (node ∷ nodes) =
    if x.remaining_qty == 0 then x else matched_with (open_qty (node ∷ nodes)) x

pub crossed-zero : (x : Order) (nodes : NodeList Order) → x.remaining_qty ≡ 0 → crossed x nodes ≡ x
unfolding crossed
crossed-zero x [] h = refl
crossed-zero x (n ∷ nodes) h = ground arith

modified-zero : (nodes : NodeList Order) → modified 0 nodes ≡ []
unfolding modified
modified-zero [] = refl
modified-zero ((id, o) ∷ nodes) = refl

-- The crossing order's remaining quantity does not show in a trade.
trades_from-matched_with :
    (g : IdGenerator) (x : Order) (q : Quantity) (fs : List (Order × Quantity))
    → trades_from g (matched_with q x) fs ≡ trades_from g x fs
unfolding trades_from trade_of matched_with
trades_from-matched_with g x q [] = refl
trades_from-matched_with g x q (f ∷ fs) =
    ground (arith, trades_from-matched_with (generate_id g).0 x q fs)

crossed-matched_with :
    (x : Order) (id : ℕ) (o : Order) (nodes : NodeList Order)
    → x.remaining_qty ≢ 0
    → crossed (matched_with o.remaining_qty x) nodes ≡ crossed x ((id, o) ∷ nodes)
unfolding crossed matched_with open_qty
crossed-matched_with x id o [] h = ground arith
crossed-matched_with x id o ((i, p) ∷ nodes) h = ground arith

unfoldable pub recorded : MatchingEngine → NodeList Order → MatchingEngine
recorded e nodes = record e {
  original_order = crossed e.original_order nodes;
  trades = e.trades ++ trades_from e.trade_ids e.original_order (fills (remaining_qty e) nodes);
  modified_orders = e.modified_orders ++ modified (remaining_qty e) nodes;
  trade_ids = ids_after e.trade_ids (fills (remaining_qty e) nodes);
}

recorded-zero :
    (e : MatchingEngine) (nodes : NodeList Order) → remaining_qty e ≡ 0 → recorded e nodes ≡ e
unfolding recorded trades_from ids_after
recorded-zero e nodes h = ground (
  arith,
  crossed-zero e.original_order nodes,
  modified-zero nodes,
  fills-zero nodes,
  append-nil e.trades,
  append-nil e.modified_orders,
)

recorded-nil : (e : MatchingEngine) → recorded e [] ≡ e
unfolding recorded trades_from ids_after crossed modified fills
recorded-nil e = ground (arith, append-nil e.trades, append-nil e.modified_orders)

recorded-met :
    (e : MatchingEngine) (id : ℕ) (o : Order) (nodes : NodeList Order)
    → remaining_qty e ≢ 0
    → recorded (met e o) nodes ≡ recorded e ((id, o) ∷ nodes)
unfolding recorded met fills modified trades_from ids_after
recorded-met e id o nodes h =
    let q = remaining_qty e - o.remaining_qty in
    let g = (generate_id e.trade_ids).0 in
    ground (
      arith,
      crossed-matched_with e.original_order id o nodes,
      trades_from-matched_with g e.original_order o.remaining_qty (fills q nodes),
      append_assoc e.trades
          ((trade_of e.trade_ids e.original_order (o, min o.remaining_qty (remaining_qty e))).1
            ∷ [])
          (trades_from g e.original_order (fills q nodes)),
      append_assoc e.modified_orders (matched_with (remaining_qty e) o ∷ []) (modified q nodes),
    )

-- A queue leaves on the engine its trades, the orders it changed and the crossing order.
pub met_all-recorded :
    (e : MatchingEngine) (nodes : NodeList Order) → met_all e nodes ≡ recorded e nodes
unfolding met_all
met_all-recorded e [] = sym (recorded-nil e)
met_all-recorded e ((id, o) ∷ nodes) = elim (Bool-cases (remaining_qty e == 0)) [
  | inl used ↦
      rw (used, met_all-recorded e nodes, recorded-zero e nodes (ground arith))
        (sym (recorded-zero e ((id, o) ∷ nodes) (ground arith)))
  | inr more ↦
      rw (more, met_all-recorded (met e o) nodes) (recorded-met e id o nodes (ground arith))
]
