-- ===== src/BookSide/Cancel.antt =====
-- `BookSide::remove_order` computed. A look-up that makes a level for a stale entry leaves no trace,
-- and what is left is the side's queue without the order.
use order_forge_matching_eng.Common.{
  ◌≡◌, ◌⊎◌, ◌≢◌, ◌∙◌, refl, sym, false, inl, inr, Option-cases, ◌==◌, if◌then◌else◌, none, some, [],
  ◌∷◌, All, arith,
}
use order_forge_matching_eng.ScaledInt.{Price}
use order_forge_matching_eng.Enums.{Side, OrderId}
use order_forge_matching_eng.Order.{FindOrderHelper}
use order_forge_matching_eng.NodeList.{contains, remove}
use order_forge_matching_eng.PriceLevel.{PriceLevel, price_level, update}
use order_forge_matching_eng.PriceLevel.Orders.{
  IsResting-remove, Distinct-remove, IsBalanced-remove,
}
use order_forge_matching_eng.OrderBookData.{
  CompFunc, OrderBookContainer, find, emplace, erase, store, remove_book_level,
}
use order_forge_matching_eng.OrderBookData.Sorted.{Sorted, After, After-trans}
use order_forge_matching_eng.OrderBookData.Entries.{All-find}
use order_forge_matching_eng.BookSide.{BookSide, remove_order}
use order_forge_matching_eng.BookSide.Match.{all_nodes}
use order_forge_matching_eng.BookSide.Sweep.{with_levels}
use order_forge_matching_eng.BookSide.Fill.{cont_of}
use order_forge_matching_eng.BookSide.Invariant.{IsEntry, SideInv}
use order_forge_matching_eng.BookSide.Enqueue.{contains-append}
use order_forge_matching_eng.BookSide.Add.{level_at, put, get_book_level-store}
use order_forge_matching_eng.BookSide.Without.{
  without, without-absent, without-price, remove_order-update, find-nil, empty-of-open_qty,
  order_cont-without, remove-absent, contains_of_find, remove-append,
}

module _ (c : CompFunc) where
  erase-emplace :
      (p : Price) (l : PriceLevel) (cont : OrderBookContainer)
      → find c p cont ≡ none
      → erase c p (emplace c p l cont) ≡ cont
  unfolding find emplace erase
  erase-emplace p l [] h = ground (arith, c.irrefl p)
  erase-emplace p l ((k, old) ∷ rest) h = ground (arith, c.irrefl p, erase-emplace p l rest)

  -- The map without the order with this id at a price; a level that wants nothing more goes too.
  unfoldable pub cancel_cont : Price → OrderId → OrderBookContainer → OrderBookContainer
  cancel_cont p id [] = []
  cancel_cont p id ((k, l) ∷ rest) =
      let l' = without id l in
      let kept : OrderBookContainer = if l'.total_qty == 0 then rest else (k, l') ∷ rest in
      if c.comp k p
      then (k, l) ∷ cancel_cont p id rest
      else if c.comp p k
      then (k, l) ∷ rest
      else kept

  cancel_cont-none :
      (p : Price) (id : OrderId) (cont : OrderBookContainer)
      → find c p cont ≡ none
      → cancel_cont p id cont ≡ cont
  unfolding find cancel_cont
  cancel_cont-none p id [] h = refl
  cancel_cont-none p id ((k, l) ∷ rest) h = ground (arith, cancel_cont-none p id rest)

  cancel_cont-some :
      (p : Price) (id : OrderId) (l : PriceLevel) (cont : OrderBookContainer)
      → find c p cont ≡ some l
      → let l' = without id l in
        cancel_cont p id cont
        ≡ (if l'.total_qty == 0 then erase c p (store c p l' cont) else store c p l' cont)
  unfolding find cancel_cont store erase
  cancel_cont-some p id l [] h = cc
  cancel_cont-some p id l ((k, m) ∷ rest) h =
      ground (arith, cancel_cont-some p id l rest, c.irrefl p)

  pub remove_order-cancel_cont :
      (side : Side) (b : BookSide) (helper : FindOrderHelper)
      → SideInv c side b
      → let l' = without helper.order_id (level_at c b.levels helper.price) in
        remove_order c b helper ≡ (
          with_levels (cancel_cont helper.price helper.order_id (cont_of b)) b,
          update l' l'.symbol,
        )
  unfolding remove_order remove_book_level level_at put price_level
  remove_order-cancel_cont side b helper v =
      let p = helper.price in
      let id = helper.order_id in
      elim (Option-cases (find c p (cont_of b))) [
        | inl e ↦
            let fresh = price_level b.levels.symbol p b.levels.side in
            ground (
              arith,
              e,
              get_book_level-store c b.levels p fresh,
              remove_order-update id fresh,
              without-absent id fresh,
              find-nil id,
              erase-emplace p fresh (cont_of b) e,
              cancel_cont-none p id (cont_of b) e,
            )
        | inr (l, e) ↦ ground (
          arith,
          e,
          get_book_level-store c b.levels p (without id l),
          remove_order-update id l,
          without-price id l,
          All-find c (IsEntry side) p l (cont_of b) v.entries e,
          cancel_cont-some p id l (cont_of b) e,
        )
      ]

  After-cancel_cont :
      (k p : Price) (id : OrderId) (cont : OrderBookContainer)
      → After c k cont
      → After c k (cancel_cont p id cont)
  unfolding cancel_cont
  After-cancel_cont k p id [] a = tt
  After-cancel_cont k p id ((j, l) ∷ rest) a = ground (arith, After-cancel_cont k p id rest a.1)

  cancel_cont-Sorted :
      (p : Price) (id : OrderId) (cont : OrderBookContainer)
      → Sorted c cont
      → Sorted c (cancel_cont p id cont)
  unfolding cancel_cont
  cancel_cont-Sorted p id [] s = tt
  cancel_cont-Sorted p id ((k, l) ∷ rest) s =
      ground (arith, cancel_cont-Sorted p id rest s.1, After-cancel_cont k p id rest s.0)

  without-IsEntry :
      (side : Side) (p : Price) (id : OrderId) (l : PriceLevel)
      → IsEntry side (p, l)
      → (without id l).total_qty ≢ 0
      → IsEntry side (p, without id l)
  without-IsEntry side p id l v h =
      let cont : (without id l).order_cont ≡ remove id l.order_cont = order_cont-without id l in
      (
        (without-price id l ∙ v.0.0, IsBalanced-remove l id v.0.1),
        rw cont (IsResting-remove side p id l.order_cont v.1),
        rw cont (Distinct-remove id l.order_cont v.2),
        omega arith,
      )

  pub cancel_cont-entries :
      (side : Side) (p : Price) (id : OrderId) (cont : OrderBookContainer)
      → All (IsEntry side) cont
      → All (IsEntry side) (cancel_cont p id cont)
  unfolding cancel_cont
  cancel_cont-entries side p id [] vs = tt
  cancel_cont-entries side p id ((k, l) ∷ rest) vs =
      ground (arith, cancel_cont-entries side p id rest vs.1, without-IsEntry side k id l vs.0)

  pub cancel_cont-SideInv :
      (side : Side) (b : BookSide) (p : Price) (id : OrderId)
      → SideInv c side b
      → SideInv c side (with_levels (cancel_cont p id (cont_of b)) b)
  cancel_cont-SideInv side b p id v = record {
    is_side = v.is_side;
    sorted = cancel_cont-Sorted p id (cont_of b) v.sorted;
    entries = cancel_cont-entries side p id (cont_of b) v.entries;
  }

  -- An order with this id rests at this price, if at all.
  abbrev pub OnlyAt : Price → OrderId → OrderBookContainer → Type 0
  OnlyAt p id = All λ (e : Price × PriceLevel). (contains id e.1.order_cont ≡ false) ⊎ (e.0 ≡ p)

  pub absent-After :
      (p : Price) (id : OrderId) (cont : OrderBookContainer)
      → OnlyAt p id cont
      → After c p cont
      → contains id (all_nodes cont) ≡ false
  unfolding contains all_nodes
  absent-After p id [] only a = refl
  absent-After p id ((k, l) ∷ rest) only a = ground (
    arith,
    contains-append id l.order_cont (all_nodes rest),
    absent-After p id rest only.1,
    c.irrefl p,
  )

  -- A level that wants nothing more is empty.
  empty-without :
      (side : Side) (p : Price) (id : OrderId) (l : PriceLevel)
      → IsEntry side (p, l)
      → (without id l).total_qty ≡ 0
      → remove id l.order_cont ≡ []
  empty-without side p id l v h =
      empty-of-open_qty side p _ (IsResting-remove side p id l.order_cont v.1)
        (rw (← order_cont-without id l) (omega (arith, (IsBalanced-remove l id v.0.1).total)))

  pub all_nodes-cancel_cont :
      (side : Side) (p : Price) (id : OrderId) (cont : OrderBookContainer)
      → All (IsEntry side) cont
      → Sorted c cont
      → OnlyAt p id cont
      → all_nodes (cancel_cont p id cont) ≡ remove id (all_nodes cont)
  unfolding all_nodes cancel_cont
  all_nodes-cancel_cont side p id [] vs s only =
      sym (remove-absent id [] (contains_of_find id [] (find-nil id)))
  all_nodes-cancel_cont side p id ((k, l) ∷ rest) vs s only = ground (
    arith,
    c.irrefl p,
    c.total k p,
    remove-append id l.order_cont (all_nodes rest),
    all_nodes-cancel_cont side p id rest vs.1 s.1 only.1,
    absent-After p id rest only.1,
    After-trans c p k rest,
    remove-absent id (all_nodes rest),
    remove-absent id l.order_cont,
    order_cont-without id l,
    empty-without side k id l vs.0,
  )
