-- ===== src/BookSide/Rest.antt =====
-- An order of positive quantity, with an id that is not on the side, comes to rest there.
use order_forge_matching_eng.Common.{
  ℕ, ◌+◌, ◌≤◌, ◌<◌, ◌≡◌, ◌≢◌, refl, false, inl, inr, Option-cases, some, [], ◌∷◌, ◌++◌, All,
  All-append, arith,
}
use order_forge_matching_eng.ScaledInt.{Price, u64_mod, add_assign, add_assign-eq}
use order_forge_matching_eng.Enums.{Side}
use order_forge_matching_eng.Order.{Order}
use order_forge_matching_eng.NodeList.{contains}
use order_forge_matching_eng.PriceLevel.{PriceLevel, price_level, insert_order}
use order_forge_matching_eng.PriceLevel.Queue.{open_qty, open_qty-append}
use order_forge_matching_eng.PriceLevel.Fill.{IsBalanced}
use order_forge_matching_eng.PriceLevel.Orders.{
  IsResting, Distinct, Distinct-push, IsBalanced-insert,
}
use order_forge_matching_eng.OrderBookData.{CompFunc, OrderBookContainer, find}
use order_forge_matching_eng.OrderBookData.Sorted.{Sorted, store-Sorted, emplace-Sorted}
use order_forge_matching_eng.OrderBookData.Entries.{All-find, All-store, All-emplace}
use order_forge_matching_eng.BookSide.{BookSide, add_order}
use order_forge_matching_eng.BookSide.Match.{all_nodes}
use order_forge_matching_eng.BookSide.Sweep.{with_levels}
use order_forge_matching_eng.BookSide.Fill.{cont_of}
use order_forge_matching_eng.BookSide.Invariant.{IsEntry, SideInv}
use order_forge_matching_eng.BookSide.Add.{level_at, put, add_order_lem}
use order_forge_matching_eng.BookSide.Enqueue.{
  enqueue, contains-append, all_nodes-emplace, all_nodes-store,
}

module _ (c : CompFunc) where
  pub All-put :
      (P : Price × PriceLevel → Type 0) (p : Price) (l : PriceLevel) (cont : OrderBookContainer)
      → All P cont
      → P (p, l)
      → All P (put c p l cont)
  unfolding put
  All-put P p l cont a h = elim (Option-cases (find c p cont)) [
    | inl new ↦ rw (new, put) (All-emplace c P p l cont a h)
    | inr (old, e) ↦ rw (e, put) (All-store c P p l cont a h)
  ]

  put-Sorted :
      (p : Price) (l : PriceLevel) (cont : OrderBookContainer)
      → Sorted c cont
      → Sorted c (put c p l cont)
  unfolding put
  put-Sorted p l cont s = elim (Option-cases (find c p cont)) [
    | inl new ↦ rw (new, put) (emplace-Sorted c p l cont s)
    | inr (old, e) ↦ rw (e, put) (store-Sorted c p l cont s)
  ]

  -- A level that is found holds part of the side's orders.
  find-part :
      (side : Side) (id : ℕ) (p : Price) (l : PriceLevel) (cont : OrderBookContainer)
      → All (IsEntry side) cont
      → find c p cont ≡ some l
      → contains id (all_nodes cont) ≡ false
      → (contains id l.order_cont ≡ false) × (l.total_qty ≤ open_qty (all_nodes cont))
  unfolding find all_nodes
  find-part side id p l [] vs e h = cc
  find-part side id p l ((k, m) ∷ rest) vs e h = ground (
    arith,
    find-part side id p l rest vs.1,
    contains-append id m.order_cont (all_nodes rest),
    open_qty-append m.order_cont (all_nodes rest),
  )

  -- The side with the order added.
  unfoldable pub added : BookSide → Order → BookSide
  added b o =
      with_levels (put c o.price (insert_order (level_at c b.levels o.price) o).0 (cont_of b)) b

  module _ (side : Side) (b : BookSide) (o : Order) (v : SideInv c side b) (is_side : o.side ≡ side)
      (positive : 0 < o.remaining_qty) (new : contains o.order_id (all_nodes (cont_of b)) ≡ false)
      (fits : open_qty (all_nodes (cont_of b)) + o.remaining_qty < u64_mod) where
    target : PriceLevel
    target = level_at c b.levels o.price

    -- The level before the order joins it.
    level_at-ready :
        (target.price ≡ o.price)
        × IsBalanced target
        × All (IsResting side o.price) target.order_cont
        × Distinct target.order_cont
        × (contains o.order_id target.order_cont ≡ false)
        × (target.total_qty + o.remaining_qty < u64_mod)
    unfolding target level_at price_level open_qty contains
    level_at-ready = elim (Option-cases (find c o.price (cont_of b))) [
      | inl e ↦
          rw (e, level_at)
            (
              refl,
              record { total = refl; bounded = omega arith; unmarked = refl },
              tt,
              tt,
              refl,
              omega arith,
            )
      | inr (l, e) ↦
          let entry = All-find c (IsEntry side) o.price l (cont_of b) v.entries e in
          let part = find-part side o.order_id o.price l (cont_of b) v.entries e new in
          rw (e, level_at) (entry.0.0, entry.0.1, entry.1, entry.2, part.0, omega (arith, part.1))
    ]

    inserted : (insert_order target o).0 ≡ record target {
      order_cont = target.order_cont ++ (o.order_id, o) ∷ [];
      total_qty = add_assign target.total_qty o.remaining_qty;
    }
    unfolding insert_order
    inserted = ground (arith, level_at-ready)

    insert_order-IsEntry : IsEntry side (o.price, (insert_order target o).0)
    insert_order-IsEntry =
        let ready = level_at-ready in
        let balanced = IsBalanced-insert target o ready.1 ready.4 ready.5 in
        rw inserted (
          (ready.0, rw inserted at balanced),
          All-append (IsResting side o.price) target.order_cont ((o.order_id, o) ∷ []) ready.2
              ((refl, refl, is_side, positive), tt),
          Distinct-push o.order_id o target.order_cont ready.3 ready.4,
          omega (arith, add_assign-eq target.total_qty o.remaining_qty),
        )

    pub added-SideInv : SideInv c side (added b o)
    unfolding added target
    added-SideInv = record {
      is_side = v.is_side;
      sorted = put-Sorted o.price _ (cont_of b) v.sorted;
      entries = All-put (IsEntry side) o.price _ (cont_of b) v.entries insert_order-IsEntry;
    }

    -- The order stands behind the others at its price.
    pub all_nodes-added :
        all_nodes (cont_of (added b o)) ≡ enqueue c (o.order_id, o) (all_nodes (cont_of b))
    unfolding added put target level_at price_level
    all_nodes-added = elim (Option-cases (find c o.price (cont_of b))) [
      | inl e ↦
          rw (e, put)
            (all_nodes-emplace c side o.order_id o _ (cont_of b) v.entries v.sorted e
              (ground (arith, e, inserted)))
      | inr (l, e) ↦
          rw (e, put)
            (all_nodes-store c side o.order_id o l _ (cont_of b) v.entries v.sorted e
              (ground (arith, e, inserted)))
    ]

    -- The call returns the side with the order added: its assertions hold.
    pub add_order-added :
        o.order_id ≢ 0
        → add_order c b o ≡ some (added b o, (insert_order (level_at c b.levels o.price) o).1)
    unfolding added target
    add_order-added id =
        add_order_lem c b o (ground (arith, v.is_side, is_side)) id level_at-ready.0
