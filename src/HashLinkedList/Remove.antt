-- ===== src/HashLinkedList/Remove.antt =====
-- `HashLinkedList::remove_node` and `remove`: at the front, at the back and in the middle.
use order_forge_matching_eng.Common.{
  ◌≡◌, ◌≢◌, refl, sym, ap, ◌∙◌, subst, true, false, Option, none, some, List, [], ◌∷◌, ◌++◌,
  append-nil, All, All-mono, All-total, All-zip, All-append_left, All-append_right, length-append,
  append_assoc, arith,
}
use order_forge_matching_eng.PoolAllocator.{Address, deallocate}
use order_forge_matching_eng.PoolAllocator.Fresh.{Distinct, given_back}
use order_forge_matching_eng.PoolAllocator.Fresh
use order_forge_matching_eng.HashLinkedList.{
  NodeTypePtr, HashLinkedList, State, Memory, Node, write, set_right, delete_node, pop_front,
  pop_back, pop_middle, remove_node, same_ptr,
}
use order_forge_matching_eng.HashLinkedList.Index.{RobinMap}
use order_forge_matching_eng.HashLinkedList.Chain.{
  Entry, addresses, first, last, Chain, Chain-frame, Chain-split, write-apart, same_address_refl,
  same_address-apart, last-append,
}
use order_forge_matching_eng.HashLinkedList.Invariant.{
  Holds, Unique-without, lookup-here, addresses-append, Inv-front, found,
}
use order_forge_matching_eng.HashLinkedList.Push.{Distinct-right}
use order_forge_matching_eng.HashLinkedList.Unlink.{Apart, unlink_front, unlink_back, unlink_middle}

module _ (M : RobinMap) {T : Type 0} (l : HashLinkedList M) (m : Memory T)
    (others : List Address) where
  -- A step that ends with the list holding `xs`, and leaves the other lists alone.
  abbrev pub Leaves : Option (State M T) → List (Entry T) → Type 0
  Leaves step xs =
      (l' : HashLinkedList M) × (m' : Memory T) × (step ≡ some (l', m'))
      × (Holds M l' m' xs others × All (λ b. m'.cell b ≡ m.cell b) others)

  abbrev without : Entry T → (Address → Option (Node T)) → Memory T
  without e cell' = record { cell = write cell' e.address none; pool = deallocate e.address m.pool }

  in_use :
      (pre : List (Entry T)) (e : Entry T) (post : List (Entry T))
      → Holds M l m (pre ++ e ∷ post) others
      → Fresh.Inv m.pool (e.address ∷ (addresses pre ++ (addresses post ++ others)))
  in_use pre e post h = Inv-front m.pool e.address (addresses pre) (addresses post ++ others) (
      subst (Fresh.Inv m.pool) (append_assoc (addresses pre) (e.address ∷ addresses post) others)
        (subst (λ u. Fresh.Inv m.pool (u ++ others)) (addresses-append pre (e ∷ post)) h.pool))

  in_use-Apart :
      (pre : List (Entry T)) (e : Entry T) (post : List (Entry T))
      → Holds M l m (pre ++ e ∷ post) others
      → Apart pre e post others
  in_use-Apart pre e post h = Distinct-right m.pool.free_list _ (in_use pre e post h).distinct

  -- Once the links are set, the index is cleared of the id and the node given back to the pool.
  dropped :
      (pre : List (Entry T)) (e : Entry T) (post : List (Entry T))
      (cell' : Address → Option (Node T))
      → Holds M l m (pre ++ e ∷ post) others
      → Chain cell' none (pre ++ post) none
      → All (λ b. cell' b ≡ m.cell b) others
      → (l' : HashLinkedList M) → l'.front ≡ first (pre ++ post) none
      → l'.back ≡ last none (pre ++ post)
      → l'.node_map ≡ M.erase e.id l.node_map
      → Holds M l' (without e cell') (pre ++ post) others
        × All (λ b. write cell' e.address none b ≡ m.cell b) others
  dropped pre e post cell' h c same l' front back map =
      let v = in_use pre e post h in
      let (apart, d) = in_use-Apart pre e post h in
      let places : addresses pre ++ (addresses post ++ others) ≡ addresses (pre ++ post) ++ others =
        sym (append_assoc (addresses pre) (addresses post) others)
        ∙ ap (λ u. u ++ others) (sym (addresses-append pre post)) in
      let clear = write-apart cell' e.address none _ (subst (All _) places apart) in
      let (unique, found) = Unique-without pre post e h.unique in
      (
        record {
          front = front;
          back = back;
          chain =
              Chain-frame cell' _ none none (pre ++ post)
                (All-append_left _ (addresses (pre ++ post)) others clear) c;
          unique = unique;
          index = λ id. rw map (M.find-erase e.id id l.node_map ∙ rw (h.index id) (sym (found id)));
          size = rw map (
              omega (
                arith,
                M.size-erase e.id e.address l.node_map
                    (h.index e.id ∙ lookup-here pre post e h.unique),
                h.size,
                length-append pre (e ∷ post),
                length-append pre post,
              ));
          pool =
              subst (Fresh.Inv (deallocate e.address m.pool)) places
                (given_back m.pool e.address _ v);
        },
        All-mono _ _ others (λ b k. k.0 ∙ k.1)
            (All-zip _ _ others (All-append_right _ (addresses (pre ++ post)) others clear) same),
      )

  at_end : {a : Address} {p : NodeTypePtr} → p ≡ some a → same_ptr (some a) p ≡ true
  at_end {a = a} e = rw e (same_address_refl a)

  not_at : {a b : Address} {p : NodeTypePtr} → p ≡ some b → a ≢ b → same_ptr (some a) p ≡ false
  not_at {a = a} {b = b} e apart = rw e (same_address-apart a b apart)

  last-some :
      (P : Address → Type 0) (e : Entry T) (xs : List (Entry T))
      → All P (addresses (e ∷ xs))
      → (b : Address) × (last (some e.address) xs ≡ some b) × P b
  last-some P e [] h = (e.address, refl, h.0)
  last-some P e (f ∷ xs) h = last-some P f xs h.1

  pub remove_front :
      (e : Entry T) (post : List (Entry T))
      → Holds M l m (e ∷ post) others
      → Leaves (pop_front M (l, m)) post
  unfolding pop_front delete_node
  remove_front e [] h =
      let l' : HashLinkedList M = record l {
        front = none;
        back = none;
        node_map = M.erase e.id l.node_map;
      } in
      let m' = without e m.cell in
      (
        l',
        m',
        rw h.front (rw h.chain.0 refl),
        dropped [] e [] m.cell h tt (All-total _ others (λ b. refl)) l' refl refl refl,
      )
  remove_front e (f ∷ post) h =
      let l' : HashLinkedList M = record l {
        front = some f.address;
        node_map = M.erase e.id l.node_map;
      } in
      let (cell', done, chain, same) =
        unlink_front m e f post others (in_use-Apart [] e (f ∷ post) h) h.chain in
      let m' = without e cell' in
      (
        l',
        m',
        rw h.front (rw h.chain.0 (rw done refl)),
        dropped [] e (f ∷ post) cell' h chain same l' refl h.back refl,
      )

  remove_back :
      (p : Entry T) (pre : List (Entry T)) (e : Entry T)
      → Holds M l m (p ∷ pre ++ e ∷ []) others
      → Leaves (pop_back M (l, m)) (p ∷ pre ++ [])
  unfolding pop_back delete_node
  remove_back p pre e h =
      let l' : HashLinkedList M = record l {
        back = last none (p ∷ pre);
        node_map = M.erase e.id l.node_map;
      } in
      let (cell', done, chain, same) =
        unlink_back m p pre e others (in_use-Apart (p ∷ pre) e [] h) h.chain in
      let m' = without e cell' in
      let (_, (here, _)) = Chain-split m.cell none none (p ∷ pre) (e ∷ []) h.chain in
      let (b, end, _) =
        last-some (λ a. Unit {0}) p pre (All-total _ (addresses (p ∷ pre)) (λ a. tt)) in
      let done' : set_right (some b) none m ≡ some (record m { cell = cell' }) =
        subst (λ q. set_right q none m ≡ some (record m { cell = cell' })) end done in
      (
        l',
        m',
        rw (h.back ∙ last-append none (p ∷ pre) (e ∷ [])) (
            rw here (
              rw end (
                rw done' (
                  ap
                    (λ q.
                      some (
                        record l { back = q; node_map = M.erase e.id l.node_map },
                        without e cell',
                      ))
                    end)))),
        dropped (p ∷ pre) e [] cell' h
            (subst (λ xs. Chain cell' none xs none) (sym (append-nil (p ∷ pre))) chain) same l'
            h.front (sym (last-append none (p ∷ pre) [])) refl,
      )

  remove_middle :
      (p : Entry T) (pre : List (Entry T)) (e f : Entry T) (post : List (Entry T))
      → Holds M l m (p ∷ pre ++ e ∷ f ∷ post) others
      → Leaves (pop_middle M (some e.address) (l, m)) (p ∷ pre ++ f ∷ post)
  unfolding pop_middle delete_node
  remove_middle p pre e f post h =
      let l' : HashLinkedList M = record l { node_map = M.erase e.id l.node_map } in
      let (cell', done, chain, same) =
        unlink_middle m p pre e f post others (in_use-Apart (p ∷ pre) e (f ∷ post) h) h.chain in
      let (_, (here, _)) = Chain-split m.cell none none (p ∷ pre) (e ∷ f ∷ post) h.chain in
      (
        l',
        without e cell',
        rw here (rw done refl),
        dropped (p ∷ pre) e (f ∷ post) cell' h chain same l' h.front
            (h.back
              ∙ (last-append none (p ∷ pre) (e ∷ f ∷ post)
                  ∙ sym (last-append none (p ∷ pre) (f ∷ post))))
            refl,
      )

  -- Wherever in the list the node stands, `remove_node` takes it out.
  pub remove_node-Holds :
      (pre : List (Entry T)) (e : Entry T) (post : List (Entry T))
      → Holds M l m (pre ++ e ∷ post) others
      → Leaves (remove_node M (some e.address) (l, m)) (pre ++ post)
  unfolding remove_node
  remove_node-Holds [] e post h = rw (at_end h.front) (remove_front e post h)
  remove_node-Holds (p ∷ pre) e [] h =
      let (apart, _) = in_use-Apart (p ∷ pre) e [] h in
      rw (not_at h.front apart.0)
        (rw (at_end (h.back ∙ last-append none (p ∷ pre) (e ∷ []))) (remove_back p pre e h))
  remove_node-Holds (p ∷ pre) e (f ∷ post) h =
      let (apart, _) = in_use-Apart (p ∷ pre) e (f ∷ post) h in
      let (b, end, other) =
        last-some (λ a. e.address ≢ a) f post
          (All-append_left _ (addresses (f ∷ post)) others
            (All-append_right _ (addresses (p ∷ pre)) _ apart)) in
      rw (not_at h.front apart.0) (
        rw (not_at (h.back ∙ (last-append none (p ∷ pre) (e ∷ f ∷ post) ∙ end)) other)
          (remove_middle p pre e f post h))
