-- ===== src/HashLinkedList/Push.antt =====
-- `HashLinkedList::push`: the node goes to the back of the list.
use order_forge_matching_eng.Common.{
  ℕ, ◌<◌, ◌≡◌, ◌≢◌, refl, sym, ◌∙◌, subst, false, ◌==◌, if◌then◌else◌, Option, none, some, List, [],
  ◌∷◌, ◌++◌, All, All-mono, All-total, All-zip, All-append_left, All-append_right, length,
  length-append, arith, append_assoc,
}
use order_forge_matching_eng.PoolAllocator.{Address}
use order_forge_matching_eng.PoolAllocator.Fresh.{Distinct, allocate-deallocate}
use order_forge_matching_eng.PoolAllocator.Fresh
use order_forge_matching_eng.HashLinkedList.{
  HashLinkedList, Memory, Node, write, new_node, is_empty, link_back, push,
}
use order_forge_matching_eng.HashLinkedList.Index.{RobinMap}
use order_forge_matching_eng.HashLinkedList.Chain.{
  Entry, addresses, first, last, Chain, Chain-frame, Chain-append, write-apart, write-here,
  set_left-first, set_right-last, last-append,
}
use order_forge_matching_eng.HashLinkedList.Invariant.{
  Holds, lookup, Unique-snoc, addresses-append, Inv-middle,
}

pub Distinct-right : (xs ys : List Address) → Distinct (xs ++ ys) → Distinct ys
Distinct-right [] ys d = d
Distinct-right (x ∷ xs) ys d = Distinct-right xs ys d.1

pub Distinct-left : (xs ys : List Address) → Distinct (xs ++ ys) → Distinct xs
Distinct-left [] ys d = tt
Distinct-left (x ∷ xs) ys d = (All-append_left _ xs ys d.0, Distinct-left xs ys d.1)

-- No element of the second part stands in the first.
pub Distinct-apart :
    (xs ys : List Address) → Distinct (xs ++ ys) → All (λ y. All (λ x. y ≢ x) xs) ys
Distinct-apart [] ys d = All-total _ ys (λ y. tt)
Distinct-apart (x ∷ xs) ys d =
    All-mono _ _ ys (λ y h. ((λ e. h.0 (sym e)), h.1))
      (All-zip _ _ ys (All-append_right _ xs ys d.0) (Distinct-apart xs ys d.1))

module _ {T : Type 0} where
  -- Two nodes that were not linked.
  link_back-Chain :
      (m : Memory T) (e new : Entry T) (rest : List (Entry T))
      → Distinct (addresses (e ∷ rest))
      → All (λ b. new.address ≢ b) (addresses (e ∷ rest))
      → Chain m.cell none (e ∷ rest) none
      → Chain m.cell none (new ∷ []) none
      → (cell' : Address → Option (Node T)) × (link_back (last none (e ∷ rest)) new.address m
          ≡ some (record m { cell = cell' }))
        × Chain cell' none (e ∷ rest ++ new ∷ []) none
        × ((b : Address)
            → All (λ a. b ≢ a) (addresses (e ∷ rest))
            → b ≢ new.address
            → cell' b ≡ m.cell b)
  unfolding link_back
  link_back-Chain m e new rest d apart c single =
      let back = last none (e ∷ rest) in
      let (cell₁, done₁, chain₁, frame₁) =
        set_right-last m none none (some new.address) e rest d c in
      let m₁ = record m { cell = cell₁ } in
      let single₁ : Chain cell₁ none (new ∷ []) none = (frame₁ new.address apart ∙ single.0, tt) in
      let (cell₂, done₂, chain₂, frame₂) =
        set_left-first m₁ none back none new [] (tt, tt) single₁ in
      (
        cell₂,
        rw done₁ done₂,
        Chain-append cell₂ none none (e ∷ rest) (new ∷ [])
            (Chain-frame cell₁ cell₂ none (some new.address) (e ∷ rest)
              (All-mono _ _ (addresses (e ∷ rest)) (λ b h. frame₂ b ((λ i. h (sym i)), tt)) apart)
              chain₁)
            chain₂,
        λ b away other. frame₂ b (other, tt) ∙ frame₁ b away,
      )

module _ (M : RobinMap) {T : Type 0} where
  -- Once the pool has handed out `a`, the links that `push` sets leave the longer chain.
  linked :
      (m : Memory T) (xs : List (Entry T)) (new : Entry T) (others : List Address)
      → Distinct (addresses xs ++ others)
      → All (λ b. new.address ≢ b) (addresses xs ++ others)
      → Chain m.cell none xs none
      → Chain m.cell none (new ∷ []) none
      → (cell' : Address → Option (Node T)) × ((if length xs == 0
            then some m
            else link_back (last none xs) new.address m)
          ≡ some (record m { cell = cell' }))
        × Chain cell' none (xs ++ new ∷ []) none
        × All (λ b. cell' b ≡ m.cell b) others
  linked m [] new others d apart c single = (m.cell, refl, single, All-total _ others (λ b. refl))
  linked m (e ∷ rest) new others d apart c single =
      let used = addresses (e ∷ rest) in
      let (cell', done, chain, frame) =
        link_back-Chain m e new rest (Distinct-left used others d)
          (All-append_left _ used others apart) c single in
      (
        cell',
        rw (let full : (length (e ∷ rest) == 0) ≡ false = ground arith in full) done,
        chain,
        All-mono _ _ others (λ b h. frame b h.0 (λ i. h.1 (sym i)))
            (All-zip _ _ others (Distinct-apart used others d)
              (All-append_right _ used others apart)),
      )

  front-push :
      (xs : List (Entry T)) (e : Entry T)
      → (if length xs == 0 then some e.address else first xs none) ≡ first (xs ++ e ∷ []) none
  front-push [] e = refl
  front-push (f ∷ xs) e = ground arith

  lookup-push :
      (j : ℕ) (xs : List (Entry T)) (e : Entry T)
      → lookup e.id xs ≡ none
      → (if e.id == j then some e.address else lookup j xs) ≡ lookup j (xs ++ e ∷ [])
  unfolding lookup
  lookup-push j [] e new = refl
  lookup-push j (f ∷ xs) e new = ground (arith, lookup-push j xs e, new)

  -- Let the list hold `xs` without the id. `push` takes an element from the pool that no list uses,
  -- and succeeds; the list then holds `xs` and behind them the node, linked both ways with the last
  -- one, found under the id, and counted. No node of another list has changed.
  pub push-Holds :
      (bytes id : ℕ) (item : T) (l : HashLinkedList M) (m : Memory T) (xs : List (Entry T))
      (others : List Address)
      → Holds M l m xs others
      → lookup id xs ≡ none
      → 0 < bytes
      → (l' : HashLinkedList M) × (m' : Memory T) × (a : Address) × (push M bytes id item (l, m)
          ≡ some (l', m'))
        × Holds M l' m' (xs ++ record { address = a; id = id; item = item } ∷ []) others
        × All (λ b. m'.cell b ≡ m.cell b) others
  unfolding push new_node is_empty lookup
  push-Holds bytes id item l m xs others h new positive =
      let used = addresses xs ++ others in
      let (pool', a, got, apart, inv, _) = allocate-deallocate bytes m.pool used h.pool positive in
      let node : Node T = record { id = id; item = item; left = none; right = none } in
      let e : Entry T = record { address = a; id = id; item = item } in
      let m₁ : Memory T = record { cell = write m.cell a (some node); pool = pool' } in
      let same = write-apart m.cell a (some node) used apart in
      let d : Distinct used = Distinct-right m.pool.free_list used h.pool.distinct in
      let (cell', done, chain, frame) =
        linked m₁ xs e others d apart
          (Chain-frame m.cell m₁.cell none none xs (All-append_left _ (addresses xs) others same)
            h.chain)
          (write-here m.cell a (some node), tt) in
      (
        record {
          front = if length xs == 0 then some a else l.front;
          back = some a;
          node_map = M.emplace id a l.node_map;
        },
        record m₁ { cell = cell' },
        a,
        rw got (rw h.size (rw h.back (rw done refl))),
        record {
          front = rw h.front (front-push xs e);
          back = sym (last-append none xs (e ∷ []));
          chain = chain;
          unique = Unique-snoc xs e h.unique new;
          index = λ j.
              M.find-emplace id j a l.node_map (h.index id ∙ new)
              ∙ rw (h.index j) (lookup-push j xs e new);
          size =
              M.size-emplace id a l.node_map (h.index id ∙ new)
              ∙ omega (arith, h.size, length-append xs (e ∷ []));
          pool =
              subst (λ u. Fresh.Inv pool' (u ++ others)) (sym (addresses-append xs (e ∷ [])))
                (subst (Fresh.Inv pool') (sym (append_assoc (addresses xs) (a ∷ []) others))
                  (Inv-middle pool' a (addresses xs) others inv));
        },
        All-mono _ _ others (λ b k. k.0 ∙ k.1)
            (All-zip _ _ others frame (All-append_right _ (addresses xs) others same)),
      )
