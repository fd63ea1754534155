-- ===== src/HashLinkedList/Refines.antt =====
-- The list on the heap does what the sequence of its nodes does.
use order_forge_matching_eng.Common.{
  ℕ, zero, suc, ◌<◌, ◌≤◌, ◌≡◌, refl, sym, ap, ◌∙◌, subst, true, false, Bool-cases, Option-cases,
  inl, inr, ◌==◌, none, some, ◌>>=◌, List, [], ◌∷◌, ◌++◌, All, All-total, All-mono, All-zip, length,
  arith,
}
use order_forge_matching_eng.PoolAllocator.{Address}
use order_forge_matching_eng.NodeList
use order_forge_matching_eng.HashLinkedList.{
  NodeTypePtr, HashLinkedList, Memory, size, is_empty, contains, find, remove, remove_node, clear,
  iterate,
}
use order_forge_matching_eng.HashLinkedList.Index.{RobinMap}
use order_forge_matching_eng.HashLinkedList.Chain.{Entry, first, Chain}
use order_forge_matching_eng.HashLinkedList.Invariant.{Holds, lookup, items, found}
use order_forge_matching_eng.HashLinkedList.Remove.{remove_front, remove_node-Holds}

module _ {T : Type 0} where
  NodeList-remove-absent :
      (id : ℕ) (xs : List (Entry T))
      → lookup id xs ≡ none
      → NodeList.remove id (items xs) ≡ items xs
  unfolding lookup NodeList.remove
  NodeList-remove-absent id [] h = refl
  NodeList-remove-absent id (e ∷ xs) h = ground (arith, h, NodeList-remove-absent id xs)

  pub NodeList-contains-lookup :
      (id : ℕ) (xs : List (Entry T))
      → (elim (lookup id xs) [ none ↦ false | some _ ↦ true ]) ≡ NodeList.contains id (items xs)
  unfolding lookup NodeList.contains
  NodeList-contains-lookup id [] = refl
  NodeList-contains-lookup id (e ∷ xs) = ground (arith, NodeList-contains-lookup id xs)

  load-lookup :
      (m : Memory T) (p : NodeTypePtr) (id : ℕ) (xs : List (Entry T))
      → Chain m.cell p xs none
      → (elim (lookup id xs) [ none ↦ some none | some a ↦ (do n ← m.cell a; some (some n.item)) ])
        ≡ some (NodeList.find id (items xs))
  unfolding lookup NodeList.find
  load-lookup m p id [] c = refl
  load-lookup m p id (e ∷ xs) c = elim (Bool-cases (e.id == id)) [
    | inl same ↦ rw same (rw c.0 refl)
    | inr other ↦ rw other (load-lookup m (some e.address) id xs c.1)
  ]

  -- Following `right` from the front reads the items in order, and ends at `end()`.
  iterate-Chain :
      (fuel : ℕ) (m : Memory T) (p : NodeTypePtr) (xs : List (Entry T))
      → Chain m.cell p xs none
      → length xs ≤ fuel
      → iterate fuel (first xs none) m ≡ some (items xs)
  unfolding iterate
  iterate-Chain fuel m p [] c enough = refl
  iterate-Chain zero m p (e ∷ xs) c enough = absurd (omega (arith, enough))
  iterate-Chain (suc fuel) m p (e ∷ xs) c enough =
      rw c.0 (rw (iterate-Chain fuel m (some e.address) xs c.1 (omega (arith, enough))) refl)

module _ (M : RobinMap) {T : Type 0} where
  -- Let the list hold `xs`. What is read of it is what the sequence of the nodes gives: `find` the
  -- item of the first node with the id or `nullptr`, `contains` and `size` likewise, `empty` whether
  -- there is no node; and iteration from `begin()` to `end()` visits the nodes of `xs` in order, in
  -- as many steps as there are nodes. No read goes through a pointer that holds no node.
  pub reads_of-Holds :
      (l : HashLinkedList M) (m : Memory T) (xs : List (Entry T)) (others : List Address)
      (id fuel : ℕ)
      → Holds M l m xs others
      → length xs ≤ fuel
      → (find M id (l, m) ≡ some (NodeList.find id (items xs)))
        × (contains M id l ≡ NodeList.contains id (items xs))
        × (size M l ≡ length xs)
        × (is_empty M l ≡ (length xs == 0))
        × (iterate fuel l.front m ≡ some (items xs))
  unfolding find contains size is_empty
  reads_of-Holds l m xs others id fuel h enough = (
    rw (h.index id, find) (load-lookup m none id xs h.chain),
    rw (h.index id, contains) (NodeList-contains-lookup id xs),
    h.size,
    rw h.size refl,
    rw h.front (iterate-Chain fuel m none xs h.chain enough),
  )

  -- Let the list hold `xs`. `remove` of an id succeeds and leaves a list that holds the nodes but for
  -- the one with the id, wherever it stood, or all of them if no node has the id; the pool may hand
  -- out the element of the node again, and no node of another list has changed.
  pub remove-Holds :
      (l : HashLinkedList M) (m : Memory T) (xs : List (Entry T)) (others : List Address) (id : ℕ)
      → Holds M l m xs others
      → (l' : HashLinkedList M) × (m' : Memory T) × (xs' : List (Entry T)) × (remove M id (l, m)
          ≡ some (l', m'))
        × Holds M l' m' xs' others
        × (items xs' ≡ NodeList.remove id (items xs))
        × All (λ b. m'.cell b ≡ m.cell b) others
  unfolding remove
  remove-Holds l m xs others id h = elim (Option-cases (lookup id xs)) [
    | inl absent ↦ (
      l,
      m,
      xs,
      rw (h.index id ∙ absent, remove) refl,
      h,
      sym (NodeList-remove-absent id xs absent),
      All-total _ others (λ b. refl),
    )
    | inr (a, there) ↦
        let (pre, e, post, split, _, place, gone) = found id a xs there in
        let (l', m', done, (w, same)) =
          remove_node-Holds M l m others pre e post (subst (λ ys. Holds M l m ys others) split h) in
        (
          l',
          m',
          pre ++ post,
          rw (h.index id ∙ (there ∙ ap some (sym place)), remove) done,
          w,
          sym gone,
          same,
        )
  ]

  -- Let the list hold `xs`. The loop of the destructor ends after as many turns as there are nodes,
  -- with no node left in the list: only the elements of the other lists are in use, and those are as
  -- they were.
  pub clear-Holds :
      (l : HashLinkedList M) (m : Memory T) (xs : List (Entry T)) (others : List Address) (fuel : ℕ)
      → Holds M l m xs others
      → length xs < fuel
      → (l' : HashLinkedList M) × (m' : Memory T) × (clear M fuel (l, m) ≡ some (l', m'))
        × Holds M l' m' [] others
        × All (λ b. m'.cell b ≡ m.cell b) others
  unfolding clear remove_node
  clear-Holds l m xs others zero h enough = absurd (omega (arith, enough))
  clear-Holds l m [] others (suc fuel) h enough =
      (l, m, simp h.front, h, All-total _ others (λ b. refl))
  clear-Holds l m (e ∷ xs) others (suc fuel) h enough =
      let (l₁, m₁, done, (h₁, same₁)) = remove_front M l m others e xs h in
      let (l₂, m₂, rest, h₂, same₂) = clear-Holds l₁ m₁ xs others fuel h₁ (omega (arith, enough)) in
      (
        l₂,
        m₂,
        simp (h.front, done) rest,
        h₂,
        All-mono _ _ others (λ b k. k.0 ∙ k.1) (All-zip _ _ others same₂ same₁),
      )
