-- ===== src/HashLinkedList/Invariant.antt =====
-- When a list of the heap holds a sequence of nodes: the chain, the two ends, the index and the pool.
use order_forge_matching_eng.Common.{
  ℕ, ◌<◌, ◌≡◌, refl, sym, ap, subst, false, Bool-cases, inl, inr, ◌==◌, if◌then◌else◌, Option, none,
  some, List, [], ◌∷◌, ◌++◌, All, append_assoc, length, arith,
}
use order_forge_matching_eng.PoolAllocator.{Address, PoolAllocator}
use order_forge_matching_eng.PoolAllocator.Fresh.{
  Distinct, All-middle, All-front, Distinct-middle, Distinct-front,
}
use order_forge_matching_eng.PoolAllocator.Fresh
use order_forge_matching_eng.NodeList
use order_forge_matching_eng.HashLinkedList.{HashLinkedList, Memory}
use order_forge_matching_eng.HashLinkedList.Index.{RobinMap}
use order_forge_matching_eng.HashLinkedList.Chain.{Entry, addresses, first, last, Chain}

module _ {T : Type 0} where
  abbrev pub items : List (Entry T) → List (ℕ × T)
  items [] = []
  items (e ∷ rest) = (e.id, e.item) ∷ items rest

  unfoldable pub lookup : ℕ → List (Entry T) → Option Address
  lookup id [] = none
  lookup id (e ∷ rest) = if e.id == id then some e.address else lookup id rest

  -- No id stands twice.
  abbrev pub Unique : List (Entry T) → Type 0
  Unique [] = Unit {0}
  Unique (e ∷ rest) = (lookup e.id rest ≡ none) × Unique rest

  -- The list `l` of the memory `m` holds the nodes `xs` in this order; `others` are the nodes of
  -- the other lists of the pool.
  pub record Holds (M : RobinMap) (l : HashLinkedList M) (m : Memory T) (xs : List (Entry T))
      (others : List Address) : Type 0 where
    pub front : l.front ≡ first xs none
    pub back : l.back ≡ last none xs
    pub chain : Chain m.cell none xs none
    pub unique : Unique xs
    pub index : (id : ℕ) → M.find id l.node_map ≡ lookup id xs
    pub size : M.size l.node_map ≡ length xs
    pub pool : Fresh.Inv m.pool (addresses xs ++ others)

  pub lookup-append :
      (id : ℕ) (xs ys : List (Entry T))
      → lookup id (xs ++ ys) ≡ (elim (lookup id xs) [ none ↦ lookup id ys | some a ↦ some a ])
  unfolding lookup
  lookup-append id [] ys = refl
  lookup-append id (e ∷ xs) ys = ground (arith, lookup-append id xs ys)

  pub Unique-snoc :
      (xs : List (Entry T)) (e : Entry T)
      → Unique xs
      → lookup e.id xs ≡ none
      → Unique (xs ++ e ∷ [])
  unfolding lookup
  Unique-snoc [] e u new = (refl, tt)
  Unique-snoc (f ∷ xs) e u new = (
    ground (arith, lookup-append f.id xs (e ∷ []), u.0, new),
    Unique-snoc xs e u.1 (ground (arith, new)),
  )

  -- What `lookup` finds stands in the sequence, and nothing with this id before it.
  pub found :
      (id : ℕ) (a : Address) (xs : List (Entry T))
      → lookup id xs ≡ some a
      → (pre : List (Entry T)) × (e : Entry T) × (post : List (Entry T)) × (xs ≡ pre ++ e ∷ post)
        × (e.id ≡ id)
        × (e.address ≡ a)
        × (NodeList.remove id (items xs) ≡ items (pre ++ post))
  unfolding lookup NodeList.remove
  found id a [] h = absurd (ground (arith, h))
  found id a (f ∷ xs) h = elim (Bool-cases (f.id == id)) [
    | inl same ↦ ([], f, xs, refl, ground (arith, same), ground (arith, same, h), rw same refl)
    | inr other ↦
        let (pre, e, post, split, i, j, gone) = found id a xs (ground (arith, other, h)) in
        (f ∷ pre, e, post, ap (λ l. f ∷ l) split, i, j, rw other (rw gone refl))
  ]

  present :
      (pre post : List (Entry T)) (e : Entry T) (id : ℕ)
      → lookup id (pre ++ e ∷ post) ≡ none
      → (e.id == id) ≡ false
  unfolding lookup
  present [] post e id h = ground (arith, h)
  present (f ∷ pre) post e id h = present pre post e id (ground (arith, h))

  pub lookup-here :
      (pre post : List (Entry T)) (e : Entry T)
      → Unique (pre ++ e ∷ post)
      → lookup e.id (pre ++ e ∷ post) ≡ some e.address
  unfolding lookup
  lookup-here [] post e u = ground arith
  lookup-here (f ∷ pre) post e u =
      ground (arith, lookup-here pre post e u.1, present pre post e f.id u.0)

  -- Without the node `e`: the ids of the rest are unique, and every other id leads where it did.
  pub Unique-without :
      (pre post : List (Entry T)) (e : Entry T)
      → Unique (pre ++ e ∷ post)
      → Unique (pre ++ post)
        × ((id : ℕ)
            → lookup id (pre ++ post) ≡ (if e.id == id then none else lookup id (pre ++ e ∷ post)))
  unfolding lookup
  Unique-without [] post e u = (u.1, λ id. ground (arith, u.0))
  Unique-without (f ∷ pre) post e u =
      let (v, same) = Unique-without pre post e u.1 in
      (
        (ground (arith, same f.id, u.0), v),
        λ id. ground (arith, same id, present pre post e f.id u.0),
      )

pub addresses-append :
    {T : Type 0} (xs ys : List (Entry T)) → addresses (xs ++ ys) ≡ addresses xs ++ addresses ys
addresses-append [] ys = refl
addresses-append (e ∷ xs) ys = rw (addresses-append xs ys) refl

-- An element in use may stand anywhere among those in use.
module _ (p : PoolAllocator) (a : Address) (xs ys : List Address) where
  near : (p.free_list ++ xs) ++ ys ≡ p.free_list ++ (xs ++ ys)
  near = append_assoc p.free_list xs ys

  far : (p.free_list ++ xs) ++ a ∷ ys ≡ p.free_list ++ (xs ++ a ∷ ys)
  far = append_assoc p.free_list xs (a ∷ ys)

  pub Inv-middle : Fresh.Inv p (a ∷ (xs ++ ys)) → Fresh.Inv p (xs ++ a ∷ ys)
  Inv-middle v =
      let known : All (λ b. b.block < length p.pool_blocks) (p.free_list ++ a ∷ (xs ++ ys)) =
        v.known in
      let (k, ks) = All-front _ a p.free_list (xs ++ ys) v.known in
      record {
        distinct = subst Distinct far (
            Distinct-middle a (p.free_list ++ xs) ys (
              subst (λ l. Distinct (a ∷ l)) (sym near)
                (Distinct-front a p.free_list (xs ++ ys) v.distinct)));
        known =
            subst (All _) far
              (All-middle _ a (p.free_list ++ xs) ys (subst (All _) (sym near) ks) k);
      }

  pub Inv-front : Fresh.Inv p (xs ++ a ∷ ys) → Fresh.Inv p (a ∷ (xs ++ ys))
  Inv-front v =
      let (k, ks) = All-front _ a (p.free_list ++ xs) ys (subst (All _) (sym far) v.known) in
      record {
        distinct = Distinct-middle a p.free_list (xs ++ ys) (
            subst (λ l. Distinct (a ∷ l)) near
              (Distinct-front a (p.free_list ++ xs) ys (subst Distinct (sym far) v.distinct)));
        known = All-middle _ a p.free_list (xs ++ ys) (subst (All _) near ks) k;
      }
