-- ===== src/HashLinkedList/Chain.antt =====
-- Nodes linked both ways: what a chain of nodes is, and what a write of a link does to it.
use order_forge_matching_eng.Common.{
  ℕ, ◌≡◌, ◌≢◌, refl, sym, ◌∙◌, true, false, Bool-cases, inl, inr, Option, some, List, [], ◌∷◌, ◌++◌,
  All, All-mono, arith,
}
use order_forge_matching_eng.PoolAllocator.{Address}
use order_forge_matching_eng.PoolAllocator.Fresh.{Distinct}
use order_forge_matching_eng.HashLinkedList.{
  NodeTypePtr, same_address, Node, Memory, write, set_left, set_right,
}

pub same_address_refl : (a : Address) → same_address a a ≡ true
same_address_refl a = ground arith

pub same_address-apart : (a b : Address) → a ≢ b → same_address a b ≡ false
same_address-apart a b apart = elim (Bool-cases (same_address a b)) [
  | inr different ↦ different
  | inl same ↦ absurd (
      apart (
        let i : a.block ≡ b.block = ground (arith, same) in
        let j : a.index ≡ b.index = ground (arith, same) in cc))
]

-- A node and where it is.
pub record Entry (T : Type 0) : Type 0 where
  pub address : Address
  pub id : ℕ
  pub item : T

module _ {T : Type 0} where
  abbrev pub addresses : List (Entry T) → List Address
  addresses [] = []
  addresses (e ∷ rest) = e.address ∷ addresses rest

  abbrev pub first : List (Entry T) → NodeTypePtr → NodeTypePtr
  first [] p = p
  first (e ∷ _) p = some e.address

  abbrev pub last : NodeTypePtr → List (Entry T) → NodeTypePtr
  last p [] = p
  last p (e ∷ rest) = last (some e.address) rest

  -- The nodes between `p` and `n`, each with links to its neighbours.
  abbrev pub Chain :
      (Address → Option (Node T)) → NodeTypePtr → List (Entry T) → NodeTypePtr → Type 0
  Chain cell p [] n = Unit
  Chain cell p (e ∷ rest) n =
      (cell e.address ≡ some (record { id = e.id; item = e.item; left = p; right = first rest n }))
      × Chain cell (some e.address) rest n

  -- Cells that no node of the chain stands in may change.
  pub Chain-frame :
      (cell cell' : Address → Option (Node T)) (p n : NodeTypePtr) (xs : List (Entry T))
      → All (λ a. cell' a ≡ cell a) (addresses xs)
      → Chain cell p xs n
      → Chain cell' p xs n
  Chain-frame cell cell' p n [] same c = tt
  Chain-frame cell cell' p n (e ∷ rest) same c =
      (same.0 ∙ c.0, Chain-frame cell cell' (some e.address) n rest same.1 c.1)

  pub Chain-append :
      (cell : Address → Option (Node T)) (p n : NodeTypePtr) (xs ys : List (Entry T))
      → Chain cell p xs (first ys n)
      → Chain cell (last p xs) ys n
      → Chain cell p (xs ++ ys) n
  Chain-append cell p n [] ys c d = d
  Chain-append cell p n (e ∷ []) ys c d = (c.0, d)
  Chain-append cell p n (e ∷ f ∷ rest) ys c d =
      (c.0, Chain-append cell (some e.address) n (f ∷ rest) ys c.1 d)

  pub Chain-split :
      (cell : Address → Option (Node T)) (p n : NodeTypePtr) (xs ys : List (Entry T))
      → Chain cell p (xs ++ ys) n
      → Chain cell p xs (first ys n) × Chain cell (last p xs) ys n
  Chain-split cell p n [] ys c = (tt, c)
  Chain-split cell p n (e ∷ []) ys c = ((c.0, tt), c.1)
  Chain-split cell p n (e ∷ f ∷ rest) ys c =
      let (d, g) = Chain-split cell (some e.address) n (f ∷ rest) ys c.1 in ((c.0, d), g)

  pub write-apart :
      (cell : Address → Option (Node T)) (a : Address) (c : Option (Node T)) (bs : List Address)
      → All (λ b. a ≢ b) bs
      → All (λ b. write cell a c b ≡ cell b) bs
  write-apart cell a c bs =
      All-mono _ _ bs (λ b apart. rw (same_address-apart b a (λ e. apart (sym e))) refl)

  pub write-here :
      (cell : Address → Option (Node T)) (a : Address) (c : Option (Node T)) → write cell a c a ≡ c
  write-here cell a c = rw (same_address_refl a) refl

  -- A step that changes links of the nodes of `xs` only, and leaves them a chain from `p` to `n`.
  abbrev pub Relinks :
      Memory T → Option (Memory T) → NodeTypePtr → List (Entry T) → NodeTypePtr → Type 0
  Relinks m step p xs n =
      (cell' : Address → Option (Node T)) × (step ≡ some (record m { cell = cell' }))
      × Chain cell' p xs n
      × ((b : Address) → All (λ a. b ≢ a) (addresses xs) → cell' b ≡ m.cell b)

  pub set_left-first :
      (m : Memory T) (p q n : NodeTypePtr) (e : Entry T) (rest : List (Entry T))
      → Distinct (addresses (e ∷ rest))
      → Chain m.cell p (e ∷ rest) n
      → Relinks m (set_left (some e.address) q m) q (e ∷ rest) n
  unfolding set_left
  set_left-first m p q n e rest d c =
      let node : Node T = record { id = e.id; item = e.item; left = q; right = first rest n } in
      let cell' = write m.cell e.address (some node) in
      (
        cell',
        rw c.0 refl,
        (
          write-here m.cell e.address (some node),
          Chain-frame m.cell cell' (some e.address) n rest
              (write-apart m.cell e.address (some node) (addresses rest) d.0) c.1,
        ),
        λ b apart. rw (same_address-apart b e.address apart.0) refl,
      )

  pub set_right-last :
      (m : Memory T) (p n q : NodeTypePtr) (e : Entry T) (rest : List (Entry T))
      → Distinct (addresses (e ∷ rest))
      → Chain m.cell p (e ∷ rest) n
      → Relinks m (set_right (last p (e ∷ rest)) q m) p (e ∷ rest) q
  unfolding set_right
  set_right-last m p n q e [] d c =
      let node : Node T = record { id = e.id; item = e.item; left = p; right = q } in
      (
        write m.cell e.address (some node),
        rw c.0 refl,
        (write-here m.cell e.address (some node), tt),
        λ b apart. rw (same_address-apart b e.address apart.0) refl,
      )
  set_right-last m p n q e (f ∷ rest) d c =
      let (cell', done, chain, frame) = set_right-last m (some e.address) n q f rest d.1 c.1 in
      (cell', done, (frame e.address d.0 ∙ c.0, chain), λ b apart. frame b apart.1)

  pub first-append :
      (xs : List (Entry T)) (e : Entry T) (n : NodeTypePtr)
      → first (xs ++ e ∷ []) n ≡ first xs (some e.address)
  first-append [] e n = refl
  first-append (f ∷ xs) e n = refl

  pub last-append :
      (p : NodeTypePtr) (xs ys : List (Entry T)) → last p (xs ++ ys) ≡ last (last p xs) ys
  last-append p [] ys = refl
  last-append p (e ∷ xs) ys = last-append (some e.address) xs ys
