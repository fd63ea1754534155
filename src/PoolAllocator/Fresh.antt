-- ===== src/PoolAllocator/Fresh.antt =====
-- No element of the pool is handed out twice.
use order_forge_matching_eng.Common.{
  ℕ, zero, suc, ◌+◌, ◌<◌, ◌≡◌, ◌≢◌, refl, length, ltb, max, inl, inr, Bool-cases, some, List, [],
  ◌∷◌, ◌++◌, All, All-append, All-append_right, All-mono, length-append, append_assoc, ap, sym,
  subst, arith,
}
use order_forge_matching_eng.PoolAllocator.{
  Address, PoolAllocator, block_elements, expand_pool, take_back, allocate, deallocate,
}

-- No address stands twice.
abbrev pub Distinct : List Address → Type 0
Distinct [] = Unit {0}
Distinct (a ∷ rest) = All (λ b. a ≢ b) rest × Distinct rest

-- The elements that are free and those that are in use are different, and of blocks that there are.
pub record Inv (p : PoolAllocator) (used : List Address) : Type 0 where
  pub distinct : Distinct (p.free_list ++ used)
  pub known : All (λ a. a.block < length p.pool_blocks) (p.free_list ++ used)

Distinct-append :
    (xs ys : List Address)
    → Distinct xs
    → Distinct ys
    → All (λ x. All (λ y. x ≢ y) ys) xs
    → Distinct (xs ++ ys)
Distinct-append [] ys d e apart = e
Distinct-append (x ∷ xs) ys d e apart =
    (All-append (λ y. x ≢ y) xs ys d.0 apart.0, Distinct-append xs ys d.1 e apart.1)

block_elements-known :
    (block n : ℕ) → All (λ a. (a.block ≡ block) × (a.index < n)) (block_elements block n)
unfolding block_elements
block_elements-known block zero = tt
block_elements-known block (suc n) = (
  (refl, omega arith),
  All-mono _ _ (block_elements block n) (λ a h. (h.0, omega (arith, h.1)))
      (block_elements-known block n),
)

block_elements-Distinct : (block n : ℕ) → Distinct (block_elements block n)
unfolding block_elements
block_elements-Distinct block zero = tt
block_elements-Distinct block (suc n) = (
  All-mono _ _ (block_elements block n)
      (λ a h e.
        (let i : n ≡ a.index = ap (λ (b : Address). b.index) e in absurd (omega (arith, i, h.1))))
      (block_elements-known block n),
  block_elements-Distinct block n,
)

-- The pool in use, as the nodes of all lists: what is handed out and not given back.
module _ (p : PoolAllocator) (used : List Address) (v : Inv p used) where
  expand_pool-Inv : (n : ℕ) → Inv (expand_pool n p) used
  unfolding expand_pool
  expand_pool-Inv n =
      let block = length p.pool_blocks in
      let size = max p.pool_size n in
      let grown : length (p.pool_blocks ++ size ∷ []) ≡ block + 1 =
        length-append p.pool_blocks (size ∷ []) in
      let fresh = block_elements block size in
      record {
        distinct = subst Distinct (sym (append_assoc fresh p.free_list used)) (
            Distinct-append fresh (p.free_list ++ used) (block_elements-Distinct block size)
              v.distinct
              (All-mono _ _ fresh
                (λ a h.
                  All-mono _ _ (p.free_list ++ used)
                    (λ b k e.
                      (let same : a.block ≡ b.block = ap (λ (x : Address). x.block) e in
                        absurd (omega (arith, same, h.0, k))))
                    v.known)
                (block_elements-known block size)));
        known =
            subst (All (λ a. a.block < length (p.pool_blocks ++ size ∷ [])))
              (sym (append_assoc fresh p.free_list used))
              (All-append _ fresh (p.free_list ++ used)
                (All-mono _ _ fresh (λ a h. omega (arith, grown, h.0))
                  (block_elements-known block size))
                (All-mono _ _ (p.free_list ++ used) (λ a h. omega (arith, grown, h)) v.known));
      }

pub All-middle :
    (P : Address → Type 0) (a : Address) (xs ys : List Address)
    → All P (xs ++ ys)
    → P a
    → All P (xs ++ a ∷ ys)
All-middle P a [] ys h k = (k, h)
All-middle P a (x ∷ xs) ys h k = (h.0, All-middle P a xs ys h.1 k)

pub All-front :
    (P : Address → Type 0) (a : Address) (xs ys : List Address)
    → All P (xs ++ a ∷ ys)
    → P a × All P (xs ++ ys)
All-front P a [] ys h = h
All-front P a (x ∷ xs) ys h = let (k, rest) = All-front P a xs ys h.1 in (k, (h.0, rest))

pub Distinct-middle :
    (a : Address) (xs ys : List Address) → Distinct (a ∷ (xs ++ ys)) → Distinct (xs ++ a ∷ ys)
Distinct-middle a [] ys d = d
Distinct-middle a (x ∷ xs) ys d = (
  All-middle (λ b. x ≢ b) a xs ys d.1.0 (λ e. d.0.0 (sym e)),
  Distinct-middle a xs ys (d.0.1, d.1.1),
)

pub Distinct-front :
    (a : Address) (xs ys : List Address) → Distinct (xs ++ a ∷ ys) → Distinct (a ∷ (xs ++ ys))
Distinct-front a [] ys d = d
Distinct-front a (x ∷ xs) ys d =
    let (apart, rest) = All-front (λ b. x ≢ b) a xs ys d.0 in
    let (away, more) = Distinct-front a xs ys d.1 in (((λ e. apart (sym e)), away), (rest, more))

-- What `allocate` hands out next.
take_back-Inv :
    (p : PoolAllocator) (used : List Address)
    → Inv p used
    → 0 < length p.free_list
    → (p' : PoolAllocator) × (a : Address) × (take_back p ≡ some (p', a))
      × Inv p' (a ∷ used)
      × All (λ b. a ≢ b) used
unfolding take_back
take_back-Inv p used v h = go p.free_list refl h
  where
    go :
        (free : List Address)
        → p.free_list ≡ free
        → 0 < length free
        → (p' : PoolAllocator) × (a : Address) × (take_back p ≡ some (p', a))
          × Inv p' (a ∷ used)
          × All (λ b. a ≢ b) used
    go [] e h = absurd (omega arith)
    go (a ∷ rest) e h =
        let d : Distinct ((a ∷ rest) ++ used) = subst (λ f. Distinct (f ++ used)) e v.distinct in
        let k : All (λ b. b.block < length p.pool_blocks) ((a ∷ rest) ++ used) =
          subst (λ f. All (λ b. b.block < length p.pool_blocks) (f ++ used)) e v.known in
        (
          record p { free_list = rest },
          a,
          rw e refl,
          record {
            distinct = Distinct-middle a rest used d;
            known = All-middle _ a rest used k.1 k.0;
          },
          All-append_right (λ b. a ≢ b) rest used d.0,
        )

length-block_elements : (block n : ℕ) → length (block_elements block n) ≡ n
unfolding block_elements
length-block_elements block zero = refl
length-block_elements block (suc n) = omega (arith, length-block_elements block n)

-- A pool that has grown has an element to hand out.
expand_pool-length : (p : PoolAllocator) (n : ℕ) → 0 < n → 0 < length (expand_pool n p).free_list
unfolding expand_pool
expand_pool-length p n h =
    let block = length p.pool_blocks in
    let size = max p.pool_size n in
    omega (
      arith,
      length-append (block_elements block size) p.free_list,
      length-block_elements block size,
    )

pub given_back :
    (p : PoolAllocator) (a : Address) (used : List Address)
    → Inv p (a ∷ used)
    → Inv (deallocate a p) used
unfolding deallocate
given_back p a used v = record {
  distinct = Distinct-front a p.free_list used v.distinct;
  known = All-front _ a p.free_list used v.known;
}

-- Let the free elements of a pool and those in use be pairwise different and of blocks that exist.
-- A request for at least one element is served: the pool hands out an element that is not in use,
-- growing if it must, and the free elements and those in use are pairwise different again; so they
-- are once the element is given back.
pub allocate-deallocate :
    (n : ℕ) (p : PoolAllocator) (used : List Address)
    → Inv p used
    → 0 < n
    → (p' : PoolAllocator) × (a : Address) × (allocate n p ≡ some (p', a))
      × All (λ b. a ≢ b) used
      × Inv p' (a ∷ used)
      × Inv (deallocate a p') used
unfolding allocate deallocate
allocate-deallocate n p used v h = elim (Bool-cases (ltb (length p.free_list) n)) [
  | inl few ↦
      let (p', a, e, w, new) =
        take_back-Inv (expand_pool n p) used (expand_pool-Inv p used v n)
          (expand_pool-length p n h) in
      (p', a, rw few e, new, w, given_back p' a used w)
  | inr enough ↦
      let (p', a, e, w, new) = take_back-Inv p used v (ground (arith, enough)) in
      (p', a, rw enough e, new, w, given_back p' a used w)
]
