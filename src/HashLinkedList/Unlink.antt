-- ===== src/HashLinkedList/Unlink.antt =====
-- The writes of links with which `pop_front`, `pop_back` and `pop_middle` take a node from between
-- its neighbours.
use order_forge_matching_eng.Common.{
  ◌≡◌, ◌≢◌, ◌∙◌, Option, none, some, List, [], ◌∷◌, ◌++◌, All, All-mono, All-zip, All-append_left,
  All-append_right,
}
use order_forge_matching_eng.PoolAllocator.{Address}
use order_forge_matching_eng.PoolAllocator.Fresh.{Distinct}
use order_forge_matching_eng.HashLinkedList.{Memory, Node, unlink, set_left, set_right}
use order_forge_matching_eng.HashLinkedList.Chain.{
  Entry, addresses, last, Chain, Chain-frame, Chain-append, Chain-split, set_left-first,
  set_right-last,
}
use order_forge_matching_eng.HashLinkedList.Push.{Distinct-left, Distinct-right, Distinct-apart}

Distinct-ahead : (xs ys : List Address) → Distinct (xs ++ ys) → All (λ x. All (λ y. x ≢ y) ys) xs
Distinct-ahead [] ys d = tt
Distinct-ahead (x ∷ xs) ys d = (All-append_right _ xs ys d.0, Distinct-ahead xs ys d.1)

module _ {T : Type 0} where
  -- A step that changes links so that the nodes `xs` are a chain, and leaves the others alone.
  abbrev pub Unlinks : Memory T → Option (Memory T) → List (Entry T) → List Address → Type 0
  Unlinks m step xs others =
      (cell' : Address → Option (Node T)) × (step ≡ some (record m { cell = cell' }))
      × Chain cell' none xs none
      × All (λ b. cell' b ≡ m.cell b) others

  -- `e` stands between `pre` and `post`, and all their places differ from those of the others.
  abbrev pub Apart : List (Entry T) → Entry T → List (Entry T) → List Address → Type 0
  Apart pre e post others =
      All (λ b. e.address ≢ b) (addresses pre ++ (addresses post ++ others))
      × Distinct (addresses pre ++ (addresses post ++ others))

  pub unlink_front :
      (m : Memory T) (e f : Entry T) (post : List (Entry T)) (others : List Address)
      → Apart [] e (f ∷ post) others
      → Chain m.cell none (e ∷ f ∷ post) none
      → Unlinks m (set_left (some f.address) none m) (f ∷ post) others
  unlink_front m e f post others (apart, d) c =
      let used = addresses (f ∷ post) in
      let (cell', done, chain, frame) =
        set_left-first m (some e.address) none none f post (Distinct-left used others d) c.1 in
      (cell', done, chain, All-mono _ _ others frame (Distinct-apart used others d))

  pub unlink_back :
      (m : Memory T) (p : Entry T) (pre : List (Entry T)) (e : Entry T) (others : List Address)
      → Apart (p ∷ pre) e [] others
      → Chain m.cell none (p ∷ pre ++ e ∷ []) none
      → Unlinks m (set_right (last none (p ∷ pre)) none m) (p ∷ pre) others
  unlink_back m p pre e others (apart, d) c =
      let used = addresses (p ∷ pre) in
      let (c₁, _) = Chain-split m.cell none none (p ∷ pre) (e ∷ []) c in
      let (cell', done, chain, frame) =
        set_right-last m none (some e.address) none p pre (Distinct-left used others d) c₁ in
      (cell', done, chain, All-mono _ _ others frame (Distinct-apart used others d))

  pub unlink_middle :
      (m : Memory T) (p : Entry T) (pre : List (Entry T)) (e f : Entry T) (post : List (Entry T))
      (others : List Address)
      → Apart (p ∷ pre) e (f ∷ post) others
      → Chain m.cell none (p ∷ pre ++ e ∷ f ∷ post) none
      → Unlinks m (unlink (some e.address) m) (p ∷ pre ++ f ∷ post) others
  unfolding unlink
  unlink_middle m p pre e f post others (apart, d) c =
      let left = addresses (p ∷ pre) in
      let right = addresses (f ∷ post) in
      let (c₁, (here, c₂)) = Chain-split m.cell none none (p ∷ pre) (e ∷ f ∷ post) c in
      let d₂ : Distinct (right ++ others) = Distinct-right left (right ++ others) d in
      let away : All (λ b. All (λ a. b ≢ a) left) (right ++ others) =
        Distinct-apart left (right ++ others) d in
      let (cell₁, done₁, chain₁, frame₁) =
        set_right-last m none (some e.address) (some f.address) p pre
          (Distinct-left left (right ++ others) d) c₁ in
      let m₁ = record m { cell = cell₁ } in
      let here₁ = frame₁ e.address (All-append_left _ left (right ++ others) apart) ∙ here in
      let (cell₂, done₂, chain₂, frame₂) =
        set_left-first m₁ (some e.address) (last none (p ∷ pre)) none f post
          (Distinct-left right others d₂)
          (Chain-frame m.cell cell₁ (some e.address) none (f ∷ post)
            (All-mono _ _ right frame₁ (All-append_left _ right others away)) c₂) in
      (
        cell₂,
        rw here (rw done₁ (rw here₁ done₂)),
        Chain-append cell₂ none none (p ∷ pre) (f ∷ post)
            (Chain-frame cell₁ cell₂ none (some f.address) (p ∷ pre)
              (All-mono _ _ left (λ a h. frame₂ a (All-append_left _ right others h))
                (Distinct-ahead left (right ++ others) d))
              chain₁)
            chain₂,
        All-mono _ _ others (λ b h. frame₂ b h.0 ∙ frame₁ b h.1)
            (All-zip _ _ others (Distinct-apart right others d₂)
              (All-append_right _ right others away)),
      )
