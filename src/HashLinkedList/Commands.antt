-- ===== src/HashLinkedList/Commands.antt =====
-- Clients that push and remove in any order: the list on the heap does what the sequence does.
use order_forge_matching_eng.Common.{
  ℕ, ◌<◌, ◌≡◌, refl, sym, ◌∙◌, subst, false, Option, none, some, ◌>>=◌, List, [], ◌∷◌, ◌++◌, All,
  All-total, All-mono, All-zip, arith,
}
use order_forge_matching_eng.PoolAllocator.{Address}
use order_forge_matching_eng.NodeList
use order_forge_matching_eng.HashLinkedList.{HashLinkedList, State, Memory, push, remove}
use order_forge_matching_eng.HashLinkedList.Index.{RobinMap}
use order_forge_matching_eng.HashLinkedList.Chain.{Entry}
use order_forge_matching_eng.HashLinkedList.Invariant.{Holds, lookup, items}
use order_forge_matching_eng.HashLinkedList.Push.{push-Holds}
use order_forge_matching_eng.HashLinkedList.Refines.{NodeList-contains-lookup, remove-Holds}

-- What a client does with a list.
pub data Command (T : Type 0) : Type 0 where
  push_item : ℕ → T → Command T
  remove_id : ℕ → Command T

module _ {T : Type 0} where
  unfoldable pub on_nodes : Command T → NodeList.NodeList T → NodeList.NodeList T
  on_nodes (push_item id item) nodes = NodeList.push id item nodes
  on_nodes (remove_id id) nodes = NodeList.remove id nodes

  unfoldable pub all_on_nodes : List (Command T) → NodeList.NodeList T → NodeList.NodeList T
  all_on_nodes [] nodes = nodes
  all_on_nodes (c ∷ rest) nodes = all_on_nodes rest (on_nodes c nodes)

  -- An id that is pushed is not in the list at that time.
  abbrev pub IsNew : Command T → NodeList.NodeList T → Type 0
  IsNew (push_item id _) nodes = NodeList.contains id nodes ≡ false
  IsNew (remove_id _) nodes = Unit

  abbrev pub AllNew : List (Command T) → NodeList.NodeList T → Type 0
  AllNew [] nodes = Unit
  AllNew (c ∷ rest) nodes = IsNew c nodes × AllNew rest (on_nodes c nodes)

  items-append : (xs ys : List (Entry T)) → items (xs ++ ys) ≡ items xs ++ items ys
  items-append [] ys = refl
  items-append (e ∷ xs) ys = rw (items-append xs ys) refl

module _ (M : RobinMap) {T : Type 0} (bytes : ℕ) where
  unfoldable pub on_heap : Command T → State M T → Option (State M T)
  on_heap (push_item id item) s = push M bytes id item s
  on_heap (remove_id id) s = remove M id s

  unfoldable pub all_on_heap : List (Command T) → State M T → Option (State M T)
  all_on_heap [] s = some s
  all_on_heap (c ∷ rest) s = do s₁ ← on_heap c s; all_on_heap rest s₁

  unknown :
      (id : ℕ) (xs : List (Entry T)) → NodeList.contains id (items xs) ≡ false → lookup id xs ≡ none
  unknown id xs new = ground (arith, NodeList-contains-lookup id xs, new)

  on_heap-Holds :
      (c : Command T) (l : HashLinkedList M) (m : Memory T) (xs : List (Entry T))
      (others : List Address)
      → 0 < bytes
      → Holds M l m xs others
      → IsNew c (items xs)
      → (l' : HashLinkedList M) × (m' : Memory T) × (xs' : List (Entry T)) × (on_heap c (l, m)
          ≡ some (l', m'))
        × Holds M l' m' xs' others
        × (items xs' ≡ on_nodes c (items xs))
        × All (λ b. m'.cell b ≡ m.cell b) others
  unfolding on_heap on_nodes
  on_heap-Holds (push_item id item) l m xs others positive h new =
      let (l', m', a, done, w, same) =
        push-Holds M bytes id item l m xs others h (unknown id xs new) positive in
      let e : Entry T = record { address = a; id = id; item = item } in
      (l', m', xs ++ e ∷ [], done, w, items-append xs (e ∷ []), same)
  on_heap-Holds (remove_id id) l m xs others positive h _ = remove-Holds M l m xs others id h

  -- Let the list hold `xs`, and let a client push ids that are not in the list and remove any. Every
  -- operation succeeds, and in the end the list on the heap holds the nodes that the same operations
  -- give on the sequence; no node of another list has changed.
  pub all_on_heap-Holds :
      (cs : List (Command T)) (l : HashLinkedList M) (m : Memory T) (xs : List (Entry T))
      (others : List Address)
      → 0 < bytes
      → Holds M l m xs others
      → AllNew cs (items xs)
      → (l' : HashLinkedList M) × (m' : Memory T) × (xs' : List (Entry T)) × (all_on_heap cs (l, m)
          ≡ some (l', m'))
        × Holds M l' m' xs' others
        × (items xs' ≡ all_on_nodes cs (items xs))
        × All (λ b. m'.cell b ≡ m.cell b) others
  unfolding all_on_heap all_on_nodes
  all_on_heap-Holds [] l m xs others positive h _ =
      (l, m, xs, refl, h, refl, All-total _ others (λ b. refl))
  all_on_heap-Holds (c ∷ cs) l m xs others positive h (new, news) =
      let (l₁, m₁, xs₁, done₁, h₁, is₁, same₁) = on_heap-Holds c l m xs others positive h new in
      let (l₂, m₂, xs₂, done₂, h₂, is₂, same₂) =
        all_on_heap-Holds cs l₁ m₁ xs₁ others positive h₁ (subst (AllNew cs) (sym is₁) news) in
      (
        l₂,
        m₂,
        xs₂,
        rw done₁ done₂,
        h₂,
        is₂ ∙ rw is₁ refl,
        All-mono _ _ others (λ b k. k.0 ∙ k.1) (All-zip _ _ others same₂ same₁),
      )
