-- ===== src/TcpReactor/Registry.antt =====
-- Every handler that is registered is allocated, and stands in the set of its connection type alone.
use order_forge_matching_eng.Common.{
  ℕ, ◌<◌, ◌≡◌, ◌≢◌, refl, sym, ◌∙◌, ap, subst, true, Bool-cases, inl, inr, ◌==◌, ltb, Option, none,
  some, List, [], ◌∷◌, All, All-mono, All-zip, arith,
}
use order_forge_matching_eng.EventHandler.{EventHandler, connection_value}
use order_forge_matching_eng.TcpReactor.{
  TcpReactor, CtlResult, insert, erase, set_at, is_watched, register_handler, unregister_handler,
  find_object, free_object, delete_handler,
}

abbrev pub Ascending : List EventHandler → Type 0
Ascending [] = Unit {0}
Ascending (h ∷ set) = All (λ g. h.handle < g.handle) set × Ascending set

abbrev pub IsPlaced : List EventHandler → ℕ → EventHandler → Type 0
IsPlaced objects i h =
    (connection_value h.connection_type ≡ i) × (find_object h.handle objects ≡ some h)

pub record Inv (r : TcpReactor) : Type 0 where
  pub placed : (i : ℕ) → All (IsPlaced r.objects i) (r.event_handlers i)
  pub ascending : (i : ℕ) → Ascending (r.event_handlers i)

module _ (P : EventHandler → Type 0) (h : EventHandler) where
  All-insert : (set : List EventHandler) → P h → All P set → All P (insert h set)
  unfolding insert
  All-insert [] p a = (p, tt)
  All-insert (g ∷ set) p a = elim (Bool-cases (ltb h.handle g.handle)) [
    | inl less ↦ rw less (p, a)
    | inr more ↦ rw more (elim (Bool-cases (h.handle == g.handle)) [
      | inl same ↦ rw same a
      | inr other ↦ rw other (a.0, All-insert set p a.1)
    ])
  ]

  All-erase : (handle : ℕ) (set : List EventHandler) → All P set → All P (erase handle set)
  unfolding erase
  All-erase handle [] a = tt
  All-erase handle (g ∷ set) a = elim (Bool-cases (g.handle == handle)) [
    | inl same ↦ rw same a.1
    | inr other ↦ rw other (a.0, All-erase handle set a.1)
  ]

Ascending-insert :
    (h : EventHandler) (set : List EventHandler) → Ascending set → Ascending (insert h set)
unfolding insert
Ascending-insert h [] a = (tt, tt)
Ascending-insert h (g ∷ set) a = elim (Bool-cases (ltb h.handle g.handle)) [
  | inl less ↦
      rw less ((ground (arith, less), All-mono _ _ set (λ k b. ground (arith, less, b)) a.0), a)
  | inr more ↦ rw more (elim (Bool-cases (h.handle == g.handle)) [
    | inl same ↦ rw same a
    | inr other ↦ rw other (
      All-insert (λ k. g.handle < k.handle) h set (ground (arith, more, other)) a.0,
      Ascending-insert h set a.1,
    )
  ])
]

Ascending-erase :
    (handle : ℕ) (set : List EventHandler) → Ascending set → Ascending (erase handle set)
unfolding erase
Ascending-erase handle [] a = tt
Ascending-erase handle (g ∷ set) a = elim (Bool-cases (g.handle == handle)) [
  | inl same ↦ rw same a.1
  | inr other ↦
      rw other
        (All-erase (λ k. g.handle < k.handle) g handle set a.0, Ascending-erase handle set a.1)
]

erased :
    (handle : ℕ) (set : List EventHandler)
    → Ascending set
    → All (λ g. g.handle ≢ handle) (erase handle set)
unfolding erase
erased handle [] a = tt
erased handle (g ∷ set) a = elim (Bool-cases (g.handle == handle)) [
  | inl same ↦ rw same (All-mono _ _ set (λ k b e. absurd (ground (arith, same, b, e))) a.0)
  | inr other ↦ rw other ((λ e. absurd (ground (arith, other, e))), erased handle set a.1)
]

find_object-free_object :
    (k handle : ℕ) (objects : List EventHandler)
    → k ≢ handle
    → find_object k (free_object handle objects) ≡ find_object k objects
unfolding find_object free_object
find_object-free_object k handle [] other = refl
find_object-free_object k handle (o ∷ objects) other =
    ground (arith, find_object-free_object k handle objects other, other)

-- A handler that is allocated is registered, under whatever `epoll_ctl` answers but a failure.
pub register_handler-Inv :
    (added changed : CtlResult) (h : EventHandler) (r : TcpReactor)
    → Inv r
    → find_object h.handle r.objects ≡ some h
    → is_watched added changed ≡ true
    → (r' : TcpReactor) × (register_handler added changed h r ≡ some r') × Inv r'
unfolding register_handler
register_handler-Inv added changed h r v there watched =
    let i = connection_value h.connection_type in
    let set = insert h (r.event_handlers i) in
    (
      record r { event_handlers = set_at i set r.event_handlers },
      rw watched refl,
      record {
        placed = λ j. elim (Bool-cases (j == i)) [
          | inl same ↦
              let e : j ≡ i = ground (arith, same) in
              rw same (
                subst (λ k. All (IsPlaced r.objects k) set) (sym e)
                  (All-insert (IsPlaced r.objects i) h (r.event_handlers i) (refl, there)
                    (v.placed i)))
          | inr other ↦ rw other (v.placed j)
        ];
        ascending = λ j. elim (Bool-cases (j == i)) [
          | inl same ↦ rw same (Ascending-insert h (r.event_handlers i) (v.ascending i))
          | inr other ↦ rw other (v.ascending j)
        ];
      },
    )

module _ (h : EventHandler) (r : TcpReactor) (v : Inv r)
    (there : find_object h.handle r.objects ≡ some h) where
  -- No set but that of its connection type has a handler.
  elsewhere :
      (j : ℕ) (set : List EventHandler)
      → j ≢ connection_value h.connection_type
      → All (IsPlaced r.objects j) set
      → All (λ g. g.handle ≢ h.handle) set
  elsewhere j set other = All-mono _ _ set (λ g p same.
      (let found : some g ≡ some h = sym p.1 ∙ (ap (λ k. find_object k r.objects) same ∙ there) in
        let type : some (connection_value g.connection_type)
            ≡ some (connection_value h.connection_type) =
          ap
            (λ (o : Option EventHandler). elim o [
              | none ↦ none
              | some x ↦ some (connection_value x.connection_type)
            ])
            found in
        let t : connection_value g.connection_type ≡ connection_value h.connection_type =
          ground (arith, type) in
        other (sym p.0 ∙ t)))

  still-IsPlaced :
      (j : ℕ) (set : List EventHandler)
      → All (IsPlaced r.objects j) set
      → All (λ g. g.handle ≢ h.handle) set
      → All (IsPlaced (free_object h.handle r.objects) j) set
  still-IsPlaced j set p other =
      All-mono _ _ set
        (λ g k. (k.0.0, find_object-free_object g.handle h.handle r.objects k.1 ∙ k.0.1))
        (All-zip _ _ set p other)

  -- A handler that is unregistered before it is deleted leaves no pointer behind.
  pub unregister_handler-Inv :
      (r' : TcpReactor) × (unregister_handler CtlResult.ctl_done h r ≡ some r')
      × Inv (delete_handler h.handle r')
  unfolding unregister_handler
  unregister_handler-Inv =
      let i = connection_value h.connection_type in
      let set = erase h.handle (r.event_handlers i) in
      (
        record r { event_handlers = set_at i set r.event_handlers },
        refl,
        record {
          placed = λ j. elim (Bool-cases (j == i)) [
            | inl same ↦
                let e : j ≡ i = ground (arith, same) in
                rw same (
                  subst (λ k. All (IsPlaced (free_object h.handle r.objects) k) set) (sym e)
                    (still-IsPlaced i set
                      (All-erase (IsPlaced r.objects i) h h.handle (r.event_handlers i)
                        (v.placed i))
                      (erased h.handle (r.event_handlers i) (v.ascending i))))
            | inr other ↦ rw other (
                still-IsPlaced j (r.event_handlers j) (v.placed j) (
                  elsewhere j (r.event_handlers j) (λ e. absurd (ground (arith, other, e)))
                    (v.placed j)))
          ];
          ascending = λ j. elim (Bool-cases (j == i)) [
            | inl same ↦ rw same (Ascending-erase h.handle (r.event_handlers i) (v.ascending i))
            | inr other ↦ rw other (v.ascending j)
          ];
        },
      )
