-- ===== src/TcpHandlers/Kept.antt =====
-- What an event and the start of a listener leave of the registry, with callbacks that may throw.
use order_forge_matching_eng.Common.{
  ℕ, ◌≡◌, ◌≢◌, sym, ◌∙◌, ap, subst, true, Bool-cases, inl, inr, none, some, bind-inv, List, ◌∷◌,
  All, arith,
}
use order_forge_matching_eng.EventHandler.{ConnectionType, EventHandler}
use order_forge_matching_eng.TcpReactor.{
  TcpReactor, CtlResult, is_watched, find_object, register_handler,
}
use order_forge_matching_eng.TcpReactor.Registry.{Inv, register_handler-Inv}
use order_forge_matching_eng.TcpHandlers.{Ready, Callback, handle_event}
use order_forge_matching_eng.TcpHandlers.Listen.{Listening, tcp_connection_handler, add_listener}
use order_forge_matching_eng.TcpHandlers.Safe.{
  IsOrderly, IsKeeping, some_inj, allocated-Inv, handle_event-Inv,
}

module _ (A : Type 0) where
  -- Where an orderly event is handled at all.
  pub handle_event-keeps :
      (handlers : List (Callback A)) (self : EventHandler) (ready : Ready) (r r' : TcpReactor)
      (a a' : A)
      → All (IsKeeping A) handlers
      → Inv r
      → find_object self.handle r.objects ≡ some self
      → IsOrderly r self ready
      → handle_event A handlers self ready (r, a) ≡ some (r', a')
      → Inv r'
  handle_event-keeps handlers self ready r r' a a' keeping v there o e =
      elim (handle_event-Inv A handlers self ready r a keeping v there o) [
        | inl (r₁, a₁, f, w) ↦ subst Inv (ap (λ w. w.0) (some_inj (sym f ∙ e))) w
        | inr (message, _, _, gone) ↦ absurd (ground (arith, (sym gone ∙ e)))
      ]

register_handler-done :
    (added changed : CtlResult) (h : EventHandler) (r r' : TcpReactor)
    → register_handler added changed h r ≡ some r'
    → (is_watched added changed ≡ true) × (r'.objects ≡ r.objects)
unfolding register_handler
register_handler-done added changed h r r' e = elim (Bool-cases (is_watched added changed)) [
  | inl watched ↦ (watched, ap (λ (x : TcpReactor). x.objects) (sym (some_inj (rw watched at e))))
  | inr other ↦ absurd (ground (arith, (rw other at e)))
]

tcp_connection_handler-handle :
    (next : ConnectionType) (s : Listening) (h : EventHandler)
    → tcp_connection_handler next s ≡ some h
    → h.handle ≡ s.handle
unfolding tcp_connection_handler
tcp_connection_handler-handle next s h e = ground (arith, e)

-- A listener at an address that no object has.
pub add_listener-keeps :
    (next : ConnectionType) (s : Listening) (r r' : TcpReactor)
    → Inv r
    → find_object s.handle r.objects ≡ none
    → add_listener next s r ≡ some r'
    → Inv r'
      × ((k : ℕ) → k ≢ s.handle → find_object k r.objects ≡ none → find_object k r'.objects ≡ none)
unfolding add_listener find_object
add_listener-keeps next s r r' v new e =
    let (h, made, registered) = bind-inv (tcp_connection_handler next s) _ r' e in
    let same : h.handle ≡ s.handle = tcp_connection_handler-handle next s h made in
    let r₁ : TcpReactor = record r { objects = h ∷ r.objects } in
    let (watched, objects) = register_handler-done s.added s.changed h r₁ r' registered in
    let (r₂, f, w) =
      register_handler-Inv s.added s.changed h r₁
        (allocated-Inv r h (ap (λ k. find_object k r.objects) same ∙ new) v) (ground arith)
        watched in
    (
      subst Inv (some_inj (sym f ∙ registered)) w,
      λ k other gone. ap (find_object k) objects ∙ ground (arith, same, other, gone),
    )
