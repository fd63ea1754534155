-- ===== src/TcpHandlers/Safe.antt =====
-- Which events leave the reactor without a pointer to a deleted handler.
use Prim.Native.String.{String}
use order_forge_matching_eng.Common.{
  ℕ, ◌≡◌, ◌⊎◌, refl, subst, ◌∙◌, ap, Bool, true, Bool-cases, inl, inr, if◌then◌else◌, Option, none,
  some, ◌>>=◌, bind-some, bind-inv, Option-cases, List, [], ◌∷◌, ◌++◌, All, All-mono, arith,
}
use order_forge_matching_eng.EventHandler.{
  ConnectionType, connection_value, HandlerClass, tcp_client, tcp_connection, EventHandler,
}
use order_forge_matching_eng.TcpReactor.{
  send_buffer, broadcast_set, TcpReactor, ctl_done, is_watched, find_object, free_object,
  delete_handler, broadcast_set, unregister_handler,
}
use order_forge_matching_eng.TcpReactor.Registry.{Inv, register_handler-Inv, unregister_handler-Inv}
use order_forge_matching_eng.TcpHandlers.{
  read_failed, disconnected, received, Ready, reads, accepts, Callback, call_handlers, handle_read,
  client_handler, handle_accept, handle_event,
}

-- The events that the handler `self` may meet: one that is not a failed read, with `epoll_ctl`
-- succeeding, and `new` giving an address that no handler has.
abbrev pub IsOrderly : TcpReactor → EventHandler → Ready → Type 0
IsOrderly r self (reads read_failed) = ⊥
IsOrderly r self (reads (disconnected del)) = (self.class ≡ tcp_client) × (del ≡ ctl_done)
IsOrderly r self (reads (received _)) = self.class ≡ tcp_client
IsOrderly r self (accepts none) = (next : ConnectionType) × (self.class ≡ tcp_connection next)
IsOrderly r self (accepts (some c)) =
    (next : ConnectionType) × (self.class ≡ tcp_connection next)
    × (find_object c.handle r.objects ≡ none)
    × (is_watched c.added c.changed ≡ true)

pub at_client :
    {B : Type 0} (c : HandlerClass) (x : B) (y : ConnectionType → B)
    → c ≡ tcp_client
    → (elim c [ tcp_client ↦ x | tcp_connection next ↦ y next ]) ≡ x
at_client c x y e = rw e refl

at_connection :
    {B : Type 0} (c : HandlerClass) (x : B) (y : ConnectionType → B) (next : ConnectionType)
    → c ≡ tcp_connection next
    → (elim c [ tcp_client ↦ x | tcp_connection n ↦ y n ]) ≡ y next
at_connection c x y next e = rw e refl

find_object-freed :
    (handle : ℕ) (objects : List EventHandler)
    → find_object handle (free_object handle objects) ≡ none
unfolding find_object free_object
find_object-freed handle [] = refl
find_object-freed handle (o ∷ objects) = ground (arith, find_object-freed handle objects)

bind-none :
    {B C : Type 0} {o : Option B} (f : B → Option C)
    → ((b : B) → o ≡ some b → f b ≡ none)
    → (o >>= f) ≡ none
bind-none {o = none} f h = refl
bind-none {o = some b} f h = h b refl

send_buffer-objects :
    (message : String) (h : EventHandler) (r r' : TcpReactor)
    → send_buffer message h r ≡ some r'
    → r'.objects ≡ r.objects
unfolding send_buffer
send_buffer-objects message h r r' e =
    let (object, _, sent) = bind-inv (find_object h.handle r.objects) _ r' e in
    go object.fd object.class sent
  where
    go :
        (fd : ℕ) (c : HandlerClass)
        → (elim c [
          | tcp_client ↦ some (record r { sent = r.sent ++ (fd, message) ∷ [] })
          | tcp_connection _ ↦ some r
        ])
          ≡ some r'
        → r'.objects ≡ r.objects
    go fd tcp_client f = ground (arith, f)
    go fd (tcp_connection _) f = ground (arith, f)

broadcast_set-deleted :
    (is : EventHandler → Bool) (message : String) (self : EventHandler)
    (post pre : List EventHandler) (r : TcpReactor)
    → find_object self.handle r.objects ≡ none
    → broadcast_set is message (pre ++ self ∷ post) r ≡ none
unfolding broadcast_set
broadcast_set-deleted is message self post [] r gone = rw gone refl
broadcast_set-deleted is message self post (h ∷ pre) r gone = bind-none _ (λ object found.
    bind-none {o = if is object then send_buffer message h r else some r} _ (λ r₁ step.
      broadcast_set-deleted is message self post pre r₁ (elim (Bool-cases (is object)) [
        | inl chosen ↦
            ap (find_object self.handle) (send_buffer-objects message h r r₁ (rw chosen at step))
            ∙ gone
        | inr other ↦ ground (arith, gone, (rw other at step))
      ])))

-- An object at an address that no object has.
pub allocated-Inv :
    (r : TcpReactor) (h : EventHandler)
    → find_object h.handle r.objects ≡ none
    → Inv r
    → Inv (record r { objects = h ∷ r.objects })
unfolding find_object
allocated-Inv r h new v = record {
  placed =
      λ i. All-mono _ _ (r.event_handlers i) (λ g p. (p.0, ground (arith, new, p.1))) (v.placed i);
  ascending = v.ascending;
}

pub some_inj : {B : Type 0} {x y : B} → some x ≡ some y → x ≡ y
some_inj {x = x} e = ap (λ o. elim o [ none ↦ x | some z ↦ z ]) e

module _ (A : Type 0) where
  -- Where the callback returns, the registry is as it should be.
  abbrev pub IsKeeping : Callback A → Type 0
  IsKeeping f =
      (message : String) (r r' : TcpReactor) (a a' : A)
      → Inv r
      → f message (r, a) ≡ some (r', a')
      → Inv r'

  call_handlers-keeps :
      (handlers : List (Callback A))
      → All IsKeeping handlers
      → (message : String) (r r' : TcpReactor) (a a' : A) → Inv r
      → call_handlers A handlers message (r, a) ≡ some (r', a')
      → Inv r'
  unfolding call_handlers
  call_handlers-keeps [] keeping message r r' a a' v e = subst Inv (ap (λ w. w.0) (some_inj e)) v
  call_handlers-keeps (f ∷ fs) keeping message r r' a a' v e =
      let ((r₁, a₁), done, rest) = bind-inv (f message (r, a)) _ (r', a') e in
      call_handlers-keeps fs keeping.1 message r₁ r' a₁ a' (keeping.0 message r r₁ a a₁ v done) rest

  -- Let every registered handler be allocated, and let every callback that returns keep it so. An event on
  -- an allocated handler that is not a failed read, with `epoll_ctl` succeeding and `new` giving an address
  -- that no handler has, is handled without an access to a deleted handler, and afterwards every
  -- registered handler is allocated; or it is a message, and one of the callbacks does not return.
  pub handle_event-Inv :
      (handlers : List (Callback A)) (self : EventHandler) (ready : Ready) (r : TcpReactor) (a : A)
      → All IsKeeping handlers
      → Inv r
      → find_object self.handle r.objects ≡ some self
      → IsOrderly r self ready
      → ((r' : TcpReactor) × (a' : A) × (handle_event A handlers self ready (r, a) ≡ some (r', a'))
          × Inv r')
        ⊎ ((message : String) × (ready ≡ reads (received message))
            × (call_handlers A handlers message (r, a) ≡ none)
            × (handle_event A handlers self ready (r, a) ≡ none))
  unfolding handle_event handle_read handle_accept find_object
  handle_event-Inv handlers self (reads read_failed) r a keeping v there o = absurd o
  handle_event-Inv handlers self (reads (disconnected del)) r a keeping v there (class, done) =
      let (r', e, w) = unregister_handler-Inv self r v there in
      let e' : unregister_handler del self r ≡ some r' =
        ap (λ d. unregister_handler d self r) done ∙ e in
      inl
        (delete_handler self.handle r', a, at_client self.class _ _ class ∙ bind-some _ e' refl, w)
  handle_event-Inv handlers self (reads (received message)) r a keeping v there class =
      let step = at_client self.class _ _ class in
      elim (Option-cases (call_handlers A handlers message (r, a))) [
        | inl gone ↦ inr (message, refl, gone, step ∙ gone)
        | inr ((r', a'), e) ↦
            inl (r', a', step ∙ e, call_handlers-keeps handlers keeping message r r' a a' v e)
      ]
  handle_event-Inv handlers self (accepts none) r a keeping v there (next, class) =
      inl (r, a, at_connection self.class _ _ next class, v)
  handle_event-Inv handlers self (accepts (some c)) r a keeping v there
        (next, class, new, watched) =
      let h = client_handler A next c in
      let r₁ : TcpReactor = record r { objects = h ∷ r.objects } in
      let (r', e, w) =
        register_handler-Inv c.added c.changed h r₁ (allocated-Inv r h new v) (ground arith)
          watched in
      inl (r', a, at_connection self.class _ _ next class ∙ bind-some _ e refl, w)

  -- A failed read on a client deletes its handler and leaves it in its set: whoever stands before it
  -- there, a broadcast that goes over the set accesses the deleted handler.
  pub handle_event-read_failed :
      (handlers : List (Callback A)) (self : EventHandler) (r : TcpReactor) (a : A)
      (is : EventHandler → Bool) (message : String)
      → (pre post : List EventHandler) → self.class ≡ tcp_client
      → r.event_handlers (connection_value self.connection_type) ≡ pre ++ self ∷ post
      → (r' : TcpReactor) × (handle_event A handlers self (reads read_failed) (r, a) ≡ some (r', a))
        × (broadcast_set is message (r'.event_handlers (connection_value self.connection_type)) r'
            ≡ none)
  unfolding handle_event handle_read
  handle_event-read_failed handlers self r a is message pre post class here = (
    delete_handler self.handle r,
    at_client self.class _ _ class,
    rw here (
        broadcast_set-deleted is message self post pre (delete_handler self.handle r)
          (find_object-freed self.handle r.objects)),
  )
