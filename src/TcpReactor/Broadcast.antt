-- ===== src/TcpReactor/Broadcast.antt =====
-- To whom a broadcast goes.
use Prim.Native.String.{String}
use order_forge_matching_eng.Common.{
  ℕ, zero, suc, ◌+◌, ◌<◌, ◌≡◌, refl, sym, ◌∙◌, ap, Bool, true, false, Bool-cases, inl, inr, ◌==◌,
  ltb, leb, ◌&&◌, if◌then◌else◌, some, List, [], ◌∷◌, ◌++◌, append-nil, append_assoc, All, All-mono,
  bind-some, arith,
}
use order_forge_matching_eng.EventHandler.{
  ConnectionType, undefined, connection_handler, private_feed_orders, private_feed_trades,
  private_feed_account, public_feed_order_book, public_feed_last_trade, connection_value,
  same_connection, HandlerClass, tcp_client, tcp_connection, EventHandler,
}
use order_forge_matching_eng.TcpReactor.{
  TcpReactor, sets, find_object, send_buffer, broadcast_set, broadcast_sets, broadcast_all,
}
use order_forge_matching_eng.TcpReactor.Registry.{Inv, IsPlaced}

-- The message once for each client of a set.
unfoldable pub messages : String → List EventHandler → List (ℕ × String)
messages message [] = []
messages message (h ∷ set) = elim h.class [
  | tcp_client ↦ (h.fd, message) ∷ messages message set
  | tcp_connection _ ↦ messages message set
]

abbrev pub with_sent : List (ℕ × String) → TcpReactor → TcpReactor
with_sent more r = record r { sent = r.sent ++ more }

send_buffer-messages :
    (message : String) (h : EventHandler) (r : TcpReactor)
    → find_object h.handle r.objects ≡ some h
    → send_buffer message h r ≡ some (with_sent (messages message (h ∷ [])) r)
unfolding send_buffer messages
send_buffer-messages message h r there = bind-some _ there (go h.class)
  where
    go :
        (c : HandlerClass)
        → (elim c [
          | tcp_client ↦ some (record r { sent = r.sent ++ (h.fd, message) ∷ [] })
          | tcp_connection _ ↦ some r
        ])
          ≡ some
              (with_sent (elim c [ tcp_client ↦ (h.fd, message) ∷ [] | tcp_connection _ ↦ [] ]) r)
    go tcp_client = refl
    go (tcp_connection _) = rw (append-nil r.sent) refl

messages-cons :
    (message : String) (h : EventHandler) (set : List EventHandler)
    → messages message (h ∷ set) ≡ messages message (h ∷ []) ++ messages message set
unfolding messages
messages-cons message h set = go h.class
  where
    go :
        (c : HandlerClass)
        → (elim c [
          | tcp_client ↦ (h.fd, message) ∷ messages message set
          | tcp_connection _ ↦ messages message set
        ])
          ≡ (elim c [ tcp_client ↦ (h.fd, message) ∷ [] | tcp_connection _ ↦ [] ])
            ++ messages message set
    go tcp_client = refl
    go (tcp_connection _) = refl

module _ (is : EventHandler → Bool) (message : String) (objects : List EventHandler) (i : ℕ) where
  to_all :
      (set : List EventHandler) (r : TcpReactor)
      → r.objects ≡ objects
      → All (IsPlaced objects i) set
      → All (λ h. is h ≡ true) set
      → broadcast_set is message set r ≡ some (with_sent (messages message set) r)
  unfolding broadcast_set messages
  to_all [] r same p chosen = rw (append-nil r.sent, messages) refl
  to_all (h ∷ set) r same p chosen =
      let there = ap (find_object h.handle) same ∙ p.0.1 in
      let r₁ = with_sent (messages message (h ∷ [])) r in
      bind-some _ there (
        rw chosen.0 (
          bind-some _ (send_buffer-messages message h r there) (
            to_all set r₁ same p.1 chosen.1
            ∙ ap (λ l. some (record r { sent = l }))
                (append_assoc r.sent (messages message (h ∷ [])) (messages message set)
                  ∙ ap (λ l. r.sent ++ l) (sym (messages-cons message h set))))))

  to_none :
      (set : List EventHandler) (r : TcpReactor)
      → r.objects ≡ objects
      → All (IsPlaced objects i) set
      → All (λ h. is h ≡ false) set
      → broadcast_set is message set r ≡ some r
  unfolding broadcast_set
  to_none [] r same p chosen = refl
  to_none (h ∷ set) r same p chosen =
      bind-some _ (ap (find_object h.handle) same ∙ p.0.1)
        (rw chosen.0 (to_none set r same p.1 chosen.1))

of_type :
    (con_type : ConnectionType) (objects : List EventHandler) (i : ℕ) (set : List EventHandler)
    → All (IsPlaced objects i) set
    → All (λ h. same_connection h.connection_type con_type ≡ (i == connection_value con_type)) set
of_type con_type objects i [] p = tt
of_type con_type objects i (h ∷ set) p = (rw p.0.0 refl, of_type con_type objects i set p.1)

connection_value-lt : (con_type : ConnectionType) → connection_value con_type < sets
unfolding connection_value
connection_value-lt undefined = omega arith
connection_value-lt connection_handler = omega arith
connection_value-lt private_feed_orders = omega arith
connection_value-lt private_feed_trades = omega arith
connection_value-lt private_feed_account = omega arith
connection_value-lt public_feed_order_book = omega arith
connection_value-lt public_feed_last_trade = omega arith

-- What a broadcast over the sets from `i` on sends, `n` of them.
over_sets :
    (message : String) (con_type : ConnectionType) (n i : ℕ) (r : TcpReactor)
    → Inv r
    → broadcast_sets (λ h. same_connection h.connection_type con_type) message n i r
      ≡ some (
          if leb i (connection_value con_type) && ltb (connection_value con_type) (i + n)
          then with_sent (messages message (r.event_handlers (connection_value con_type))) r
          else r)
unfolding broadcast_sets
over_sets message con_type zero i r v = ground arith
over_sets message con_type (suc n) i r v =
    let c = connection_value con_type in
    let set = r.event_handlers i in
    let typed = of_type con_type r.objects i set (v.placed i) in
    elim (Bool-cases (i == c)) [
      | inl same ↦
          let here : i ≡ c = ground (arith, same) in
          let r₁ = with_sent (messages message set) r in
          let w : Inv r₁ = record { placed = v.placed; ascending = v.ascending } in
          let in_range : (leb i c && ltb c (i + suc n)) ≡ true = ground (arith, here) in
          let past : (leb (suc i) c && ltb c (suc i + n)) ≡ false = ground (arith, here) in
          bind-some _
            (to_all _ message r.objects i set r refl (v.placed i)
              (All-mono _ _ set (λ h e. e ∙ same) typed))
            (over_sets message con_type n (suc i) r₁ w
              ∙ (rw past (
                  rw in_range
                    (ap (λ k. some (with_sent (messages message (r.event_handlers k)) r)) here))))
      | inr other ↦
          let still : (leb (suc i) c && ltb c (suc i + n)) ≡ (leb i c && ltb c (i + suc n)) =
            ground (arith, other) in
          bind-some _
            (to_none _ message r.objects i set r refl (v.placed i)
              (All-mono _ _ set (λ h e. e ∙ other) typed))
            (over_sets message con_type n (suc i) r v ∙ rw still refl)
    ]

-- Let every registered handler be allocated and stand in the set of its connection type. A broadcast
-- to a type succeeds and sends the message once to each client that is registered under the type, in
-- the order of the set, and to nobody else.
pub broadcast_all-sends :
    (message : String) (con_type : ConnectionType) (r : TcpReactor)
    → Inv r
    → broadcast_all message con_type r
      ≡ some (with_sent (messages message (r.event_handlers (connection_value con_type))) r)
unfolding broadcast_all
broadcast_all-sends message con_type r v =
    let inside : (leb 0 (connection_value con_type) && ltb (connection_value con_type) (0 + sets))
        ≡ true =
      ground (arith, connection_value-lt con_type) in
    over_sets message con_type sets 0 r v ∙ rw inside refl
