-- ===== src/Websocket/Lifetime.antt =====
-- internal/api/websocket/hub.go and handler.go: orders of events in the life of a connection.
use defi_demo.Base.{
  ℕ, ◌≡◌, refl, ap, subst, ◌∙◌, Bool, true, none, some, [], ◌∷◌, String, nat_eq, string_eq,
  if◌then◌else◌,
}
use defi_demo.Base.Assoc.{lookup, insert, beq_refl, lookup-insert_self}
use defi_demo.Websocket.{
  Hub, Step, take_register, take_unregister, is_some, add_client, remove_client, subscribe, offer,
  send_ack, handle_command, is_valid_topic,
}
use defi_demo.Websocket.Clients.{remove_client_unknown, remove_client-closed}

-- Steps of the event loop, in order.
pub data Steps : Hub → Hub → Type 0 where
  stop : (h : Hub) → Steps h h
  step : (h h1 h2 : Hub) → Step h h1 → Steps h1 h2 → Steps h h2

-- When a client that is not registered is alone in the registration queue and alone in the queue of
-- departures, some order of the steps of the event loop ends with both queues empty and the client
-- registered.
pub race_leaks :
    (c : ℕ) (h : Hub)
    → h.queued_clients ≡ c ∷ []
    → h.unregister ≡ c ∷ []
    → lookup c h.clients ≡ none
    → (after : Hub) × Steps h after
      × (lookup c after.clients ≡ some true)
      × (after.queued_clients ≡ [])
      × (after.unregister ≡ [])
unfolding add_client
race_leaks c h queued leaving absent =
    let h1 = record h { unregister = [] } in
    let same = remove_client_unknown c h1 (ap is_some absent) in
    let h2 = add_client c (record h1 { queued_clients = [] }) in
    (
      h2,
      step h h1 h2 (subst (Step h) same (take_unregister c [] leaving))
          (step h1 h2 h2 (take_register c [] queued) (stop h2)),
      lookup-insert_self c true h.clients,
      refl,
      refl,
    )

send_ack-closed :
    (c : ℕ) (action topic : String) (now : ℕ) (h : Hub)
    → (h.objects c).closed ≡ true
    → send_ack c action topic now h ≡ none
unfolding send_ack offer
send_ack-closed c action topic now h closed = rw (send_ack, offer, closed) refl

subscribe-closed :
    (c : ℕ) (topic : String) (h : Hub)
    → ((subscribe c topic h).objects c).closed ≡ (h.objects c).closed
unfolding subscribe
subscribe-closed c topic h =
    ap
      (λ (b : Bool).
        (if b
          then record (h.objects c) { topics = insert topic true (h.objects c).topics }
          else h.objects c).closed)
      (beq_refl c)

-- A subscription to a valid topic that is read from a client which the hub has removed sends its
-- acknowledgement on a closed channel, which is a panic.
pub handle_command-removed :
    (c now : ℕ) (topic : String) (h : Hub)
    → lookup c h.clients ≡ some true
    → is_valid_topic topic ≡ true
    → handle_command c
        (some (record { action = "subscribe"; topic = topic }))
        now
        (remove_client c h)
      ≡ none
unfolding handle_command
handle_command-removed c now topic h known valid = rw valid (
    send_ack-closed c "subscribed" topic now (subscribe c topic (remove_client c h))
      (subscribe-closed c topic (remove_client c h) ∙ remove_client-closed c h known))
