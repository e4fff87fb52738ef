-- ===== src/Examples/Sockets.antt =====
-- The hub with two clients.
use defi_demo.Base.{
  ℕ, List, length, ◌≤◌, ◌≡◌, ◌≢◌, refl, true, false, none, some, [], ◌∷◌, ◌++◌, String, arith,
  nat_eq, string_eq, ◌==◌, if◌then◌else◌,
}
use defi_demo.Base.Assoc.{lookup, insert, Distinct}
use defi_demo.Websocket.{
  Message, Client, Hub, add_client, remove_client, send_to_user, broadcast_to_topic, handle_command,
  subscribers, is_some, is_valid_topic, new_hub, handle_upgrade, subscribe, take_register, deliver,
  send_buffer_size,
}
use defi_demo.Websocket.Clients.{in_topic, remove_client_lem, remove_client-newer}
use defi_demo.Websocket.Delivery.{AllOpen, received, full_ones, broadcast_to_topic_lem}
use defi_demo.Websocket.Reached.{Reached, started, upgraded, looped, subscribed, Reached-sends}
use defi_demo.Websocket.Pump.{Talk, offered, pumped, talk, talk_lem}
use defi_demo.Websocket.Sound.{IsSound}
use defi_demo.Websocket.Lifetime.{Steps, race_leaks, handle_command-removed}

abbrev alice : ℕ → Client
alice c = record { send = []; closed = false; topics = []; user_address = "0xa" }

-- Clients 1 and 2, both in the topic of the prices.
abbrev hub : Hub
hub = record {
  objects = alice;
  clients = (1, true) ∷ (2, true) ∷ [];
  topic_subs = ("prices", (1, true) ∷ (2, true) ∷ []) ∷ [];
  user_index = ("0xa", 2) ∷ [];
  queued_clients = 5 ∷ [];
  unregister = 5 ∷ [];
}

topics-Distinct : Distinct hub.topic_subs
unfolding lookup
topics-Distinct = (refl, tt)

known_1 : lookup 1 hub.clients ≡ some true
unfolding lookup
known_1 = refl

absent_5 : lookup 5 hub.clients ≡ none
unfolding lookup
absent_5 = refl

remove_client_lem_example :
    (lookup 2 (remove_client 1 hub).clients ≡ lookup 2 hub.clients)
    × (in_topic "prices" 2 (remove_client 1 hub).topic_subs ≡ in_topic "prices" 2 hub.topic_subs)
    × (((remove_client 1 hub).objects 1).closed ≡ true)
    × (remove_client 1 (remove_client 1 hub) ≡ remove_client 1 hub)
remove_client_lem_example = remove_client_lem 1 2 "prices" hub topics-Distinct known_1

abbrev user : String
user = "0xa"

named : user ≢ ""
named e = let f : (user == "") ≡ true = (string_eq.beq_iff user "").1 e in ground arith

remove_client-newer_example :
    (let after = remove_client 1 (add_client 2 (add_client 1 (new_hub alice))) in
      (lookup 2 after.clients ≡ some true)
      × (send_to_user "0xa" "notifications" "alert" (some "1") 9 after ≡ some after))
remove_client-newer_example =
    remove_client-newer 1 2 "0xa" "notifications" "alert" (some "1") 9 (new_hub alice)
      (λ e. ground arith) named refl refl

subs-Distinct : Distinct (subscribers "prices" hub.topic_subs)
unfolding lookup
subs-Distinct = (refl, (refl, tt))

subs-open : AllOpen hub.objects (subscribers "prices" hub.topic_subs)
unfolding lookup
subs-open = (refl, (refl, tt))

broadcast_to_topic_lem_example :
    (let message : Message = record {
      topic = "prices";
      kind = "tick";
      content = "1";
      timestamp = 9;
    } in
      let subs = subscribers "prices" hub.topic_subs in
      (after : Hub) × (broadcast_to_topic "prices" "tick" (some "1") 9 hub ≡ some after)
      × (after.objects 2
          ≡ (if is_some (lookup 2 subs) then received message (hub.objects 2) else hub.objects 2))
      × (after.unregister ≡ hub.unregister ++ full_ones hub.objects subs)
      × (after.clients ≡ hub.clients)
      × (after.topic_subs ≡ hub.topic_subs)
      × (after.user_index ≡ hub.user_index))
broadcast_to_topic_lem_example =
    broadcast_to_topic_lem "prices" "tick" "1" 9 2 hub subs-Distinct subs-open

race_leaks_example :
    (after : Hub) × Steps hub after
    × (lookup 5 after.clients ≡ some true)
    × (after.queued_clients ≡ [])
    × (after.unregister ≡ [])
race_leaks_example = race_leaks 5 hub refl refl absent_5

valid_prices : is_valid_topic "prices" ≡ true
unfolding is_valid_topic
valid_prices = refl

handle_command-removed_example :
    handle_command 1
      (some (record { action = "subscribe"; topic = "prices" }))
      9
      (remove_client 1 hub)
    ≡ none
handle_command-removed_example = handle_command-removed 1 9 "prices" hub known_1 valid_prices

-- Client 1 connects and is registered.
abbrev registered : Hub
registered = add_client 1 (record (handle_upgrade 1 "0xa" (new_hub alice)) { queued_clients = [] })

registered-Reached : Reached alice registered
unfolding lookup handle_upgrade
registered-Reached =
    looped (handle_upgrade 1 "0xa" (new_hub alice)) registered
      (upgraded 1 "0xa" (new_hub alice) started (record { not_client = refl; not_queued = tt }))
      (take_register 1 [] refl)

-- It then subscribes to the prices.
abbrev listening : Hub
listening = subscribe 1 "prices" registered

listening-Reached : Reached alice listening
listening-Reached = subscribed 1 "prices" registered registered-Reached

listening-client : lookup 1 listening.clients ≡ some true
unfolding lookup insert handle_upgrade subscribe add_client
listening-client = refl

abbrev tick : String → Message
tick content = record { topic = "prices"; kind = "tick"; content = content; timestamp = 9 }

Reached-sends_example :
    IsSound listening
    × ((after : Hub) × (deliver (tick "1") 1 listening ≡ some after) × IsSound after)
    × (deliver (tick "1") 1 (remove_client 1 listening) ≡ none)
Reached-sends_example =
    Reached-sends alice listening 1 (tick "1") listening-Reached listening-client

abbrev talked : List Talk
talked = offered (tick "1") ∷ offered (tick "2") ∷ pumped ∷ offered (tick "3") ∷ []

talk_lem_example :
    (accepted written : List Message) × (after : Client) × (talk talked (alice 1)
      ≡ some (accepted, written, after))
    × ((alice 1).send ++ accepted ≡ written ++ after.send)
    × (length after.send ≤ send_buffer_size)
talk_lem_example = talk_lem talked (alice 1) refl (omega arith)
