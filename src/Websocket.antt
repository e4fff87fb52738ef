-- ===== src/Websocket.antt =====
-- internal/api/websocket/hub.go and the command loop of handler.go: clients, topics and delivery.
-- A client is the number of its object; the objects are the store `objects`. addClient, removeClient,
-- Subscribe and Unsubscribe hold the hub's lock, so each is one step, and so is a single send;
-- broadcast_to_topic, send_to_user and handle_command are the sequences of these that the code makes
-- of them, run while no other goroutine comes between. Reached lets all of them interleave.
-- `none` is the panic of a send on a closed channel. The channels to the event loop are unbounded
-- lists: blocking on a full one is not modelled.
pub mod Clients
pub mod Delivery
pub mod Lifetime
pub mod Topics
pub mod Sound
pub mod Left
pub mod Joined
pub mod Sent
pub mod Pump
pub mod Answered
pub mod Reached
use defi_demo.Base.{
  ℕ, ◌≡◌, Bool, true, false, Option, none, some, List, [], ◌∷◌, ◌++◌, String, nat_eq, string_eq,
  ◌==◌, ◌>>=◌, if◌then◌else◌, ltb, length, map, ◌||◌,
}
use defi_demo.Base.Assoc.{Map, lookup, insert, erase}

pub record Message : Type 0 where
  pub topic : String
  pub kind : String
  pub content : String
  pub timestamp : ℕ

abbrev pub send_buffer_size : ℕ
send_buffer_size = 256

-- `send` is the buffered channel, oldest first.
pub record Client : Type 0 where
  pub send : List Message
  pub closed : Bool
  pub topics : Map String Bool
  pub user_address : String

-- `queued_clients` and `unregister` are the channels to the event loop, oldest first.
pub record Hub : Type 0 where
  pub objects : ℕ → Client
  pub clients : Map ℕ Bool
  pub topic_subs : Map String (Map ℕ Bool)
  pub user_index : Map String ℕ
  pub queued_clients : List ℕ
  pub unregister : List ℕ

abbrev pub new_hub : (ℕ → Client) → Hub
new_hub objects = record {
  objects = objects;
  clients = [];
  topic_subs = [];
  user_index = [];
  queued_clients = [];
  unregister = [];
}

abbrev pub is_some {ℓ} : {A : Type ℓ} → Option A → Bool
is_some none = false
is_some (some a) = true

abbrev pub is_empty {ℓ} : {A : Type ℓ} → List A → Bool
is_empty [] = true
is_empty (x ∷ xs) = false

abbrev pub write_object : ℕ → Client → (ℕ → Client) → ℕ → Client
write_object c client objects d = if c == d then client else objects d

unfoldable pub add_client : ℕ → Hub → Hub
add_client c h =
    let address = (h.objects c).user_address in
    record h {
      clients = insert c true h.clients;
      user_index = if address == "" then h.user_index else insert address c h.user_index;
    }

-- `for topic, subs := range h.topicSubs`: the client leaves each topic, an empty topic is deleted.
unfoldable pub drop_client : ℕ → Map String (Map ℕ Bool) → Map String (Map ℕ Bool)
drop_client c [] = []
drop_client c ((topic, subs) ∷ m) =
    let rest = drop_client c m in
    let left = erase c subs in if is_empty left then rest else (topic, left) ∷ rest

unfoldable pub remove_client : ℕ → Hub → Hub
remove_client c h =
    let client = h.objects c in
    if is_some (lookup c h.clients)
    then (record h {
      clients = erase c h.clients;
      user_index =
          if client.user_address == ""
          then h.user_index
          else erase client.user_address h.user_index;
      topic_subs = drop_client c h.topic_subs;
      objects = write_object c (record client { closed = true }) h.objects;
    })
    else h

-- One round of the event loop: the select takes either channel when both are ready.
pub data Step (h : Hub) : Hub → Type 0 where
  take_register :
      (c : ℕ) (cs : List ℕ)
      → h.queued_clients ≡ c ∷ cs
      → Step h (add_client c (record h { queued_clients = cs }))
  take_unregister :
      (c : ℕ) (cs : List ℕ)
      → h.unregister ≡ c ∷ cs
      → Step h (remove_client c (record h { unregister = cs }))

abbrev pub subscribers : String → Map String (Map ℕ Bool) → Map ℕ Bool
subscribers topic m = elim (lookup topic m) [ none ↦ [] | some subs ↦ subs ]

unfoldable pub subscribe : ℕ → String → Hub → Hub
subscribe c topic h =
    let client = h.objects c in
    record h {
      topic_subs = insert topic (insert c true (subscribers topic h.topic_subs)) h.topic_subs;
      objects =
          write_object c (record client { topics = insert topic true client.topics }) h.objects;
    }

unfoldable pub unsubscribe : ℕ → String → Hub → Hub
unsubscribe c topic h =
    let client = h.objects c in
    record h {
      topic_subs = elim (lookup topic h.topic_subs) [
        | none ↦ h.topic_subs
        | some subs ↦ insert topic (erase c subs) h.topic_subs
      ];
      objects = write_object c (record client { topics = erase topic client.topics }) h.objects;
    }

-- `select { case c.send <- payload: default: … }`; the flag says that the message is in the buffer.
unfoldable pub offer : Message → Client → Option (Bool × Client)
offer message client =
    if client.closed
    then none
    else if ltb (length client.send) send_buffer_size
    then some (true, record client { send = client.send ++ (message ∷ []) })
    else some (false, client)

-- A delivery by the hub: a client whose buffer is full is to be unregistered.
unfoldable pub deliver : Message → ℕ → Hub → Option Hub
deliver message c h = do
  (sent, client) ← offer message (h.objects c)
  let queue = if sent then h.unregister else h.unregister ++ (c ∷ [])
  some (record h { objects = write_object c client h.objects; unregister = queue })

unfoldable pub deliver_all : Message → Map ℕ Bool → Hub → Option Hub
deliver_all message [] h = some h
deliver_all message ((c, b) ∷ subs) h = do h1 ← deliver message c h; deliver_all message subs h1

-- `content` is the marshalled data, `none` when the data cannot be marshalled. The subscribers are
-- read under the lock, and the sends follow without it.
unfoldable pub broadcast_to_topic : String → String → Option String → ℕ → Hub → Option Hub
broadcast_to_topic topic kind none now h = some h
broadcast_to_topic topic kind (some content) now h =
    deliver_all (record { topic = topic; kind = kind; content = content; timestamp = now })
      (subscribers topic h.topic_subs) h

unfoldable pub send_to_user : String → String → String → Option String → ℕ → Hub → Option Hub
send_to_user user topic kind data_text now h = elim (lookup user h.user_index) [
  | none ↦ some h
  | some c ↦ elim data_text [
    | none ↦ some h
    | some content ↦
        deliver (record { topic = topic; kind = kind; content = content; timestamp = now }) c h
  ]
]

pub record HubStats : Type 0 where
  pub total_clients : ℕ
  pub topic_sub_counts : Map String ℕ
  pub authenticated : ℕ

unfoldable pub stats : Hub → HubStats
stats h = record {
  total_clients = length h.clients;
  topic_sub_counts = map (λ (e : String × Map ℕ Bool). (e.0, length e.1)) h.topic_subs;
  authenticated = length h.user_index;
}

-- handler.go: a new connection is queued for the event loop.
unfoldable pub handle_upgrade : ℕ → String → Hub → Hub
handle_upgrade c address h = record h {
  objects =
      write_object c (record { send = []; closed = false; topics = []; user_address = address })
        h.objects;
  queued_clients = h.queued_clients ++ (c ∷ []);
}

pub record ClientCommand : Type 0 where
  pub action : String
  pub topic : String

unfoldable pub is_valid_topic : String → Bool
is_valid_topic t =
    (t == "prices") || (t == "positions") || (t == "notifications") || (t == "markets")

-- The acknowledgement is dropped when the buffer is full.
unfoldable pub send_ack : ℕ → String → String → ℕ → Hub → Option Hub
send_ack c action topic now h = do
  (sent, client) ←
      offer (record { topic = topic; kind = action; content = "{}"; timestamp = now }) (h.objects c)
  some (record h { objects = write_object c client h.objects })

-- A message that `readPump` reads; `none` is one that is not a command. The subscription holds the
-- lock, the acknowledgement after it does not.
unfoldable pub handle_command : ℕ → Option ClientCommand → ℕ → Hub → Option Hub
handle_command c none now h = some h
handle_command c (some cmd) now h =
    if cmd.action == "subscribe"
    then (if is_valid_topic cmd.topic
        then send_ack c "subscribed" cmd.topic now (subscribe c cmd.topic h)
        else some h)
    else if cmd.action == "unsubscribe"
    then send_ack c "unsubscribed" cmd.topic now (unsubscribe c cmd.topic h)
    else some h

-- `readPump` ends: the client is queued to be unregistered.
unfoldable pub hang_up : ℕ → Hub → Hub
hang_up c h = record h { unregister = h.unregister ++ (c ∷ []) }
