-- ===== src/Websocket/Delivery.antt =====
-- internal/api/websocket/hub.go: broadcasts.
use defi_demo.Base.{
  ℕ, ◌≡◌, refl, subst, ◌∙◌, sym, Bool, false, none, some, List, [], ◌∷◌, ◌++◌, String, nat_eq,
  string_eq, ◌==◌, if◌then◌else◌, arith, inl, inr, Bool-cases, ltb, length, All, All-map,
}
use mathlib.Core.List.{append_assoc, append-nil}
use defi_demo.Base.Assoc.{Map, lookup, Distinct, beq_refl}
use defi_demo.Websocket.{
  Message, Client, Hub, is_some, write_object, offer, deliver, deliver_all, broadcast_to_topic,
  subscribers, send_buffer_size,
}

abbrev pub has_room : Client → Bool
has_room client = ltb (length client.send) send_buffer_size

-- The client with the message at the end of its buffer, when there is room.
abbrev pub received : Message → Client → Client
received message client =
    if has_room client then record client { send = client.send ++ (message ∷ []) } else client

-- The subscribers whose buffers are full.
unfoldable pub full_ones : (ℕ → Client) → Map ℕ Bool → List ℕ
full_ones objects [] = []
full_ones objects ((c, b) ∷ subs) =
    let rest = full_ones objects subs in if has_room (objects c) then rest else c ∷ rest

abbrev pub AllOpen : (ℕ → Client) → Map ℕ Bool → Type 0
AllOpen objects = All (λ (e : ℕ × Bool). (objects e.0).closed ≡ false)

-- The hub after a delivery to an open client.
abbrev pub after_delivery : Message → ℕ → Hub → Hub
after_delivery message c h = record h {
  objects = write_object c (received message (h.objects c)) h.objects;
  unregister = if has_room (h.objects c) then h.unregister else h.unregister ++ (c ∷ []);
}

pub offer_open :
    (message : Message) (client : Client)
    → client.closed ≡ false
    → offer message client ≡ some (has_room client, received message client)
unfolding offer
offer_open message client opened = elim (Bool-cases (has_room client)) [
  | inl room ↦ rw (opened, room) refl
  | inr full ↦ rw (opened, full) refl
]

pub deliver_open :
    (message : Message) (c : ℕ) (h : Hub)
    → (h.objects c).closed ≡ false
    → deliver message c h ≡ some (after_delivery message c h)
unfolding deliver
deliver_open message c h opened = rw (deliver, offer_open message (h.objects c) opened) refl

pub received-closed :
    (message : Message) (client : Client) → (received message client).closed ≡ client.closed
received-closed message client = elim (Bool-cases (has_room client)) [
  | inl room ↦ rw room refl
  | inr full ↦ rw full refl
]

write_object-closed :
    (c d : ℕ) (client : Client) (objects : ℕ → Client)
    → client.closed ≡ false
    → (objects d).closed ≡ false
    → (write_object c client objects d).closed ≡ false
write_object-closed c d client objects h k = elim (Bool-cases (c == d)) [
  | inl same ↦ rw same h
  | inr other ↦ rw other k
]

absent_rest :
    (c d : ℕ) (b : Bool) (subs : Map ℕ Bool)
    → lookup c ((d, b) ∷ subs) ≡ none
    → ((c == d) ≡ false) × (lookup c subs ≡ none)
unfolding lookup
absent_rest c d b subs h = ground arith

full_ones-other :
    (c : ℕ) (client : Client) (objects : ℕ → Client) (subs : Map ℕ Bool)
    → lookup c subs ≡ none
    → full_ones (write_object c client objects) subs ≡ full_ones objects subs
unfolding full_ones
full_ones-other c client objects [] h = refl
full_ones-other c client objects ((d, b) ∷ subs) h =
    let (other, absent) = absent_rest c d b subs h in
    rw (other, full_ones-other c client objects subs absent) refl

receives-nil :
    (message : Message) (d : ℕ) (objects : ℕ → Client)
    → objects d ≡ (
        if is_some (lookup {K = ℕ} {V = Bool} d [])
        then received message (objects d)
        else objects d)
unfolding lookup
receives-nil message d objects = refl

-- What the client at the head of the subscribers adds to what the others get.
receives-cons :
    (message : Message) (c d : ℕ) (b : Bool) (subs : Map ℕ Bool) (objects : ℕ → Client)
    → lookup c subs ≡ none
    → (let o1 = write_object c (received message (objects c)) objects in
        (if is_some (lookup d subs) then received message (o1 d) else o1 d)
        ≡ (if is_some (lookup d ((c, b) ∷ subs)) then received message (objects d) else objects d))
unfolding lookup
receives-cons message c d b subs objects absent = elim (Bool-cases (c == d)) [
  | inl same ↦
      let e = (nat_eq.beq_iff c d).0 same in
      subst
        (λ (x : ℕ).
          (let o1 = write_object c (received message (objects c)) objects in
            (if is_some (lookup x subs) then received message (o1 x) else o1 x) ≡ (
              if is_some (lookup x ((c, b) ∷ subs))
              then received message (objects x)
              else objects x)))
        e (rw (absent, beq_refl c) refl)
  | inr other ↦ rw other refl
]

queued-cons :
    (c : ℕ) (objects : ℕ → Client) (queue rest : List ℕ)
    → (if has_room (objects c) then queue else queue ++ (c ∷ [])) ++ rest
      ≡ queue ++ (if has_room (objects c) then rest else c ∷ rest)
queued-cons c objects queue rest = elim (Bool-cases (has_room (objects c))) [
  | inl room ↦ rw room refl
  | inr full ↦ rw full (append_assoc queue (c ∷ []) rest)
]

pub opened_after :
    (message : Message) (c : ℕ) (subs : Map ℕ Bool) (objects : ℕ → Client)
    → (objects c).closed ≡ false
    → AllOpen objects subs
    → AllOpen (write_object c (received message (objects c)) objects) subs
opened_after message c subs objects h =
    All-map (λ (e : ℕ × Bool). (objects e.0).closed ≡ false) _
      (λ (e : ℕ × Bool) (k : (objects e.0).closed ≡ false).
        write_object-closed c e.0 (received message (objects c)) objects
          (received-closed message (objects c) ∙ h) k)
      subs

deliver_all_lem :
    (message : Message) (subs : Map ℕ Bool) (d : ℕ) (h : Hub)
    → Distinct subs
    → AllOpen h.objects subs
    → (after : Hub) × (deliver_all message subs h ≡ some after)
      × (after.objects d
          ≡ (if is_some (lookup d subs) then received message (h.objects d) else h.objects d))
      × (after.unregister ≡ h.unregister ++ full_ones h.objects subs)
      × (after.clients ≡ h.clients)
      × (after.topic_subs ≡ h.topic_subs)
      × (after.user_index ≡ h.user_index)
unfolding deliver_all full_ones
deliver_all_lem message [] d h distinct opened =
    (h, refl, receives-nil message d h.objects, sym (append-nil h.unregister), refl, refl, refl)
deliver_all_lem message ((c, b) ∷ subs) d h distinct opened =
    let stays = opened_after message c subs h.objects opened.0 opened.1 in
    let (after, e, o, u, cs, ts, us) =
      deliver_all_lem message subs d (after_delivery message c h) distinct.1 stays in
    (
      after,
      rw (deliver_open message c h opened.0) e,
      o ∙ receives-cons message c d b subs h.objects distinct.0,
      u
          ∙ rw (full_ones-other c (received message (h.objects c)) h.objects subs distinct.0)
              (queued-cons c h.objects h.unregister (full_ones h.objects subs)),
      cs,
      ts,
      us,
    )

-- A broadcast to a topic with distinct subscribers whose channels are open reaches exactly them: a
-- subscriber with room has the message last in its buffer, once, one without room is queued to be
-- unregistered, and every other client and the tables of the hub are as before.
pub broadcast_to_topic_lem :
    (topic kind content : String) (now d : ℕ) (h : Hub)
    → Distinct (subscribers topic h.topic_subs)
    → AllOpen h.objects (subscribers topic h.topic_subs)
    → (let message : Message = record {
      topic = topic;
      kind = kind;
      content = content;
      timestamp = now;
    } in
        let subs = subscribers topic h.topic_subs in
        (after : Hub) × (broadcast_to_topic topic kind (some content) now h ≡ some after)
        × (after.objects d
            ≡ (if is_some (lookup d subs) then received message (h.objects d) else h.objects d))
        × (after.unregister ≡ h.unregister ++ full_ones h.objects subs)
        × (after.clients ≡ h.clients)
        × (after.topic_subs ≡ h.topic_subs)
        × (after.user_index ≡ h.user_index))
unfolding broadcast_to_topic
broadcast_to_topic_lem topic kind content now d h =
    deliver_all_lem (record { topic = topic; kind = kind; content = content; timestamp = now })
      (subscribers topic h.topic_subs) d h
