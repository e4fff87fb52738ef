-- ===== src/Websocket/Sent.antt =====
-- internal/api/websocket/hub.go and handler.go: subscriptions and messages in a sound hub.
use defi_demo.Base.{
  ℕ, ◌≡◌, refl, sym, subst, ◌∙◌, Bool, true, false, none, some, List, [], ◌∷◌, ◌++◌, String, nat_eq,
  string_eq, inl, inr, Bool-cases, Option-cases,
}
use mathlib.Core.Option.{some-injective, none-ne-some}
use defi_demo.Base.Assoc.{Map, lookup, insert, erase, Distinct, insert-Distinct}
use defi_demo.Websocket.{
  Message, Client, Hub, write_object, subscribe, unsubscribe, subscribers, offer, deliver, hang_up,
}
use defi_demo.Websocket.Delivery.{has_room, received, deliver_open, received-closed, after_delivery}
use defi_demo.Websocket.Topics.{unsubscribe_known, unsubscribe_unknown}
use defi_demo.Websocket.Sound.{
  IsSound, SameObjects, write_object-SameObjects, changed, changed-IsSound,
}

-- The topics are left as they are.
pub keep_topics :
    (h : Hub) (objects : ℕ → Client) (leaving : List ℕ)
    → IsSound h
    → SameObjects h.objects objects
    → IsSound (changed h objects h.topic_subs leaving)
keep_topics h objects leaving v same =
    changed-IsSound h objects h.topic_subs leaving v same v.distinct

module _ (c : ℕ) (topic : String) (h : Hub) (v : IsSound h) where
  pub subscribe-SameObjects : SameObjects h.objects (subscribe c topic h).objects
  unfolding subscribe
  subscribe-SameObjects =
      write_object-SameObjects c
        (record (h.objects c) { topics = insert topic true (h.objects c).topics }) h.objects refl
        refl

  pub subscribe-IsSound : IsSound (subscribe c topic h)
  unfolding subscribe
  subscribe-IsSound =
      changed-IsSound h (subscribe c topic h).objects (subscribe c topic h).topic_subs h.unregister
        v subscribe-SameObjects
        (insert-Distinct topic (insert c true (subscribers topic h.topic_subs)) h.topic_subs
          v.distinct)

  unsubscribe-Distinct : Distinct (unsubscribe c topic h).topic_subs
  unsubscribe-Distinct = elim (Option-cases (lookup topic h.topic_subs)) [
    | inl absent ↦
        subst (λ (m : Map String (Map ℕ Bool)). Distinct m)
          (sym (unsubscribe_unknown c topic h absent)) v.distinct
    | inr (subs, e) ↦
        subst (λ (m : Map String (Map ℕ Bool)). Distinct m)
          (sym (unsubscribe_known c topic subs h e))
          (insert-Distinct topic (erase c subs) h.topic_subs v.distinct)
  ]

  unsubscribe-SameObjects : SameObjects h.objects (unsubscribe c topic h).objects
  unfolding unsubscribe
  unsubscribe-SameObjects =
      write_object-SameObjects c
        (record (h.objects c) { topics = erase topic (h.objects c).topics }) h.objects refl refl

  pub unsubscribe-IsSound : IsSound (unsubscribe c topic h)
  unfolding unsubscribe
  unsubscribe-IsSound =
      changed-IsSound h (unsubscribe c topic h).objects (unsubscribe c topic h).topic_subs
        h.unregister v unsubscribe-SameObjects unsubscribe-Distinct

received-address :
    (message : Message) (client : Client)
    → (received message client).user_address ≡ client.user_address
received-address message client = elim (Bool-cases (has_room client)) [
  | inl room ↦ rw room refl
  | inr full ↦ rw full refl
]

pub offer_closed :
    (message : Message) (client : Client) → client.closed ≡ true → offer message client ≡ none
unfolding offer
offer_closed message client closed = rw (offer, closed) refl

pub deliver_closed :
    (message : Message) (c : ℕ) (h : Hub) → (h.objects c).closed ≡ true → deliver message c h ≡ none
unfolding deliver
deliver_closed message c h closed = rw (deliver, offer_closed message (h.objects c) closed) refl

-- A message that is delivered without a panic finds an open channel.
delivered :
    (message : Message) (c : ℕ) (h after : Hub)
    → deliver message c h ≡ some after
    → ((h.objects c).closed ≡ false) × (after_delivery message c h ≡ after)
delivered message c h after e = elim (Bool-cases (h.objects c).closed) [
  | inl closed ↦ absurd (none-ne-some after (sym (deliver_closed message c h closed) ∙ e))
  | inr opened ↦ (
    opened,
    some-injective (after_delivery message c h) after (sym (deliver_open message c h opened) ∙ e),
  )
]

-- The hub after an acknowledgement to an open client.
abbrev pub after_ack : ℕ → Hub → Message → Hub
after_ack c h message = record h {
  objects = write_object c (received message (h.objects c)) h.objects;
}

module _ (c : ℕ) (h : Hub) (v : IsSound h) where
  pub hang_up-IsSound : IsSound (hang_up c h)
  unfolding hang_up
  hang_up-IsSound = keep_topics h h.objects (h.unregister ++ (c ∷ [])) v (λ d. (refl, refl))

  after_delivery-IsSound : (message : Message) → IsSound (after_delivery message c h)
  after_delivery-IsSound message =
      keep_topics h (write_object c (received message (h.objects c)) h.objects) _ v (
        write_object-SameObjects c (received message (h.objects c)) h.objects
          (received-closed message (h.objects c)) (received-address message (h.objects c)))

  pub deliver-IsSound :
      (message : Message) (after : Hub) → deliver message c h ≡ some after → IsSound after
  deliver-IsSound message after e =
      subst IsSound (delivered message c h after e).1 (after_delivery-IsSound message)

  pub after_ack-IsSound : (message : Message) → IsSound (after_ack c h message)
  after_ack-IsSound message =
      keep_topics h (write_object c (received message (h.objects c)) h.objects) h.unregister v (
        write_object-SameObjects c (received message (h.objects c)) h.objects
          (received-closed message (h.objects c)) (received-address message (h.objects c)))
