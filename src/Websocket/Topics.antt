-- ===== src/Websocket/Topics.antt =====
-- internal/api/websocket/hub.go: subscriptions.
use defi_demo.Base.{
  ℕ, ◌≡◌, refl, Bool, true, false, none, some, [], String, nat_eq, string_eq, ◌==◌, if◌then◌else◌,
  arith, inl, inr, Bool-cases, Option-cases,
}
use defi_demo.Base.Assoc.{Map, lookup, insert, erase, lookup-insert, lookup-erase}
use defi_demo.Websocket.{Hub, is_some, subscribe, unsubscribe, subscribers}
use defi_demo.Websocket.Clients.{in_topic}

-- The subscribers of a topic after the subscribers of `topic` are replaced.
subscribers-insert :
    (topic t : String) (subs : Map ℕ Bool) (m : Map String (Map ℕ Bool))
    → subscribers t (insert topic subs m) ≡ (if topic == t then subs else subscribers t m)
subscribers-insert topic t subs m =
    rw (subscribers, lookup-insert topic t subs m)
      (elim (Bool-cases (topic == t)) [ inl same ↦ rw same refl | inr other ↦ rw other refl ])

-- Joining a topic adds this client to it and changes no other membership.
pub subscribe_lem :
    (c d : ℕ) (topic t : String) (h : Hub)
    → in_topic t d (subscribe c topic h).topic_subs ≡ (
        if topic == t
        then (if c == d then true else in_topic topic d h.topic_subs)
        else in_topic t d h.topic_subs)
unfolding subscribe
subscribe_lem c d topic t h = ground (
  arith,
  subscribers-insert topic t (insert c true (subscribers topic h.topic_subs)) h.topic_subs,
  lookup-insert c d true (subscribers topic h.topic_subs),
)

pub unsubscribe_unknown :
    (c : ℕ) (topic : String) (h : Hub)
    → lookup topic h.topic_subs ≡ none
    → (unsubscribe c topic h).topic_subs ≡ h.topic_subs
unfolding unsubscribe
unsubscribe_unknown c topic h e = rw (unsubscribe, e) refl

pub unsubscribe_known :
    (c : ℕ) (topic : String) (subs : Map ℕ Bool) (h : Hub)
    → lookup topic h.topic_subs ≡ some subs
    → (unsubscribe c topic h).topic_subs ≡ insert topic (erase c subs) h.topic_subs
unfolding unsubscribe
unsubscribe_known c topic subs h e = rw (unsubscribe, e) refl

subscribers-none :
    (topic : String) (m : Map String (Map ℕ Bool))
    → lookup topic m ≡ none
    → subscribers topic m ≡ []
subscribers-none topic m e = rw (subscribers, e) refl

subscribers-some :
    (topic : String) (subs : Map ℕ Bool) (m : Map String (Map ℕ Bool))
    → lookup topic m ≡ some subs
    → subscribers topic m ≡ subs
subscribers-some topic subs m e = rw (subscribers, e) refl

nowhere :
    (c d : ℕ)
    → is_some (lookup {K = ℕ} {V = Bool} d [])
      ≡ (if c == d then false else is_some (lookup {K = ℕ} {V = Bool} d []))
unfolding lookup
nowhere c d = ground arith

left_out :
    (c d : ℕ) (subs : Map ℕ Bool)
    → is_some (if c == d then none else lookup d subs)
      ≡ (if c == d then false else is_some (lookup d subs))
left_out c d subs = elim (Bool-cases (c == d)) [
  | inl same ↦ rw same refl
  | inr other ↦ rw other refl
]

-- Unsubscribing takes this client out of this topic and changes the membership of no other client
-- and no other topic, whether or not the topic has subscribers.
pub unsubscribe_lem :
    (c d : ℕ) (topic t : String) (h : Hub)
    → in_topic t d (unsubscribe c topic h).topic_subs ≡ (
        if topic == t
        then (if c == d then false else in_topic topic d h.topic_subs)
        else in_topic t d h.topic_subs)
unsubscribe_lem c d topic t h = elim (Option-cases (lookup topic h.topic_subs)) [
  | inl none_yet ↦ rw (unsubscribe_unknown c topic h none_yet) (elim (Bool-cases (topic == t)) [
    | inl same ↦
        let e = (string_eq.beq_iff topic t).0 same in
        rw (same, ← e, subscribers-none topic h.topic_subs none_yet) (nowhere c d)
    | inr other ↦ rw other refl
  ])
  | inr (subs, e) ↦
      rw
        (unsubscribe_known c topic subs h e, subscribers-insert topic t (erase c subs) h.topic_subs)
        (elim (Bool-cases (topic == t)) [
          | inl same ↦
              rw (same, subscribers-some topic subs h.topic_subs e, lookup-erase c d subs)
                (left_out c d subs)
          | inr other ↦ rw other refl
        ])
]
