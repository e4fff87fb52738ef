-- ===== src/Websocket/Reached.antt =====
-- internal/api/websocket/hub.go and handler.go: the hubs that runs without a panic reach.
use defi_demo.Base.{
  ℕ, ◌≡◌, refl, ap, sym, subst, ◌∙◌, Bool, true, none, some, [], ◌∷◌, String, nat_eq, string_eq,
  arith, inl, inr, Option-cases,
}
use mathlib.Core.Option.{some-injective, none-ne-some}
use defi_demo.Base.Assoc.{Map, lookup}
use defi_demo.Websocket.{
  subscribe, unsubscribe, send_ack, deliver, remove_client, Message, Client, Hub, write_object,
  Step, take_register, take_unregister, new_hub, is_some, handle_upgrade, deliver_all, hang_up,
}
use defi_demo.Websocket.Delivery.{deliver_open, after_delivery}
use defi_demo.Websocket.Sound.{write_object-SameObjects, IsSound}
use defi_demo.Websocket.Joined.{IsFresh, handle_upgrade-IsSound, add_client-IsSound}
use defi_demo.Websocket.Left.{remove_client-IsSound}
use defi_demo.Websocket.Sent.{
  hang_up-IsSound, keep_topics, deliver-IsSound, deliver_closed, subscribe-IsSound,
  unsubscribe-IsSound,
}
use defi_demo.Websocket.Clients.{remove_client-closed}
use defi_demo.Websocket.Pump.{pump, write_pump, pump-closed}
use defi_demo.Websocket.Answered.{send_ack-IsSound}

new_hub-IsSound : (objects : ℕ → Client) → IsSound (new_hub objects)
unfolding lookup
new_hub-IsSound objects = record {
  clients_open = λ c k. ground arith;
  waiting = tt;
  once = tt;
  indexed = λ user c e. absurd (none-ne-some c e);
  distinct = tt;
}

Step-IsSound : (h after : Hub) → Step h after → IsSound h → IsSound after
Step-IsSound h after (take_register c cs queued) v = add_client-IsSound c cs h v queued
Step-IsSound h after (take_unregister c cs leaving) v =
    remove_client-IsSound c (record h { unregister = cs })
      (record {
        clients_open = v.clients_open;
        waiting = v.waiting;
        once = v.once;
        indexed = v.indexed;
        distinct = v.distinct;
      })

write_pump-IsSound :
    (opens closes : Bool) (c : ℕ) (h : Hub) → IsSound h → IsSound (write_pump opens closes c h).1
unfolding write_pump
write_pump-IsSound opens closes c h v =
    let client = (pump opens closes (h.objects c)).1 in
    let (closed, address) = pump-closed opens closes (h.objects c) in
    keep_topics h (write_object c client h.objects) h.unregister v
      (write_object-SameObjects c client h.objects closed address)

-- The hubs that are reached from a new hub when goroutines interleave. A step is a section that holds
-- the hub's lock, a single send, or an operation on a channel: BroadcastToTopic and SendToUser let
-- the lock go before they send, so their sends are steps of their own, of any message to any client
-- at any time, and so is the acknowledgement after Subscribe and Unsubscribe. A panic ends the
-- program, so only sends that return are steps.
pub data Reached (objects : ℕ → Client) : Hub → Type 0 where
  started : Reached objects (new_hub objects)
  upgraded :
      (c : ℕ) (address : String) (h : Hub)
      → Reached objects h
      → IsFresh c h
      → Reached objects (handle_upgrade c address h)
  looped : (h after : Hub) → Reached objects h → Step h after → Reached objects after
  subscribed :
      (c : ℕ) (topic : String) (h : Hub) → Reached objects h → Reached objects (subscribe c topic h)
  unsubscribed :
      (c : ℕ) (topic : String) (h : Hub)
      → Reached objects h
      → Reached objects (unsubscribe c topic h)
  acknowledged :
      (c : ℕ) (action topic : String) (now : ℕ) (h after : Hub)
      → Reached objects h
      → send_ack c action topic now h ≡ some after
      → Reached objects after
  hung_up : (c : ℕ) (h : Hub) → Reached objects h → Reached objects (hang_up c h)
  written :
      (opens closes : Bool) (c : ℕ) (h : Hub)
      → Reached objects h
      → Reached objects (write_pump opens closes c h).1
  sent :
      (message : Message) (c : ℕ) (h after : Hub)
      → Reached objects h
      → deliver message c h ≡ some after
      → Reached objects after

pub Reached-IsSound : (objects : ℕ → Client) (h : Hub) → Reached objects h → IsSound h
Reached-IsSound objects _ started = new_hub-IsSound objects
Reached-IsSound objects _ (upgraded c address h r fresh) =
    handle_upgrade-IsSound c address h fresh (Reached-IsSound objects h r)
Reached-IsSound objects _ (looped h after r s) =
    Step-IsSound h after s (Reached-IsSound objects h r)
Reached-IsSound objects _ (subscribed c topic h r) =
    subscribe-IsSound c topic h (Reached-IsSound objects h r)
Reached-IsSound objects _ (unsubscribed c topic h r) =
    unsubscribe-IsSound c topic h (Reached-IsSound objects h r)
Reached-IsSound objects _ (acknowledged c action topic now h after r e) =
    send_ack-IsSound c action topic now h after (Reached-IsSound objects h r) e
Reached-IsSound objects _ (hung_up c h r) = hang_up-IsSound c h (Reached-IsSound objects h r)
Reached-IsSound objects _ (written opens closes c h r) =
    write_pump-IsSound opens closes c h (Reached-IsSound objects h r)
Reached-IsSound objects _ (sent message c h after r e) =
    deliver-IsSound c h (Reached-IsSound objects h r) message after e

-- A broadcast that no other step interrupts is a run of these steps.
pub deliver_all-Reached :
    (objects : ℕ → Client) (message : Message) (subs : Map ℕ Bool) (h after : Hub)
    → Reached objects h
    → deliver_all message subs h ≡ some after
    → Reached objects after
unfolding deliver_all
deliver_all-Reached objects message [] h after r e =
    subst (Reached objects) (some-injective h after e) r
deliver_all-Reached objects message ((c, b) ∷ subs) h after r e =
    elim (Option-cases (deliver message c h)) [
      | inl panicked ↦ absurd (none-ne-some after (sym (rw panicked refl) ∙ e))
      | inr (h1, first) ↦
          deliver_all-Reached objects message subs h1 after (sent message c h h1 r first)
            (sym (rw first refl) ∙ e)
    ]

-- In every hub that is reached from a new one without a panic, in any interleaving of the sections
-- that hold the lock, the single sends and the rounds of the pumps, the registered and the waiting
-- clients have open channels and the index leads to registered clients of the address. A send to a
-- registered client returns and keeps this; when the client is removed before the send, which the
-- released lock allows, the send panics.
pub Reached-sends :
    (objects : ℕ → Client) (h : Hub) (c : ℕ) (message : Message)
    → Reached objects h
    → lookup c h.clients ≡ some true
    → IsSound h
      × ((after : Hub) × (deliver message c h ≡ some after) × IsSound after)
      × (deliver message c (remove_client c h) ≡ none)
Reached-sends objects h c message r known =
    let v = Reached-IsSound objects h r in
    let first = deliver_open message c h (v.clients_open c (ap is_some known)) in
    (
      v,
      (
        after_delivery message c h,
        first,
        deliver-IsSound c h v message (after_delivery message c h) first,
      ),
      deliver_closed message c (remove_client c h) (remove_client-closed c h known),
    )
