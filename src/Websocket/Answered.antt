-- ===== src/Websocket/Answered.antt =====
-- internal/api/websocket/hub.go and handler.go: acknowledgements in a sound hub.
use defi_demo.Base.{
  ℕ, ◌≡◌, refl, sym, subst, ◌∙◌, false, some, String, nat_eq, string_eq, inl, inr, Bool-cases,
}
use mathlib.Core.Option.{some-injective, none-ne-some}
use defi_demo.Websocket.{Message, Hub, send_ack}
use defi_demo.Websocket.Delivery.{offer_open}
use defi_demo.Websocket.Sound.{IsSound}
use defi_demo.Websocket.Sent.{after_ack, after_ack-IsSound, offer_closed}

-- An acknowledgement that is sent without a panic.
acknowledged :
    (c : ℕ) (action topic : String) (now : ℕ) (h after : Hub)
    → send_ack c action topic now h ≡ some after
    → (message : Message) × ((h.objects c).closed ≡ false) × (after_ack c h message ≡ after)
unfolding send_ack
acknowledged c action topic now h after e =
    let message : Message = record {
      topic = topic;
      kind = action;
      content = "{}";
      timestamp = now;
    } in
    elim (Bool-cases (h.objects c).closed) [
      | inl closed ↦ absurd (
          none-ne-some after
            (sym (rw (send_ack, offer_closed message (h.objects c) closed) refl) ∙ e))
      | inr opened ↦ (
        message,
        opened,
        some-injective (after_ack c h message) after
            (sym (rw (send_ack, offer_open message (h.objects c) opened) refl) ∙ e),
      )
    ]

pub send_ack-IsSound :
    (c : ℕ) (action topic : String) (now : ℕ) (h after : Hub)
    → IsSound h
    → send_ack c action topic now h ≡ some after
    → IsSound after
send_ack-IsSound c action topic now h after v e =
    let (message, opened, same) = acknowledged c action topic now h after e in
    subst IsSound same (after_ack-IsSound c h v message)
