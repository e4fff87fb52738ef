-- ===== src/Websocket/Pump.antt =====
-- internal/api/websocket/handler.go: writePump, which writes a client's buffer to its connection.
-- A frame is the list of its messages. Deadlines and pings are not modelled.
use defi_demo.Base.{
  ℕ, zero, suc, ◌≤◌, ◌≡◌, refl, ap, sym, ◌∙◌, Bool, true, false, Option, some, List, [], ◌∷◌, ◌++◌,
  nat_eq, ◌>>=◌, if◌then◌else◌, arith, inl, inr, Bool-cases, length, String, length-append,
}
use mathlib.Core.List.{append_assoc, append-nil}
use defi_demo.Base.Assoc.{Map}
use defi_demo.Websocket.{Message, Client, Hub, write_object, offer, send_buffer_size}
use defi_demo.Websocket.Delivery.{has_room}

-- What a round of the pump does: a frame, the close message, an end at an error, or a wait.
pub data Pumped : Type 0 where
  wrote : List Message → Pumped
  said_close : Pumped
  failed : Pumped
  waits : Pumped

-- `for i := 0; i < n; i++ { w.Write(<-c.send) }`: the messages received, and those that are left.
unfoldable pub batch : ℕ → List Message → List Message × List Message
batch zero queued = ([], queued)
batch (suc n) [] = ([], [])
batch (suc n) (message ∷ queued) = let rest = batch n queued in (message ∷ rest.0, rest.1)

-- `opens` and `closes` say whether the frame's writer opens and closes without an error.
unfoldable pub pump : Bool → Bool → Client → Pumped × Client
pump opens closes client = elim client.send [
  | [] ↦ (if client.closed then said_close else waits, client)
  | message ∷ queued ↦
      let batched = batch (length queued) queued in
      if opens
      then (
        if closes then wrote (message ∷ batched.0) else failed,
        record client { send = batched.1 },
      )
      else (failed, record client { send = queued })
]

unfoldable pub write_pump : Bool → Bool → ℕ → Hub → Pumped × Hub
write_pump opens closes c h =
    let round = pump opens closes (h.objects c) in
    (round.0, record h { objects = write_object c round.1 h.objects })

batch_all : (queued : List Message) → batch (length queued) queued ≡ (queued, [])
unfolding batch
batch_all [] = refl
batch_all (message ∷ queued) = rw (batch_all queued) refl

same_from :
    (opens closes : Bool) (send : List Message) (closed : Bool) (topics : Map String Bool)
    (address : String)
    → (let client : Client = record {
      send = send;
      closed = closed;
      topics = topics;
      user_address = address;
    } in
        ((pump opens closes client).1.closed ≡ closed)
        × ((pump opens closes client).1.user_address ≡ address))
unfolding pump
same_from opens closes [] closed topics address = (refl, refl)
same_from true closes (message ∷ queued) closed topics address = (refl, refl)
same_from false closes (message ∷ queued) closed topics address = (refl, refl)

-- A round of the pump, also one that ends at an error, leaves the channel open or closed as it was.
pub pump-closed :
    (opens closes : Bool) (client : Client)
    → ((pump opens closes client).1.closed ≡ client.closed)
      × ((pump opens closes client).1.user_address ≡ client.user_address)
pump-closed opens closes client =
    same_from opens closes client.send client.closed client.topics client.user_address

-- What happens at the channel of a client: a message is offered, or the pump has a round without
-- an error.
pub data Talk : Type 0 where
  offered : Message → Talk
  pumped : Talk

abbrev pub frame_of : Pumped → List Message
frame_of (wrote messages) = messages
frame_of said_close = []
frame_of failed = []
frame_of waits = []

-- The messages that the channel accepted, those that the frames carry, and the client at the end.
unfoldable pub talk : List Talk → Client → Option (List Message × List Message × Client)
talk [] client = some ([], [], client)
talk (offered message ∷ calls) client = do
  (sent, client1) ← offer message client
  (accepted, written, after) ← talk calls client1
  some (if sent then message ∷ accepted else accepted, written, after)
talk (pumped ∷ calls) client = do
  let round = pump true true client
  (accepted, written, after) ← talk calls round.1
  some (accepted, frame_of round.0 ++ written, after)

-- After a round, the frame and the buffer are the buffer before.
abbrev IsRound : Client → Type 0
IsRound client =
    let round = pump true true client in
    (frame_of round.0 ++ round.1.send ≡ client.send)
    × (round.1.closed ≡ client.closed)
    × (length round.1.send ≤ length client.send)

pump_from :
    (send : List Message) (closed : Bool) (topics : Map String Bool) (address : String)
    → IsRound (record { send = send; closed = closed; topics = topics; user_address = address })
unfolding pump
pump_from [] true topics address = (refl, refl, omega arith)
pump_from [] false topics address = (refl, refl, omega arith)
pump_from (message ∷ queued) closed topics address =
    let e = batch_all queued in
    (
      ap (λ (b : List Message × List Message). message ∷ (b.0 ++ b.1)) e
          ∙ ap (◌∷◌ message) (append-nil queued),
      refl,
      ground (arith, ap (λ (b : List Message × List Message). length b.1) e),
    )

pump-IsRound : (client : Client) → IsRound client
pump-IsRound client = pump_from client.send client.closed client.topics client.user_address

offered_open :
    (message : Message) (client : Client)
    → client.closed ≡ false
    → length client.send ≤ send_buffer_size
    → (sent : Bool) × (client1 : Client) × (offer message client ≡ some (sent, client1))
      × (client1.closed ≡ false)
      × (length client1.send ≤ send_buffer_size)
      × ((accepted : List Message)
          → client1.send ++ accepted
            ≡ client.send ++ (if sent then message ∷ accepted else accepted))
unfolding offer
offered_open message client opened bound = elim (Bool-cases (has_room client)) [
  | inl room ↦ (
    true,
    record client { send = client.send ++ (message ∷ []) },
    rw (offer, opened, room) refl,
    opened,
    ground (arith, length-append client.send (message ∷ []), room),
    λ accepted. append_assoc client.send (message ∷ []) accepted,
  )
  | inr full ↦ (false, client, rw (offer, opened, full) refl, opened, bound, λ accepted. refl)
]

-- While the channel of a client is open, its buffer holds at most 256 messages, and the rounds of
-- the pump write without an error, no offer panics, and the messages that were in the buffer
-- followed by those that were accepted are the messages of the frames followed by those left in the
-- buffer, in this order, each once; the buffer stays within 256.
pub talk_lem :
    (calls : List Talk) (client : Client)
    → client.closed ≡ false
    → length client.send ≤ send_buffer_size
    → (accepted written : List Message) × (after : Client) × (talk calls client
        ≡ some (accepted, written, after))
      × (client.send ++ accepted ≡ written ++ after.send)
      × (length after.send ≤ send_buffer_size)
unfolding talk
talk_lem [] client opened bound = ([], [], client, refl, append-nil client.send, bound)
talk_lem (offered message ∷ calls) client opened bound =
    let (sent, client1, e, opened1, bound1, keeps) = offered_open message client opened bound in
    let (accepted, written, after, run, same, last) = talk_lem calls client1 opened1 bound1 in
    (
      if sent then message ∷ accepted else accepted,
      written,
      after,
      rw (talk, e, run) refl,
      sym (keeps accepted) ∙ same,
      last,
    )
talk_lem (pumped ∷ calls) client opened bound =
    let (kept, closed, shorter) = pump-IsRound client in
    let round = pump true true client in
    let (accepted, written, after, run, same, last) =
      talk_lem calls round.1 (closed ∙ opened) (omega (arith, shorter, bound)) in
    (
      accepted,
      frame_of round.0 ++ written,
      after,
      rw (talk, run) refl,
      ap (λ (l : List Message). l ++ accepted) (sym kept)
          ∙ append_assoc (frame_of round.0) round.1.send accepted
          ∙ ap (λ (l : List Message). frame_of round.0 ++ l) same
          ∙ sym (append_assoc (frame_of round.0) written after.send),
      last,
    )
