-- ===== src/Notification.antt =====
-- internal/notification: notifications with a cooldown for each type and user.
-- The store and the channels' senders stand for the outside world, whose state `World` they change.
pub mod Throttle
use Prim.Native.String.{◌++◌ as append_string}
use defi_demo.Base.{
  ℕ, ◌+◌, Bool, true, false, Option, none, some, List, [], ◌∷◌, String, string_eq, if◌then◌else◌,
  ltb,
}
use defi_demo.Base.Assoc.{Map, lookup, insert}

pub data Status : Type 0 where
  pending sent failed throttled : Status

-- Types and channels are texts; `details` is the code's Data. `sent_at` is `none` for nil.
pub record Notification : Type 0 where
  pub id : ℕ
  pub user_address : String
  pub kind : String
  pub channel : String
  pub title : String
  pub content : String
  pub details : Map String String
  pub status : Status
  pub created_at : ℕ
  pub sent_at : Option ℕ

pub data NotifyError : Type 0 where
  save_failed no_sender send_failed : NotifyError

-- What one call of Notify reads from the clock, in order.
pub record Times : Type 0 where
  pub checked : ℕ
  pub created : ℕ
  pub finished : ℕ
  pub recorded : ℕ

-- `save` gives the id of the new row, or `none` for an error; the result of an update is ignored.
pub record Outside : Type 1 where
  pub World : Type 0
  pub save : Notification → World → Option ℕ × World
  pub update_status : ℕ → Status → World → World

unfoldable pub throttle_key : Notification → String
throttle_key n = append_string n.kind (append_string ":" n.user_address)

module _ (out : Outside) where
  open out use {World, save, update_status}

  -- A sender delivers through one channel.
  abbrev pub Sender : Type 0
  Sender = Notification → World → Bool × World

  pub record Service : Type 0 where
    pub senders : Map String Sender
    pub last_sent : Map String ℕ
    pub cooldown : ℕ
    pub world : World

  -- The senders by their channels, of two senders of a channel the later one.
  unfoldable pub add_senders : List (String × Sender) → Map String Sender → Map String Sender
  add_senders [] m = m
  add_senders ((channel, sender) ∷ senders) m = add_senders senders (insert channel sender m)

  unfoldable pub new_service : List (String × Sender) → ℕ → World → Service
  new_service senders cooldown w = record {
    senders = add_senders senders [];
    last_sent = [];
    cooldown = cooldown;
    world = w;
  }

  -- The error, the notification as the caller sees it afterwards, and the service.
  pub record Outcome : Type 0 where
    pub error : Option NotifyError
    pub note : Notification
    pub service : Service

  -- `time.Since(lastTime) < s.cooldown`, with the subtraction on the other side.
  unfoldable pub is_throttled : ℕ → Service → Notification → Bool
  is_throttled now s n = elim (lookup (throttle_key n) s.last_sent) [
    | none ↦ false
    | some last ↦ ltb now (last + s.cooldown)
  ]

  unfoldable pub record_sent : ℕ → Service → Notification → Service
  record_sent now s n = record s { last_sent = insert (throttle_key n) now s.last_sent }

  abbrev fail : NotifyError → Notification → Service → World → Outcome
  fail e n s w = record { error = some e; note = n; service = record s { world = w } }

  -- `sender.Send` and what follows.
  unfoldable pub deliver : Times → Sender → Notification → Service → Outcome
  deliver t send n s =
      let (done, w) = send n s.world in
      if done
      then (let n' = record n { status = sent; sent_at = some t.finished } in
          record {
            error = none;
            note = n';
            service = record_sent t.recorded (record s { world = update_status n.id sent w }) n';
          })
      else fail send_failed n s (update_status n.id failed w)

  -- From the lookup of the sender on.
  unfoldable pub dispatch : Times → Notification → Service → Outcome
  dispatch t n s = elim (lookup n.channel s.senders) [
    | none ↦ fail no_sender n s (update_status n.id failed s.world)
    | some send ↦ deliver t send n s
  ]

  unfoldable pub notify : Times → Service → Notification → Outcome
  notify t s n =
      if is_throttled t.checked s n
      then record { error = none; note = record n { status = throttled }; service = s }
      else (let n1 = record n { status = pending; created_at = t.created } in
          let (saved, w) = save n1 s.world in
          elim saved [
            | none ↦ fail save_failed n1 s w
            | some id ↦ dispatch t (record n1 { id = id }) (record s { world = w })
          ])

  -- One copy of the notification for each channel; errors are only logged. Each call has its times.
  unfoldable pub notify_multi_channel : List (String × Times) → Service → Notification → Service
  notify_multi_channel [] s n = s
  notify_multi_channel ((ch, t) ∷ channels) s n =
      notify_multi_channel channels (notify t s (record n { channel = ch })).service n
