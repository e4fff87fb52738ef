-- ===== src/Examples/Alerts.antt =====
-- Notifications on two channels, and a flash-loan rule, on concrete values.
use defi_demo.Base.{
  ℕ, ◌+◌, ◌≡◌, refl, true, false, Option, none, some, [], ◌∷◌, String, arith, string_eq, All,
}
use mathlib.Core.List.{Mem, Memᴰ}
use defi_demo.Base.Assoc.{lookup}
use defi_demo.Base.Int.{ℤ, pos}
use defi_demo.Notification.{
  Status, pending, sent, throttled, Notification, send_failed, Times, Outside, Service, notify,
  notify_multi_channel, is_throttled, dispatch, deliver, throttle_key,
}
use defi_demo.Notification.Throttle.{notify_error, notify_again, notify_multi_channel_first}
use defi_demo.Risk.{Rule, flash_loan, warning, busy_event, threshold_text, flash_loan_events}
use defi_demo.Risk.Flash.{RaisedBy, flash_loan_events_sound, flash_loan_events_complete}

-- A store that counts the rows.
abbrev outside : Outside
outside = record {
  World = ℕ;
  save = λ (n : Notification) (w : ℕ). (some w, w + 1);
  update_status = λ (i : ℕ) (s : Status) (w : ℕ). w;
}

abbrev service : Service outside
service = record {
  senders =
      ("email", λ (n : Notification) (w : ℕ). (true, w))
      ∷ ("sms", λ (n : Notification) (w : ℕ). (false, w))
      ∷ [];
  last_sent = [];
  cooldown = 60;
  world = 1;
}

abbrev note : String → Notification
note channel = record {
  id = 0;
  user_address = "0xa";
  kind = "alert";
  channel = channel;
  title = "";
  content = "";
  details = [];
  status = pending;
  created_at = 0;
  sent_at = none;
}

abbrev at : ℕ → Times
at t = record { checked = t; created = t; finished = t; recorded = t }

is_sent : (notify outside (at 10) service (note "email")).note.status ≡ sent
unfolding notify is_throttled dispatch deliver lookup throttle_key
is_sent = refl

is_error : (notify outside (at 10) service (note "sms")).error ≡ some send_failed
unfolding notify is_throttled dispatch deliver lookup throttle_key
is_error = refl

notify_error_example : (notify outside (at 10) service (note "sms")).service.last_sent ≡ []
notify_error_example = notify_error outside (at 10) service (note "sms") send_failed is_error

notify_again_example :
    (let after = (notify outside (at 10) service (note "email")).service in
      notify outside (at 30) after (note "sms")
      ≡ record { error = none; note = record (note "sms") { status = throttled }; service = after })
notify_again_example =
    notify_again outside (at 10) (at 30) service (note "email") (note "sms") is_sent refl refl
      (omega arith)

notify_multi_channel_first_example :
    notify_multi_channel outside (("email", at 10) ∷ ("sms", at 20) ∷ []) service (note "push")
    ≡ (notify outside (at 10) service (note "email")).service
notify_multi_channel_first_example =
    notify_multi_channel_first outside "email" (at 10) (("sms", at 20) ∷ []) service (note "push")
      is_sent (omega arith, tt)

abbrev rule : Rule
rule = record {
  id = 3;
  rule_type = flash_loan;
  name = "flash";
  enabled = true;
  severity = warning;
  params = ("min_ops_per_block", "4") ∷ [];
}

abbrev atoi : String → Option ℤ
atoi text = some (pos 4)

flash_loan_events_sound_example :
    All
      (RaisedBy atoi 12 1 (("0xa", pos 5) ∷ ("0xb", pos 1) ∷ []) (rule ∷ []))
      (flash_loan_events atoi 1 12 (("0xa", pos 5) ∷ ("0xb", pos 1) ∷ []) (rule ∷ []))
flash_loan_events_sound_example =
    flash_loan_events_sound atoi 12 1 (("0xa", pos 5) ∷ ("0xb", pos 1) ∷ []) (rule ∷ [])

flash_loan_events_complete_example :
    Mem
      (busy_event rule 1 12 "0xa" (pos 5))
      (flash_loan_events atoi 1 12 (("0xb", pos 1) ∷ ("0xa", pos 5) ∷ []) (rule ∷ []))
unfolding threshold_text lookup
flash_loan_events_complete_example =
    flash_loan_events_complete atoi 12 1 (("0xb", pos 1) ∷ ("0xa", pos 5) ∷ []) (rule ∷ []) rule "4"
      (pos 4) "0xa" (pos 5) (Memᴰ.head refl) refl refl (Memᴰ.tail (Memᴰ.head refl)) refl
