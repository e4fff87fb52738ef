-- ===== src/Notification/Throttle.antt =====
-- internal/notification/service.go: the cooldown.
use defi_demo.Base.{
  ℕ, ◌+◌, ◌<◌, ◌≡◌, ◌≢◌, refl, true, none, some, List, [], ◌∷◌, String, string_eq, arith, All,
  Option-cases, Bool-cases, inl, inr, lt→ltb,
}
use defi_demo.Base.Assoc.{lookup, lookup-insert_self}
use defi_demo.Notification.{
  Notification, NotifyError, Times, Outside, Sender, Service, throttle_key, is_throttled,
  record_sent, deliver, dispatch, notify, notify_multi_channel, sent, throttled, pending,
}

module _ (out : Outside) where
  -- A call that reports an error leaves the cooldowns as they were: the next attempt is not
  -- suppressed by it.
  deliver_error :
      (t : Times) (send : Sender out) (n : Notification) (s : Service out) (e : NotifyError)
      → (deliver out t send n s).error ≡ some e
      → (deliver out t send n s).service.last_sent ≡ s.last_sent
  unfolding deliver
  deliver_error t send n s e h = ground arith

  dispatch_error :
      (t : Times) (n : Notification) (s : Service out) (e : NotifyError)
      → (dispatch out t n s).error ≡ some e
      → (dispatch out t n s).service.last_sent ≡ s.last_sent
  unfolding dispatch
  dispatch_error t n s e h = elim (Option-cases (lookup n.channel s.senders)) [
    | inl x ↦ rw (x, dispatch)
    | inr (send, x) ↦ rw (x, dispatch) (deliver_error t send n s e (rw (x, dispatch) at h))
  ]

  -- A call of Notify that returns an error leaves the times of the last deliveries as they were, so
  -- that it suppresses no later attempt.
  pub notify_error :
      (t : Times) (s : Service out) (n : Notification) (e : NotifyError)
      → (notify out t s n).error ≡ some e
      → (notify out t s n).service.last_sent ≡ s.last_sent
  unfolding notify
  notify_error t s n e h =
      let n1 = record n { status = pending; created_at = t.created } in
      let s1 = record s { world = (out.save n1 s.world).1 } in
      elim (Bool-cases (is_throttled out t.checked s n)) [
        | inl x ↦ rw (x, notify)
        | inr x ↦ elim (Option-cases (out.save n1 s.world).0) [
          | inl y ↦ rw (x, notify) (rw y)
          | inr (id, y) ↦
              rw (x, notify)
                (rw y
                  (dispatch_error t (record n1 { id = id }) s1 e (rw y at (rw (x, notify) at h))))
        ]
      ]

  -- What a delivery leaves: the cooldown of its key is armed, and its length is the same.
  Armed : Notification → ℕ → Service out → Service out → Type 0
  Armed n r s s' = (lookup (throttle_key n) s'.last_sent ≡ some r) × (s'.cooldown ≡ s.cooldown)

  deliver_sent :
      (t : Times) (send : Sender out) (n : Notification) (s : Service out)
      → n.status ≢ sent
      → (deliver out t send n s).note.status ≡ sent
      → Armed n t.recorded s (deliver out t send n s).service
  unfolding deliver record_sent throttle_key Armed
  deliver_sent t send n s new h = elim (Bool-cases (send n s.world).0) [
    | inl x ↦ rw (x, deliver) (lookup-insert_self _ t.recorded s.last_sent, refl)
    | inr x ↦ absurd (new (rw (x, deliver) at h))
  ]

  dispatch_sent :
      (t : Times) (n : Notification) (s : Service out)
      → n.status ≢ sent
      → (dispatch out t n s).note.status ≡ sent
      → Armed n t.recorded s (dispatch out t n s).service
  unfolding dispatch
  dispatch_sent t n s new h = elim (Option-cases (lookup n.channel s.senders)) [
    | inl x ↦ absurd (new (rw (x, dispatch) at h))
    | inr (send, x) ↦ rw (x, dispatch) (deliver_sent t send n s new (rw (x, dispatch) at h))
  ]

  notify_sent :
      (t : Times) (s : Service out) (n : Notification)
      → (notify out t s n).note.status ≡ sent
      → Armed n t.recorded s (notify out t s n).service
  unfolding notify Armed throttle_key
  notify_sent t s n h =
      let n1 = record n { status = pending; created_at = t.created } in
      let s1 = record s { world = (out.save n1 s.world).1 } in
      elim (Bool-cases (is_throttled out t.checked s n)) [
        | inl x ↦ let e : throttled ≡ sent = rw (x, notify) at h in cc
        | inr x ↦ elim (Option-cases (out.save n1 s.world).0) [
          | inl y ↦ let e : pending ≡ sent = rw y at (rw (x, notify) at h) in cc
          | inr (id, y) ↦
              rw (x, notify)
                (rw y (
                  dispatch_sent t (record n1 { id = id }) s1 (λ e. cc)
                    (rw y at (rw (x, notify) at h))))
        ]
      ]

  same_key :
      (n n' : Notification)
      → n'.kind ≡ n.kind
      → n'.user_address ≡ n.user_address
      → throttle_key n' ≡ throttle_key n
  unfolding throttle_key
  same_key n n' k u = rw (k, u)

  suppressed :
      (t : Times) (s : Service out) (n : Notification) (r : ℕ)
      → lookup (throttle_key n) s.last_sent ≡ some r
      → t.checked < r + s.cooldown
      → notify out t s n
        ≡ record { error = none; note = record n { status = throttled }; service = s }
  unfolding notify is_throttled
  suppressed t s n r e soon =
      let closed : is_throttled out t.checked s n ≡ true =
        rw (e, is_throttled) (lt→ltb t.checked (r + s.cooldown) soon) in
      rw (closed, notify)

  -- After a delivery, a notification of the same type to the same user within the cooldown is
  -- marked as throttled, on whatever channel: nothing is stored or sent, no error is returned and
  -- the service is unchanged.
  pub notify_again :
      (t t' : Times) (s : Service out) (n n' : Notification)
      → (notify out t s n).note.status ≡ sent
      → n'.kind ≡ n.kind
      → n'.user_address ≡ n.user_address
      → t'.checked < t.recorded + s.cooldown
      → let s' = (notify out t s n).service in
        notify out t' s' n'
        ≡ record { error = none; note = record n' { status = throttled }; service = s' }
  unfolding Armed
  notify_again t t' s n n' h k u soon =
      let a = notify_sent t s n h in
      suppressed t' (notify out t s n).service n' t.recorded (rw (same_key n n' k u) a.0)
        (rw a.1 soon)

  rest_suppressed :
      (channels : List (String × Times)) (s : Service out) (n : Notification) (r : ℕ)
      → lookup (throttle_key n) s.last_sent ≡ some r
      → All (λ c. c.1.checked < r + s.cooldown) channels
      → notify_multi_channel out channels s n ≡ s
  unfolding notify_multi_channel
  rest_suppressed [] s n r e soon = refl
  rest_suppressed ((ch, t) ∷ channels) s n r e soon =
      let n1 = record n { channel = ch } in
      rw (suppressed t s n1 r (rw (same_key n n1 refl refl) e) soon.0)
        (rest_suppressed channels s n r e soon.1)

  -- When the first channel delivers, and every other channel is tried within the cooldown, the rest
  -- of the channels change nothing: the service is the one that the first call left.
  pub notify_multi_channel_first :
      (ch : String) (t : Times) (channels : List (String × Times)) (s : Service out)
      (n : Notification)
      → (notify out t s (record n { channel = ch })).note.status ≡ sent
      → All (λ c. c.1.checked < t.recorded + s.cooldown) channels
      → notify_multi_channel out ((ch, t) ∷ channels) s n
        ≡ (notify out t s (record n { channel = ch })).service
  unfolding notify_multi_channel Armed
  notify_multi_channel_first ch t channels s n h soon =
      let n1 = record n { channel = ch } in
      let a = notify_sent t s n1 h in
      rest_suppressed channels (notify out t s n1).service n t.recorded
        (rw (same_key n1 n refl refl) a.0) (rw a.1 soon)
