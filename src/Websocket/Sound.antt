-- ===== src/Websocket/Sound.antt =====
-- internal/api/websocket/hub.go: what holds of the hub between its operations.
use defi_demo.Base.{
  ℕ, ◌≡◌, refl, ap, ◌∙◌, Bool, true, false, some, List, [], ◌∷◌, String, nat_eq, string_eq, ◌==◌,
  inl, inr, Bool-cases, All, All-map,
}
use defi_demo.Base.Assoc.{Map, lookup, Distinct}
use defi_demo.Websocket.{Client, Hub, is_some, write_object}

abbrev pub is_client : Hub → ℕ → Bool
is_client h c = is_some (lookup c h.clients)

-- A client that waits for its registration: its channel is open, and it is not registered.
abbrev pub IsWaiting : Hub → ℕ → Type 0
IsWaiting h c = ((h.objects c).closed ≡ false) × (is_client h c ≡ false)

abbrev pub Differ : ℕ → List ℕ → Type 0
Differ c cs = All (λ (d : ℕ). (c == d) ≡ false) cs

abbrev pub AllDiffer : List ℕ → Type 0
AllDiffer [] = Unit {0}
AllDiffer (c ∷ cs) = Differ c cs × AllDiffer cs

pub record IsSound (h : Hub) : Type 0 where
  -- The channels of the registered clients are open.
  pub clients_open : (c : ℕ) → is_client h c ≡ true → (h.objects c).closed ≡ false
  pub waiting : All (IsWaiting h) h.queued_clients
  pub once : AllDiffer h.queued_clients
  -- The index leads to registered clients of the address.
  pub indexed :
      (user : String) (c : ℕ)
      → lookup user h.user_index ≡ some c
      → (is_client h c ≡ true) × ((h.objects c).user_address ≡ user) × ((user == "") ≡ false)
  pub distinct : Distinct h.topic_subs

-- The channels' states and the addresses are as before.
abbrev pub SameObjects : (ℕ → Client) → (ℕ → Client) → Type 0
SameObjects f g =
    (d : ℕ) → ((g d).closed ≡ (f d).closed) × ((g d).user_address ≡ (f d).user_address)

pub write_object-SameObjects :
    (c : ℕ) (client : Client) (f : ℕ → Client)
    → client.closed ≡ (f c).closed
    → client.user_address ≡ (f c).user_address
    → SameObjects f (write_object c client f)
write_object-SameObjects c client f closed address d = elim (Bool-cases (c == d)) [
  | inr other ↦ rw other (refl, refl)
  | inl same ↦
      let e = (nat_eq.beq_iff c d).0 same in
      rw same
        (closed ∙ ap (λ (x : ℕ). (f x).closed) e, address ∙ ap (λ (x : ℕ). (f x).user_address) e)
]

-- Only objects and topics change.
module _ (h : Hub) (objects : ℕ → Client) (topics : Map String (Map ℕ Bool))
    (leaving : List ℕ) where
  abbrev pub changed : Hub
  changed = record h { objects = objects; topic_subs = topics; unregister = leaving }

  pub changed-IsSound :
      IsSound h → SameObjects h.objects objects → Distinct topics → IsSound changed
  changed-IsSound v same distinct = record {
    clients_open = λ c known. (same c).0 ∙ v.clients_open c known;
    waiting =
        All-map (IsWaiting h) (IsWaiting changed) (λ c w. ((same c).0 ∙ w.0, w.1)) h.queued_clients
          v.waiting;
    once = v.once;
    indexed = λ user c e.
        let (known, address, named) = v.indexed user c e in (known, (same c).1 ∙ address, named);
    distinct = distinct;
  }
