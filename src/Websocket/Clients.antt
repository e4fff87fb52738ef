-- ===== src/Websocket/Clients.antt =====
-- internal/api/websocket/hub.go: clients that join and leave.
use defi_demo.Base.{
  ℕ, ◌≡◌, ◌≢◌, refl, ap, sym, ◌∙◌, Bool, true, false, Option, none, some, [], ◌∷◌, String, nat_eq,
  string_eq, ◌==◌, if◌then◌else◌, arith, inl, inr, Bool-cases,
}
use defi_demo.Base.Assoc.{
  Map, lookup, insert, erase, Distinct, beq_refl, lookup-erase, lookup-insert, lookup-insert_self,
}
use defi_demo.Websocket.{
  Hub, is_some, is_empty, write_object, add_client, drop_client, remove_client, subscribers,
  send_to_user,
}

-- Client `d` gets the topic's messages.
abbrev pub in_topic : String → ℕ → Map String (Map ℕ Bool) → Bool
in_topic topic d m = is_some (lookup d (subscribers topic m))

pub drop_client-absent :
    (c : ℕ) (t : String) (m : Map String (Map ℕ Bool))
    → lookup t m ≡ none
    → lookup t (drop_client c m) ≡ none
unfolding lookup drop_client
drop_client-absent c t [] h = refl
drop_client-absent c t ((u, subs) ∷ m) h = ground (arith, drop_client-absent c t m)

empty_lem : (m : Map ℕ Bool) → is_empty m ≡ true → m ≡ []
empty_lem [] h = refl
empty_lem (x ∷ m) h = ground arith

erase_empty :
    (c d : ℕ) (subs : Map ℕ Bool)
    → is_empty (erase c subs) ≡ true
    → (if c == d then false else is_some (lookup d subs)) ≡ false
unfolding lookup
erase_empty c d subs h =
    let left = lookup-erase c d subs in
    let nothing : lookup d (erase c subs) ≡ none =
      ap (λ (m : Map ℕ Bool). lookup d m) (empty_lem (erase c subs) h) in
    ground (arith, left, nothing)

pub drop_client_lem :
    (c d : ℕ) (t : String) (m : Map String (Map ℕ Bool))
    → Distinct m
    → in_topic t d (drop_client c m) ≡ (if c == d then false else in_topic t d m)
unfolding lookup drop_client
drop_client_lem c d t [] h = ground arith
drop_client_lem c d t ((u, subs) ∷ m) h = ground (
  arith,
  string_eq.beq_iff u t,
  erase_empty c d subs,
  lookup-erase c d subs,
  drop_client-absent c t m,
  drop_client_lem c d t m h.1,
)

pub remove_client_known :
    (c : ℕ) (h : Hub)
    → is_some (lookup c h.clients) ≡ true
    → remove_client c h ≡ (record h {
      clients = erase c h.clients;
      user_index =
          if (h.objects c).user_address == ""
          then h.user_index
          else erase (h.objects c).user_address h.user_index;
      topic_subs = drop_client c h.topic_subs;
      objects = write_object c (record (h.objects c) { closed = true }) h.objects;
    })
unfolding remove_client
remove_client_known c h known = rw (remove_client, known) refl

pub remove_client_unknown :
    (c : ℕ) (h : Hub) → is_some (lookup c h.clients) ≡ false → remove_client c h ≡ h
unfolding remove_client
remove_client_unknown c h unknown = rw (remove_client, unknown) refl

erased : (c : ℕ) (m : Map ℕ Bool) → lookup c (erase c m) ≡ none
erased c m = rw (lookup-erase, beq_refl c) refl

-- Removing a registered client from a hub with one entry for each topic takes that client and no
-- other out of the clients and out of every topic, closes its channel, and removing it again
-- changes nothing.
pub remove_client_lem :
    (c d : ℕ) (topic : String) (h : Hub)
    → Distinct h.topic_subs
    → lookup c h.clients ≡ some true
    → (let after = remove_client c h in
        (lookup d after.clients ≡ (if c == d then none else lookup d h.clients))
        × (in_topic topic d after.topic_subs
            ≡ (if c == d then false else in_topic topic d h.topic_subs))
        × ((after.objects c).closed ≡ true)
        × (remove_client c after ≡ after))
remove_client_lem c d topic h distinct known =
    let e = remove_client_known c h (ap is_some known) in
    rw e (
      lookup-erase c d h.clients,
      drop_client_lem c d topic h.topic_subs distinct,
      ap (λ (b : Bool). (if b then record (h.objects c) { closed = true } else h.objects c).closed)
          (beq_refl c),
      remove_client_unknown c _ (ap is_some (erased c h.clients)),
    )

differs : (a b : ℕ) → a ≢ b → (a == b) ≡ false
differs a b h = elim (Bool-cases (a == b)) [
  | inl same ↦ absurd (h ((nat_eq.beq_iff a b).0 same))
  | inr other ↦ other
]

named_lem : (user : String) → user ≢ "" → (user == "") ≡ false
named_lem user h = elim (Bool-cases (user == "")) [
  | inl same ↦ absurd (h ((string_eq.beq_iff user "").0 same))
  | inr other ↦ other
]

send_to_user-absent :
    (user topic kind : String) (content : Option String) (now : ℕ) (h : Hub)
    → lookup user h.user_index ≡ none
    → send_to_user user topic kind content now h ≡ some h
unfolding send_to_user
send_to_user-absent user topic kind content now h absent = rw (send_to_user, absent) refl

-- The index and the clients after a named client is removed.
remove_client-named :
    (c d : ℕ) (user : String) (h : Hub)
    → user ≢ ""
    → (h.objects c).user_address ≡ user
    → c ≢ d
    → lookup c h.clients ≡ some true
    → lookup d h.clients ≡ some true
    → (let after = remove_client c h in
        (lookup user after.user_index ≡ none) × (lookup d after.clients ≡ some true))
remove_client-named c d user h named address differ known other =
    rw (remove_client_known c h (ap is_some known), address, named_lem user named)
      (
        lookup-erase user user h.user_index ∙ rw (beq_refl user) refl,
        lookup-erase c d h.clients ∙ rw (differs c d differ) other,
      )

both_known :
    (c1 c2 : ℕ) (h : Hub)
    → c1 ≢ c2
    → (let two = add_client c2 (add_client c1 h) in
        (lookup c1 two.clients ≡ some true) × (lookup c2 two.clients ≡ some true))
unfolding add_client
both_known c1 c2 h differ =
    let first = lookup-insert c2 c1 true (insert c1 true h.clients) in
    (
      first
          ∙ rw (differs c2 c1 (λ (e : c2 ≡ c1). differ (sym e)))
              (lookup-insert_self c1 true h.clients),
      lookup-insert_self c2 true (insert c1 true h.clients),
    )

add_client-objects : (c : ℕ) (h : Hub) → (add_client c h).objects ≡ h.objects
unfolding add_client
add_client-objects c h = refl

pub remove_client-closed :
    (c : ℕ) (h : Hub)
    → lookup c h.clients ≡ some true
    → ((remove_client c h).objects c).closed ≡ true
remove_client-closed c h known = rw (remove_client_known c h (ap is_some known), beq_refl c) refl

-- When two clients of one named user join a hub one after the other and the older is removed, the
-- newer is still registered, but a message to the user is dropped.
pub remove_client-newer :
    (c1 c2 : ℕ) (user topic kind : String) (content : Option String) (now : ℕ) (h : Hub)
    → c1 ≢ c2
    → user ≢ ""
    → (h.objects c1).user_address ≡ user
    → (h.objects c2).user_address ≡ user
    → (let after = remove_client c1 (add_client c2 (add_client c1 h)) in
        (lookup c2 after.clients ≡ some true)
        × (send_to_user user topic kind content now after ≡ some after))
remove_client-newer c1 c2 user topic kind content now h differ named a1 a2 =
    let two = add_client c2 (add_client c1 h) in
    let (known, other) = both_known c1 c2 h differ in
    let address : (two.objects c1).user_address ≡ user =
      rw (add_client-objects c2 (add_client c1 h), add_client-objects c1 h) a1 in
    let (gone, stays) = remove_client-named c1 c2 user two named address differ known other in
    (stays, send_to_user-absent user topic kind content now (remove_client c1 two) gone)
