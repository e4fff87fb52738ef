-- ===== src/Websocket/Joined.antt =====
-- internal/api/websocket/hub.go and handler.go: clients that join a sound hub.
use defi_demo.Base.{
  ℕ, ◌≡◌, refl, ap, sym, subst, ◌∙◌, Bool, true, false, some, List, [], ◌∷◌, String, nat_eq,
  string_eq, ◌++◌, ◌==◌, if◌then◌else◌, arith, inl, inr, Bool-cases, All, All-map, All-append, ◌⊎◌,
}
use mathlib.Core.Option.{some-injective}
use defi_demo.Base.Assoc.{Map, lookup, insert, lookup-insert, beq_refl}
use defi_demo.Websocket.{Client, Hub, is_some, write_object, add_client, handle_upgrade}
use defi_demo.Websocket.Sound.{IsSound, IsWaiting, Differ, AllDiffer, is_client}
use defi_demo.Websocket.Left.{then_branch, else_branch}

-- Who is registered after `c` joins.
joined :
    (c d : ℕ) (m : Map ℕ Bool)
    → is_some (lookup d (insert c true m)) ≡ (if c == d then true else is_some (lookup d m))
joined c d m = ground (arith, lookup-insert c d true m)

from_true : (b x : Bool) → (if b then true else x) ≡ true → (b ≡ true) ⊎ (x ≡ true)
from_true b x h = elim (Bool-cases b) [ inl t ↦ inl t | inr f ↦ inr (ground arith) ]

-- What the index says after an address has been put in.
index_joined :
    (c d : ℕ) (address user : String) (index : Map String ℕ)
    → lookup user (if address == "" then index else insert address c index) ≡ some d
    → ((c ≡ d) × (address ≡ user) × ((user == "") ≡ false)) ⊎ (lookup user index ≡ some d)
index_joined c d address user index e = elim (Bool-cases (address == "")) [
  | inl unnamed ↦
      inr (sym (ap (λ (m : Map String ℕ). lookup user m) (then_branch _ index _ unnamed)) ∙ e)
  | inr named ↦
      let e1 : (if address == user then some c else lookup user index) ≡ some d =
        sym (lookup-insert address user c index)
        ∙ sym (ap (λ (m : Map String ℕ). lookup user m) (else_branch _ index _ named))
        ∙ e in
      elim (Bool-cases (address == user)) [
        | inl same ↦
            let at = (string_eq.beq_iff address user).0 same in
            inl (
              some-injective c d (sym (then_branch _ (some c) (lookup user index) same) ∙ e1),
              at,
              ap (λ (t : String). t == "") (sym at) ∙ named,
            )
        | inr other ↦ inr (sym (else_branch _ (some c) (lookup user index) other) ∙ e1)
      ]
]

-- The first client that waits joins.
module _ (c : ℕ) (cs : List ℕ) (h : Hub) (v : IsSound h) (queued : h.queued_clients ≡ c ∷ cs) where
  abbrev left_queue : Hub
  left_queue = record h { queued_clients = cs }

  first-IsWaiting : IsWaiting h c × All (IsWaiting h) cs
  first-IsWaiting = subst (All (IsWaiting h)) queued v.waiting

  first_once : Differ c cs × AllDiffer cs
  first_once = subst AllDiffer queued v.once

  joined-IsWaiting :
      (d : ℕ) → (c == d) ≡ false → IsWaiting h d → IsWaiting (add_client c left_queue) d
  unfolding add_client
  joined-IsWaiting d other w = (w.0, joined c d h.clients ∙ rw other w.1)

  joined-All :
      (ds : List ℕ)
      → Differ c ds
      → All (IsWaiting h) ds
      → All (IsWaiting (add_client c left_queue)) ds
  joined-All [] differ w = tt
  joined-All (d ∷ ds) differ w = (joined-IsWaiting d differ.0 w.0, joined-All ds differ.1 w.1)

  joined-index :
      (user : String) (d : ℕ)
      → lookup user (add_client c left_queue).user_index ≡ some d
      → (((c ≡ d) × ((h.objects c).user_address ≡ user) × ((user == "") ≡ false))
          ⊎ (lookup user h.user_index ≡ some d))
  unfolding add_client
  joined-index user d e = index_joined c d (h.objects c).user_address user h.user_index e

  pub add_client-IsSound : IsSound (add_client c left_queue)
  unfolding add_client
  add_client-IsSound = record {
    clients_open = λ d k. elim (from_true (c == d) _ (sym (joined c d h.clients) ∙ k)) [
      | inl same ↦
          subst (λ (x : ℕ). (h.objects x).closed ≡ false) ((nat_eq.beq_iff c d).0 same)
            first-IsWaiting.0.0
      | inr before ↦ v.clients_open d before
    ];
    waiting = joined-All cs first_once.0 first-IsWaiting.1;
    once = first_once.1;
    indexed = λ user d e. elim (joined-index user d e) [
      | inl (same, address, named) ↦ (
        joined c d h.clients ∙ rw (same, beq_refl d) refl,
        ap (λ (x : ℕ). (h.objects x).user_address) (sym same) ∙ address,
        named,
      )
      | inr before ↦
          let (here, address, named) = v.indexed user d before in
          (joined c d h.clients ∙ rw here (ground arith), address, named)
    ];
    distinct = v.distinct;
  }

-- A new connection: its client is an object of its own.
pub record IsFresh (c : ℕ) (h : Hub) : Type 0 where
  pub not_client : is_client h c ≡ false
  pub not_queued : Differ c h.queued_clients

last_differs : (c : ℕ) (ds : List ℕ) → Differ c ds → AllDiffer ds → AllDiffer (ds ++ (c ∷ []))
last_differs c [] differ v = (tt, tt)
last_differs c (d ∷ ds) differ v = (
  All-append (λ (x : ℕ). (d == x) ≡ false) ds (c ∷ []) v.0
      (ground (arith, nat_eq.beq_iff d c, nat_eq.beq_iff c d, differ.0), tt),
  last_differs c ds differ.1 v.1,
)

module _ (c : ℕ) (address : String) (h : Hub) (fresh : IsFresh c h) (v : IsSound h) where
  abbrev made : Client
  made = record { send = []; closed = false; topics = []; user_address = address }

  made-closed :
      (d : ℕ) → (h.objects d).closed ≡ false → (write_object c made h.objects d).closed ≡ false
  made-closed d k = elim (Bool-cases (c == d)) [
    | inl same ↦ ap (λ (x : Client). x.closed) (then_branch _ made (h.objects d) same)
    | inr other ↦ ap (λ (x : Client). x.closed) (else_branch _ made (h.objects d) other) ∙ k
  ]

  made-IsWaiting : (d : ℕ) → IsWaiting h d → IsWaiting (handle_upgrade c address h) d
  unfolding handle_upgrade
  made-IsWaiting d w = (made-closed d w.0, w.1)

  -- A client that is registered is another one.
  made-address :
      (d : ℕ)
      → is_client h d ≡ true
      → (write_object c made h.objects d).user_address ≡ (h.objects d).user_address
  made-address d known = elim (Bool-cases (d == c)) [
    | inl same ↦
        let e = (nat_eq.beq_iff d c).0 same in
        absurd (ground (arith, ap (λ (x : ℕ). is_client h x) e, fresh.not_client, known))
    | inr other ↦
        ap (λ (x : Client). x.user_address)
          (else_branch _ made (h.objects d)
            (ground (arith, nat_eq.beq_iff d c, nat_eq.beq_iff c d, other)))
  ]

  pub handle_upgrade-IsSound : IsSound (handle_upgrade c address h)
  unfolding handle_upgrade
  handle_upgrade-IsSound = record {
    clients_open = λ d known. made-closed d (v.clients_open d known);
    waiting =
        All-append (IsWaiting (handle_upgrade c address h)) h.queued_clients (c ∷ [])
          (All-map (IsWaiting h) (IsWaiting (handle_upgrade c address h)) made-IsWaiting
            h.queued_clients v.waiting)
          (
            (
              ap (λ (x : Client). x.closed) (then_branch _ made (h.objects c) (beq_refl c)),
              fresh.not_client,
            ),
            tt,
          );
    once = last_differs c h.queued_clients fresh.not_queued v.once;
    indexed = λ user d e.
        let (here, at, named) = v.indexed user d e in (here, made-address d here ∙ at, named);
    distinct = v.distinct;
  }
