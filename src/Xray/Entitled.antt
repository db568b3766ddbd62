-- ===== src/Xray/Entitled.antt =====
-- Who is let into an inbound: the clients that are entitled to it, and nobody else.
use yuchen_panel.Common.{
  ◌≡◌, refl, String, Bool, true, false, not, ◌&&◌, ◌||◌, List, [], ◌∷◌, Option, none, some, append,
  to_lower, contains, any, keep_if, ◌==◌, if◌then◌else◌, arith, inl, inr, Bool-cases, Option-cases,
}
use text.Mathlib.TextEquality.{eq_iff}
use yuchen_panel.Model.{Time, is_zero, before, Client, allowed_nodes}
use yuchen_panel.Xray.Credentials.{trojan_client_password}
use yuchen_panel.Xray.Users.{
  InboundUser, trojan_user, vmess_user, vless_user, relay_user, less_user, insert_by, sort_by,
  collect, has_expired, relay_client, user_of, inbound_client, make_relay_vless_clients,
  make_inbound_clients,
}

-- the test holds of the result
abbrev pub holds_of : {A : Type 0} → (A → Bool) → Option A → Bool
holds_of p none = false
holds_of p (some x) = p x

module _ {A : Type 0} (less : A → A → Bool) (p : A → Bool) where
  any-insert_by : (x : A) (ys : List A) → any p (insert_by less x ys) ≡ (p x || any p ys)
  unfolding any insert_by
  any-insert_by x [] = refl
  any-insert_by x (y ∷ ys) = ground (arith, any-insert_by x ys)

  any-sort_by : (xs : List A) → any p (sort_by less xs) ≡ any p xs
  unfolding any sort_by
  any-sort_by [] = refl
  any-sort_by (x ∷ xs) = rw (any-insert_by x (sort_by less xs), any-sort_by xs) refl

any-collect :
    {A B : Type 0} (f : A → Option B) (p : B → Bool) (xs : List A)
    → any p (collect f xs) ≡ any (λ x. holds_of p (f x)) xs
unfolding any collect
any-collect f p [] = refl
any-collect f p (x ∷ xs) = elim (Option-cases (f x)) [
  | inl e ↦ rw (e, any-collect f p xs) refl
  | inr (y, e) ↦ rw (e, any-collect f p xs) refl
]

any_ext : {A : Type 0} (p q : A → Bool) (xs : List A) → ((x : A) → p x ≡ q x) → any p xs ≡ any q xs
unfolding any
any_ext p q [] h = refl
any_ext p q (x ∷ xs) h = rw (h x, any_ext p q xs h) refl

-- a client that is switched on and, at `now`, has time left
abbrev pub is_running : Time → Client → Bool
is_running now c = c.enabled && (is_zero c.expire_at || before now c.expire_at)

-- the credential that an inbound of the protocol asks for
abbrev pub has_credential : String → Client → Bool
has_credential protocol c = protocol == "trojan" || not (c.uuid == "")

abbrev pub credential : (String → String) → String → Client → InboundUser
credential sha256_hex protocol c =
    if protocol == "trojan"
    then trojan_user (trojan_client_password sha256_hex c) (append "client_" c.id)
    else if protocol == "vmess"
    then vmess_user c.uuid (append "client_" c.id)
    else vless_user c.uuid (append "client_" c.id)

holds_of-user_of :
    (sha256_hex : String → String) (protocol : String) (p : InboundUser → Bool) (c : Client)
    → holds_of p (user_of sha256_hex protocol c)
      ≡ (has_credential protocol c && p (credential sha256_hex protocol c))
unfolding user_of
holds_of-user_of sha256_hex protocol p c = elim (Bool-cases (protocol == "trojan")) [
  | inl t ↦ rw (user_of, t, if◌then◌else◌) refl
  | inr t ↦ elim (Bool-cases (c.uuid == "")) [
    | inl u ↦ rw (user_of, t, u, if◌then◌else◌) refl
    | inr u ↦ elim (Bool-cases (protocol == "vmess")) [
      | inl v ↦ rw (user_of, t, u, v, if◌then◌else◌) refl
      | inr v ↦ rw (user_of, t, u, v, if◌then◌else◌) refl
    ]
  ]
]

contains-keep_if :
    (q : String → Bool) (ids : List String) (v : String)
    → q v ≡ true
    → contains (keep_if q ids) v ≡ contains ids v
unfolding contains keep_if
contains-keep_if q [] v h = refl
contains-keep_if q (x ∷ xs) v h = elim (Bool-cases (x == v)) [
  | inl e ↦
      let same : x ≡ v = (eq_iff x v).0 e in rw (same, h, (eq_iff v v).1 refl, if◌then◌else◌) refl
  | inr e ↦ elim (Bool-cases (q x)) [
    | inl k ↦ rw (k, e, if◌then◌else◌) (contains-keep_if q xs v h)
    | inr k ↦ rw (k, e, if◌then◌else◌) (contains-keep_if q xs v h)
  ]
]

stopped-not : (a z b : Bool) → (not a || (not z && not b)) ≡ not (a && (z || b))
stopped-not a z b = ground arith

pub contains-allowed_nodes :
    (now : Time) (id : String) (c : Client)
    → (id == "") ≡ false
    → contains (allowed_nodes now c) id ≡ (is_running now c && contains c.node_ids id)
unfolding allowed_nodes contains
contains-allowed_nodes now id c named = elim (Bool-cases (is_running now c)) [
  | inl r ↦
      rw
        (
          allowed_nodes,
          stopped-not c.enabled (is_zero c.expire_at) (before now c.expire_at),
          r,
          if◌then◌else◌,
        )
        (contains-keep_if (λ v. not (v == "")) c.node_ids id (rw named refl))
  | inr r ↦
      rw
        (
          allowed_nodes,
          stopped-not c.enabled (is_zero c.expire_at) (before now c.expire_at),
          r,
          if◌then◌else◌,
          contains,
        )
        refl
]

skipped-is_running :
    (now : Time) (c : Client)
    → (not c.enabled || has_expired now c) ≡ true
    → is_running now c ≡ false
skipped-is_running now c h = ground arith

holds_of-inbound_client :
    (sha256_hex : String → String) (now : Time) (id protocol : String) (p : InboundUser → Bool)
    (c : Client)
    → (id == "") ≡ false
    → holds_of p (inbound_client sha256_hex now id protocol c) ≡ (
        (is_running now c && contains c.node_ids id)
        && (has_credential protocol c && p (credential sha256_hex protocol c)))
unfolding inbound_client
holds_of-inbound_client sha256_hex now id protocol p c named =
    elim (Bool-cases (not c.enabled || has_expired now c)) [
      | inl s ↦ rw (inbound_client, s, skipped-is_running now c s, if◌then◌else◌) refl
      | inr s ↦ elim (Bool-cases (is_running now c && contains c.node_ids id)) [
        | inl b ↦
            rw (inbound_client, s, contains-allowed_nodes now id c named, b, if◌then◌else◌)
              (holds_of-user_of sha256_hex protocol p c)
        | inr b ↦
            rw (inbound_client, s, contains-allowed_nodes now id c named, b, if◌then◌else◌) refl
      ]
    ]

-- An inbound of a node lets in exactly the clients that are switched on, have time left, name the
-- node in their bindings and hold a credential for the protocol: a test of the users finds one
-- exactly when it finds one among those, with the credential of each.
pub make_inbound_clients_entitled :
    (sha256_hex : String → String) (now : Time) (id protocol : String) (clients : List Client)
    (p : InboundUser → Bool)
    → (id == "") ≡ false
    → any p (make_inbound_clients sha256_hex now id protocol clients)
      ≡ any
          (λ c.
            (is_running now c && contains c.node_ids id)
            && (has_credential (to_lower protocol) c
                && p (credential sha256_hex (to_lower protocol) c)))
          clients
unfolding make_inbound_clients
make_inbound_clients_entitled sha256_hex now id protocol clients p named =
    rw
      (
        any-sort_by less_user p
            (collect (inbound_client sha256_hex now id (to_lower protocol)) clients),
        any-collect (inbound_client sha256_hex now id (to_lower protocol)) p clients,
      )
      (any_ext _ _ clients
        (λ c. holds_of-inbound_client sha256_hex now id (to_lower protocol) p c named))

-- a client that is switched on and whose time is not over, the last instant included
abbrev pub not_expired : Time → Client → Bool
not_expired now c = c.enabled && not (has_expired now c)

holds_of-relay_client :
    (now : Time) (id : String) (p : InboundUser → Bool) (c : Client)
    → holds_of p (relay_client now id c) ≡ (
        (not_expired now c && contains c.relay_route_ids id)
        && (not (c.uuid == "") && p (relay_user c.uuid (append "client_" c.id))))
unfolding relay_client
holds_of-relay_client now id p c = ground arith

-- The inbound of a relay route lets in exactly the clients that are switched on, have not expired,
-- hold a UUID and name the route in their bindings.
pub make_relay_vless_clients_entitled :
    (now : Time) (id : String) (clients : List Client) (p : InboundUser → Bool)
    → any p (make_relay_vless_clients now id clients)
      ≡ any
          (λ c.
            (not_expired now c && contains c.relay_route_ids id)
            && (not (c.uuid == "") && p (relay_user c.uuid (append "client_" c.id))))
          clients
unfolding make_relay_vless_clients
make_relay_vless_clients_entitled now id clients p =
    rw
      (
        any-sort_by less_user p (collect (relay_client now id) clients),
        any-collect (relay_client now id) p clients,
      )
      (any_ext _ _ clients (holds_of-relay_client now id p))
