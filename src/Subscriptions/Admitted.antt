-- ===== src/Subscriptions/Admitted.antt =====
-- A subscription and the configuration of Xray agree: what a client is shown lets it in.
use yuchen_panel.Common.{
  ◌≡◌, refl, sym, ap, ◌∙◌, subst, inl, inr, ℕ, String, Bool, true, false, not, ◌&&◌, ◌||◌, List, [],
  ◌∷◌, Map, some, append, lookup, values, contains, any, keep_if, All, All-keep_if, to_lower, ◌==◌,
  if◌then◌else◌, arith, Bool-cases, Option-cases,
}
use text.Mathlib.TextEquality.{eq_iff}
use yuchen_panel.Model.{Time, is_zero, before, Client, allowed_nodes, Node, RelayRoute, PanelData}
use yuchen_panel.Places.{inl-injective, true_is_not_false}
use yuchen_panel.Versions.Order.{some-injective}
use yuchen_panel.Xray.Users.{
  InboundUser, trojan_user, vmess_user, vless_user, relay_user, make_inbound_clients,
  make_relay_vless_clients,
}
use yuchen_panel.Xray.Entitled.{
  is_running, not_expired, has_credential, credential, contains-allowed_nodes,
  make_inbound_clients_entitled, make_relay_vless_clients_entitled,
}
use yuchen_panel.Xray.Among.{All-sort_by}
use yuchen_panel.Subscriptions.Resolved.{All-contains}
use yuchen_panel.Subscriptions.Snapshot.{
  Snapshot, client_of_token, is_shown_node, shown_relays, less_node_id, less_relay_id, snapshot_of,
  may_subscribe, subscription_snapshot,
}

abbrev pub same_user : InboundUser → InboundUser → Bool
same_user (trojan_user a b) (trojan_user x y) = a == x && b == y
same_user (vmess_user a b) (vmess_user x y) = a == x && b == y
same_user (vless_user a b) (vless_user x y) = a == x && b == y
same_user (relay_user a b) (relay_user x y) = a == x && b == y
same_user _ _ = false

same_texts : (a b : String) → (a == a && b == b) ≡ true
same_texts a b = rw ((eq_iff a a).1 refl, (eq_iff b b).1 refl) refl

same_user_self : (u : InboundUser) → same_user u u ≡ true
same_user_self (trojan_user a b) = same_texts a b
same_user_self (vmess_user a b) = same_texts a b
same_user_self (vless_user a b) = same_texts a b
same_user_self (relay_user a b) = same_texts a b

-- the inbound of the node lets the client in
abbrev pub NodeAdmits : (String → String) → Time → List Client → Client → Node → Type 0
NodeAdmits sha256_hex now clients c n =
    any (same_user (credential sha256_hex (to_lower n.protocol) c))
      (make_inbound_clients sha256_hex now n.id n.protocol clients)
    ≡ true

-- so does the inbound of the relay route
abbrev pub RelayAdmits : Time → List Client → Client → RelayRoute → Type 0
RelayAdmits now clients c r =
    any (same_user (relay_user c.uuid (append "client_" c.id)))
      (make_relay_vless_clients now r.id clients)
    ≡ true

-- the relay routes stand under their own ids
abbrev pub OwnIds : Map RelayRoute → Type 0
OwnIds relays = (id : String) (r : RelayRoute) → lookup id relays ≡ some r → r.id ≡ id

any-client_of_token :
    (token : String) (p : Client → Bool) (cs : List Client) (c : Client)
    → client_of_token token cs ≡ some c
    → p c ≡ true
    → any p cs ≡ true
unfolding client_of_token any
any-client_of_token token p [] c found h = absurd (cc)
any-client_of_token token p (x ∷ cs) c found h = elim (Bool-cases (x.subscribe_token == token)) [
  | inl e ↦
      let same : some x ≡ some c = rw (e, if◌then◌else◌) at found in
      let here : p x ≡ true = ap {A = Client} p (some-injective same) ∙ h in rw here refl
  | inr e ↦
      let rest = any-client_of_token token p cs c (rw (e, if◌then◌else◌) at found) h in ground arith
]

contains-keep_if-fails :
    (q : String → Bool) (ids : List String) (v : String)
    → q v ≡ false
    → contains (keep_if q ids) v ≡ false
unfolding contains keep_if
contains-keep_if-fails q [] v h = refl
contains-keep_if-fails q (x ∷ xs) v h = elim (Bool-cases (q x)) [
  | inr k ↦ rw (k, if◌then◌else◌) (contains-keep_if-fails q xs v h)
  | inl k ↦ elim (Bool-cases (x == v)) [
    | inr e ↦ rw (k, if◌then◌else◌, e, if◌then◌else◌) (contains-keep_if-fails q xs v h)
    | inl e ↦ absurd (true_is_not_false (sym k ∙ (ap q ((eq_iff x v).0 e) ∙ h)))
  ]
]

-- no node without an id is allowed
allowed-named :
    (now : Time) (c : Client) (id : String)
    → contains (allowed_nodes now c) id ≡ true
    → (id == "") ≡ false
unfolding allowed_nodes contains
allowed-named now c id h = elim (Bool-cases (id == "")) [
  | inr e ↦ e
  | inl e ↦
      elim (Bool-cases
        (not c.enabled || (not (is_zero c.expire_at) && not (before now c.expire_at)))) [
          | inl stopped ↦
              absurd (true_is_not_false (sym (rw (allowed_nodes, stopped, if◌then◌else◌) at h)))
          | inr runs ↦
              let kept = rw (allowed_nodes, runs, if◌then◌else◌) at h in
              absurd (
                true_is_not_false (
                  sym kept ∙ contains-keep_if-fails (λ v. not (v == "")) c.node_ids id (rw e refl)))
        ]
]

all_true : (a b d : Bool) → a ≡ true → b ≡ true → d ≡ true → (a && (b && d)) ≡ true
all_true a b d ha hb hd = rw (ha, hb, hd) refl

module _ (sha256_hex : String → String) (now : Time) (token : String) (clients : List Client)
    (c : Client) (found : client_of_token token clients ≡ some c)
    (identified : (c.uuid == "") ≡ false) where
  shown-NodeAdmits :
      (n : Node) → is_shown_node now c n ≡ true → NodeAdmits sha256_hex now clients c n
  shown-NodeAdmits n shown =
      let allowed : contains (allowed_nodes now c) n.id ≡ true = ground arith in
      let named = allowed-named now c n.id allowed in
      let may = sym (contains-allowed_nodes now n.id c named) ∙ allowed in
      let protocol = to_lower n.protocol in
      let own = same_user_self (credential sha256_hex protocol c) in
      make_inbound_clients_entitled sha256_hex now n.id n.protocol clients
        (same_user (credential sha256_hex protocol c)) named
      ∙ any-client_of_token token
          (λ x.
            (is_running now x && contains x.node_ids n.id)
            && (has_credential protocol x
                && same_user (credential sha256_hex protocol c) (credential sha256_hex protocol x)))
          clients c found (all_true _ _ _ may (ground arith) own)

  relay-admits :
      (r : RelayRoute)
      → may_subscribe now c ≡ true
      → contains c.relay_route_ids r.id ≡ true
      → RelayAdmits now clients c r
  relay-admits r may bound =
      let own = same_user_self (relay_user c.uuid (append "client_" c.id)) in
      make_relay_vless_clients_entitled now r.id clients
        (same_user (relay_user c.uuid (append "client_" c.id)))
      ∙ any-client_of_token token
          (λ x.
            (not_expired now x && contains x.relay_route_ids r.id)
            && (not (x.uuid == "")
                && same_user (relay_user c.uuid (append "client_" c.id))
                    (relay_user x.uuid (append "client_" x.id))))
          clients c found (all_true _ _ _ (rw bound (ground arith)) (rw identified refl) own)

  shown_relays-admit :
      (relays : Map RelayRoute) (ids : List String)
      → OwnIds relays
      → may_subscribe now c ≡ true
      → All (λ id. contains c.relay_route_ids id ≡ true) ids
      → All (RelayAdmits now clients c) (shown_relays relays ids)
  unfolding shown_relays
  shown_relays-admit relays [] own may bound = tt
  shown_relays-admit relays (id ∷ ids) own may (here, rest) =
      let others = shown_relays-admit relays ids own may rest in
      elim (Option-cases (lookup id relays)) [
        | inl gone ↦ rw gone others
        | inr (r, stored) ↦ elim (Bool-cases (r.enabled && r.route_mode == "socks5_route")) [
          | inr off ↦ rw (stored, off, if◌then◌else◌) others
          | inl on ↦
              rw (stored, on, if◌then◌else◌)
                (relay-admits r may (rw (own id r stored) here), others)
        ]
      ]

snapshot_admitted :
    (sha256_hex : String → String) (now : Time) (token : String) (d : PanelData) (c : Client)
    → client_of_token token (values d.clients) ≡ some c
    → (c.uuid == "") ≡ false
    → OwnIds d.relay_routes
    → may_subscribe now c ≡ true
    → All (NodeAdmits sha256_hex now (values d.clients) c) (snapshot_of now d c).nodes
      × All (RelayAdmits now (values d.clients) c) (snapshot_of now d c).relays
unfolding snapshot_of
snapshot_admitted sha256_hex now token d c found identified own may = (
  All-sort_by _ less_node_id (keep_if (is_shown_node now c) (values d.nodes)) (
      All-keep_if _ (is_shown_node now c) (values d.nodes)
        (shown-NodeAdmits sha256_hex now token (values d.clients) c found identified)),
  All-sort_by _ less_relay_id (shown_relays d.relay_routes c.relay_route_ids) (
      shown_relays-admit sha256_hex now token (values d.clients) c found identified d.relay_routes
        c.relay_route_ids own may (All-contains c.relay_route_ids)),
)

-- What the subscription of a client with a UUID shows is open to it: at the same instant, the
-- inbound of every node and relay route in the snapshot has a user with the client's credential,
-- where the relay routes stand under their own ids.
pub subscription_snapshot_admitted :
    (sha256_hex : String → String) (now : Time) (token : String) (d : PanelData) (snap : Snapshot)
    → subscription_snapshot now token d ≡ inl snap
    → (snap.client.uuid == "") ≡ false
    → OwnIds d.relay_routes
    → All (NodeAdmits sha256_hex now (values d.clients) snap.client) snap.nodes
      × All (RelayAdmits now (values d.clients) snap.client) snap.relays
unfolding subscription_snapshot
subscription_snapshot_admitted sha256_hex now token d snap shown identified own =
    elim (Option-cases (client_of_token token (values d.clients))) [
      | inl gone ↦ absurd (let h = rw gone at shown in cc)
      | inr (c, found) ↦ elim (Bool-cases (may_subscribe now c)) [
        | inr off ↦ absurd (let h = rw (found, off, if◌then◌else◌) at shown in cc)
        | inl may ↦
            let same : snapshot_of now d c ≡ snap =
              inl-injective {B = ℕ} (rw (found, may, if◌then◌else◌) at shown) in
            subst
              (λ x.
                (x.client.uuid == "") ≡ false
                → All (NodeAdmits sha256_hex now (values d.clients) x.client) x.nodes
                  × All (RelayAdmits now (values d.clients) x.client) x.relays)
              same (λ u. snapshot_admitted sha256_hex now token d c found u own may) identified
      ]
    ]
