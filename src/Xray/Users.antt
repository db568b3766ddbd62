-- ===== src/Xray/Users.antt =====
-- The users that a client becomes in the inbounds (backend/internal/xray/config.go,
-- `makeInboundClients`, `makeRelayVlessClients`, `clientSortKey`); `now` is `time.Now()`.
use yuchen_panel.Common.{
  String, Bool, not, ◌&&◌, ◌||◌, List, [], ◌∷◌, Option, none, some, append, to_lower, contains,
  eqb_ℤ, negsuc, compare_text, ◌==◌, if◌then◌else◌,
}
use yuchen_panel.Model.{Time, is_zero, before, Client, allowed_nodes}
use yuchen_panel.Xray.Credentials.{trojan_client_password}

-- the objects of the arrays `clients`: {password, email}, {id, alterId: 0, email},
-- {id, email, flow: ""} and, in a relay, {id, email, level: 0, flow: ""}
pub data InboundUser : Type 0 where
  trojan_user : String → String → InboundUser
  vmess_user : String → String → InboundUser
  vless_user : String → String → InboundUser
  relay_user : String → String → InboundUser

abbrev pub email_of : InboundUser → String
email_of (trojan_user password email) = email
email_of (vmess_user id email) = email
email_of (vless_user id email) = email
email_of (relay_user id email) = email

abbrev pub id_of : InboundUser → String
id_of (trojan_user password email) = ""
id_of (vmess_user id email) = id
id_of (vless_user id email) = id
id_of (relay_user id email) = id

abbrev pub client_sort_key : InboundUser → String
client_sort_key u = if email_of u == "" then id_of u else email_of u

-- a < b, of texts
abbrev pub before_text : String → String → Bool
before_text a b = eqb_ℤ (compare_text a b) (negsuc 0)

-- sort.SliceStable, where `less a b` is the order's answer: equal elements keep their order
module _ {A : Type 0} (less : A → A → Bool) where
  unfoldable pub insert_by : A → List A → List A
  insert_by x [] = x ∷ []
  insert_by x (y ∷ ys) = let rest = insert_by x ys in if less y x then y ∷ rest else x ∷ y ∷ ys

  unfoldable pub sort_by : List A → List A
  unfolding insert_by
  sort_by [] = []
  sort_by (x ∷ xs) = insert_by x (sort_by xs)

abbrev pub less_user : InboundUser → InboundUser → Bool
less_user u v = before_text (client_sort_key u) (client_sort_key v)

-- the time of the client is over
abbrev pub has_expired : Time → Client → Bool
has_expired now c = not (is_zero c.expire_at) && before c.expire_at now

-- one round of the loop of `makeRelayVlessClients`
unfoldable pub relay_client : Time → String → Client → Option InboundUser
relay_client now relay_id c =
    if not c.enabled || has_expired now c || c.uuid == ""
    then none
    else if contains c.relay_route_ids relay_id
    then some (relay_user c.uuid (append "client_" c.id))
    else none

-- the switch on the protocol
unfoldable pub user_of : (String → String) → String → Client → Option InboundUser
user_of sha256_hex protocol c =
    let email = append "client_" c.id in
    if protocol == "trojan"
    then some (trojan_user (trojan_client_password sha256_hex c) email)
    else if c.uuid == ""
    then none
    else if protocol == "vmess"
    then some (vmess_user c.uuid email)
    else some (vless_user c.uuid email)

-- one round of the loop of `makeInboundClients`
unfoldable pub inbound_client :
    (String → String) → Time → String → String → Client → Option InboundUser
unfolding user_of
inbound_client sha256_hex now node_id protocol c =
    if not c.enabled || has_expired now c
    then none
    else if not (contains (allowed_nodes now c) node_id)
    then none
    else user_of sha256_hex protocol c

-- `append` where a round has a result
abbrev pub cons_some : {A : Type 0} → Option A → List A → List A
cons_some none rest = rest
cons_some (some x) rest = x ∷ rest

unfoldable pub collect : {A B : Type 0} → (A → Option B) → List A → List B
collect f [] = []
collect f (x ∷ xs) = cons_some (f x) (collect f xs)

unfoldable pub make_relay_vless_clients : Time → String → List Client → List InboundUser
unfolding collect relay_client sort_by
make_relay_vless_clients now relay_id clients =
    sort_by less_user (collect (relay_client now relay_id) clients)

unfoldable pub make_inbound_clients :
    (String → String) → Time → String → String → List Client → List InboundUser
unfolding collect inbound_client sort_by
make_inbound_clients sha256_hex now node_id protocol clients =
    sort_by less_user (collect (inbound_client sha256_hex now node_id (to_lower protocol)) clients)
