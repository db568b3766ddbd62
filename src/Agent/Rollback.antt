-- ===== src/Agent/Rollback.antt =====
-- What a heartbeat that is not saved, or that is refused, leaves behind.
use yuchen_panel.Common.{
  ◌≡◌, ◌≢◌, ◌↔◌, ◌∙◌, refl, sym, ap, [], ◌∷◌, String, false, not, none, some, Map, lookup, insert,
  lookup-insert_self, lookup-insert_other, ◌==◌, if◌then◌else◌, inl, inr, Bool-cases, Option-cases,
  arith,
}
use text.Mathlib.TextEquality.{eq_iff}
use yuchen_panel.Model.{Time, Server, ClientTraffic, AgentHeartbeat, PanelData}
use yuchen_panel.Http.{Method, get, post, put, delete, other, error, is_success}
use yuchen_panel.Store.{Store, Env, normalize, save_locked}
use yuchen_panel.Traffic.{
  account_traffic, account_samples, account_sample, enforce_billing, traffic_source_allowed,
}
use yuchen_panel.Agent.{
  validate_agent_token, beating, record_heartbeat, save_heartbeat, agent_heartbeat,
}

passes :
    (servers : Map Server) (token id : String)
    → validate_agent_token servers token id ≡ none
    → (id ≢ "")
      × (token ≢ "")
      × ((s : Server) × (lookup id servers ≡ some s) × (s.agent_token ≡ token))
unfolding validate_agent_token
passes servers token id h = elim (Option-cases (lookup id servers)) [
  | inl gone ↦ absurd (ground arith)
  | inr (s, found) ↦ (
    λ e. ground (arith, eq_iff id ""),
    λ e. ground (arith, eq_iff token ""),
    (s, found, ground (arith, eq_iff token s.agent_token)),
  )
]

-- The token check lets a request pass exactly if it names a server and carries that server's
-- token, which is not empty.
pub validate_agent_token_iff :
    (servers : Map Server) (token id : String)
    → (validate_agent_token servers token id ≡ none) ↔ (
        (id ≢ "")
        × (token ≢ "")
        × ((s : Server) × (lookup id servers ≡ some s) × (s.agent_token ≡ token)))
unfolding validate_agent_token
validate_agent_token_iff servers token id = (
  passes servers token id,
  λ (named, given, (s, found, same)).
      ground (arith, found, same, eq_iff id "", eq_iff token "", eq_iff token s.agent_token),
)

some-injective : {A : Type 0} {a b : A} → some a ≡ some b → a ≡ b
some-injective h = cc

-- the two writes of a rolled back heartbeat give back the old record
restored :
    (id id' key : String) (old new : Server) (servers : Map Server)
    → id' ≡ id
    → lookup id servers ≡ some old
    → lookup key (insert id old (insert id' new servers)) ≡ lookup key servers
restored id id' key old new servers same found = elim (Bool-cases (key == id)) [
  | inl e ↦
      let here : key ≡ id = (eq_iff key id).0 e in
      rw here (lookup-insert_self id old (insert id' new servers) ∙ sym found)
  | inr e ↦
      lookup-insert_other id key old (insert id' new servers) e
      ∙ lookup-insert_other id' key new servers (rw same e)
]

-- accounting writes the clients, and nothing else of the panel
account_sample-clients :
    (hb : AgentHeartbeat) (id : String) (sample : ClientTraffic) (d : PanelData)
    → account_sample hb id sample d ≡ record d { clients = (account_sample hb id sample d).clients }
unfolding account_sample
account_sample-clients hb id sample d = elim (Option-cases (lookup id d.clients)) [
  | inl gone ↦ rw (account_sample, gone) refl
  | inr (c, found) ↦ elim (Bool-cases (traffic_source_allowed d c hb.server_id)) [
    | inl t ↦ rw (account_sample, found, t, not, if◌then◌else◌) refl
    | inr t ↦ rw (account_sample, found, t, not, if◌then◌else◌) refl
  ]
]

account_samples-clients :
    (hb : AgentHeartbeat) (samples : Map ClientTraffic) (d : PanelData)
    → account_samples hb samples d ≡ record d { clients = (account_samples hb samples d).clients }
unfolding account_samples
account_samples-clients hb [] d = refl
account_samples-clients hb ((id, sample) ∷ rest) d =
    account_samples-clients hb rest (account_sample hb id sample d)
    ∙ ap {A = PanelData}
        (λ e. record e {
          clients = (account_samples hb rest (account_sample hb id sample d)).clients;
        })
        (account_sample-clients hb id sample d)

pub account_traffic-clients :
    (now : Time) (hb : AgentHeartbeat) (d : PanelData)
    → account_traffic now hb d ≡ record d { clients = (account_traffic now hb d).clients }
unfolding account_traffic enforce_billing
account_traffic-clients now hb d =
    ap {A = PanelData} (λ e. record e { clients = (account_traffic now hb d).clients })
      (account_samples-clients hb hb.traffic_by_client d)

account_traffic-servers :
    (now : Time) (hb : AgentHeartbeat) (d : PanelData)
    → (account_traffic now hb d).servers ≡ d.servers
account_traffic-servers now hb d =
    ap {A = PanelData} (λ e. e.servers) (account_traffic-clients now hb d)

-- A heartbeat that cannot be saved is answered with 500, and leaves the clients, every server and
-- the file as they were.
pub save_heartbeat_rollback :
    (env : Env) (hb : AgentHeartbeat) (s : Store) (srv : Server)
    → env.file_written ≡ false
    → lookup hb.server_id s.memory.servers ≡ some srv
    → srv.id ≡ hb.server_id
    → ((save_heartbeat env hb s).1 ≡ error 500 "traffic persistence failed")
      × ((save_heartbeat env hb s).0.memory.clients ≡ s.memory.clients)
      × ((save_heartbeat env hb s).0.disk ≡ s.disk)
      × ((key : String)
          → lookup key (save_heartbeat env hb s).0.memory.servers ≡ lookup key s.memory.servers)
unfolding save_heartbeat save_locked normalize record_heartbeat beating
save_heartbeat_rollback env hb s srv unsaved found named =
    rw (save_heartbeat, unsaved, found, if◌then◌else◌)
      (
        refl,
        refl,
        refl,
        λ key.
            rw (account_traffic-servers env.now hb s.memory)
              (restored hb.server_id srv.id key srv _ s.memory.servers named found),
      )

-- A heartbeat that is refused changes nothing.
agent_heartbeat_refused :
    (env : Env) (m : Method) (token : String) (hb : AgentHeartbeat) (s : Store) (srv : Server)
    → lookup hb.server_id s.memory.servers ≡ some srv
    → srv.agent_token ≢ token
    → ((agent_heartbeat env m token (some hb) s).0 ≡ s)
      × (is_success (agent_heartbeat env m token (some hb) s).1 ≡ false)
unfolding agent_heartbeat
agent_heartbeat_refused env get token hb s srv found wrong = (refl, refl)
agent_heartbeat_refused env put token hb s srv found wrong = (refl, refl)
agent_heartbeat_refused env delete token hb s srv found wrong = (refl, refl)
agent_heartbeat_refused env other token hb s srv found wrong = (refl, refl)
agent_heartbeat_refused env post token hb s srv found wrong =
    elim (Option-cases (validate_agent_token s.memory.servers token hb.server_id)) [
      | inr ((status, text), e) ↦ rw (agent_heartbeat, e) (refl, refl)
      | inl pass ↦
          let (named, given, (s', found', same)) =
            passes s.memory.servers token hb.server_id pass in
          absurd (wrong (ap (λ x. x.agent_token) (some-injective (sym found ∙ found')) ∙ same))
    ]
