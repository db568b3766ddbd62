-- ===== src/Panel/DispatchClients.antt =====
-- A property that the handlers of the clients keep is kept by the requests for clients.
use yuchen_panel.Common.{
  ◌≡◌, String, Option, none, some, lookup, has_suffix, trim_suffix, ◌==◌, if◌then◌else◌, inl, inr,
  Bool-cases, Option-cases,
}
use yuchen_panel.Model.{Time, Client, PanelData}
use yuchen_panel.Http.{Method, get, post, put, delete, other, Reply}
use yuchen_panel.Store.{Store, Env}
use yuchen_panel.Clients.{ClientBody, clients, client_by_id, client_request, post_only}
use yuchen_panel.Nodes.{Keys}
use yuchen_panel.Relays.{CreateClientRelayRequest, create_client_with_relay}
use yuchen_panel.Panel.Interface.{Keeps}

module _ (sha256_hex : String → String) (parse_time : String → Option Time) (keys : Keys)
    (I : PanelData → Type 0) (k : Keeps parse_time keys I) where
  pub clients-kept :
      (env : Env) (m : Method) (body : Option Client) (s : Store)
      → I s.memory
      → I (clients sha256_hex env m body s).0.memory
  unfolding clients
  clients-kept env get body s h = h
  clients-kept env post none s h = h
  clients-kept env post (some body) s h = k.creates_client env body s h
  clients-kept env put body s h = h
  clients-kept env delete body s h = h
  clients-kept env other body s h = h

  client_request-kept :
      (env : Env) (m : Method) (body : Option Client) (id : String) (item : Client) (s : Store)
      → lookup id s.memory.clients ≡ some item
      → I s.memory
      → I (client_request sha256_hex env m body id item s).0.memory
  unfolding client_request
  client_request-kept env get body id item s found h = h
  client_request-kept env put none id item s found h = h
  client_request-kept env put (some body) id item s found h =
      k.updates_client env id item body s found h
  client_request-kept env delete body id item s found h = k.deletes_client env id s h
  client_request-kept env post body id item s found h = h
  client_request-kept env other body id item s found h = h

  post_only-kept :
      (m : Method) (handler : Store → Store × Reply ClientBody) (s : Store)
      → I (handler s).0.memory
      → I s.memory
      → I (post_only m handler s).0.memory
  post_only-kept post handler s served h = served
  post_only-kept get handler s served h = h
  post_only-kept put handler s served h = h
  post_only-kept delete handler s served h = h
  post_only-kept other handler s served h = h

  pub client_by_id-kept :
      (env : Env) (m : Method) (rest : String) (body : Option Client)
      (relay : Option CreateClientRelayRequest) (s : Store)
      → I s.memory
      → I
          (client_by_id sha256_hex
            (create_client_with_relay parse_time env keys relay)
            env
            m
            rest
            body
            s).0.memory
  unfolding client_by_id
  client_by_id-kept env m rest body relay s h = elim (Bool-cases (has_suffix rest "/reset-token")) [
    | inl e ↦
        rw (client_by_id, e, if◌then◌else◌)
          (post_only-kept m _ s (k.resets_token env (trim_suffix rest "/reset-token") s h) h)
    | inr e ↦ elim (Bool-cases (rest == "create-socks5-relay")) [
      | inl t ↦
          rw (client_by_id, e, t, if◌then◌else◌)
            (post_only-kept m _ s (k.creates_with_relay env relay s h) h)
      | inr t ↦ elim (Option-cases (lookup rest s.memory.clients)) [
        | inl gone ↦ rw (client_by_id, e, t, gone, if◌then◌else◌) h
        | inr (item, found) ↦
            rw (client_by_id, e, t, found, if◌then◌else◌)
              (client_request-kept env m body rest item s found h)
      ]
    ]
  ]
