-- ===== src/AgentMain/Settled.antt =====
-- A sync of the agent (agent/cmd/agent/main.go) that is answered by the panel
-- (backend/internal/api/agent.go, `agentSync`): what the answer says of the configuration in force.
use text.Mathlib.TextEquality.{eq_iff}
use yuchen_panel.Common.{
  ◌⊎◌, inl, inr, ◌≡◌, ◌≢◌, refl, sym, ◌∙◌, String, true, false, List, some, lookup, ◌==◌, arith,
  Bool-cases, Option-cases,
}
use yuchen_panel.Model.{AgentSyncRequest}
use yuchen_panel.Http.{post, reply}
use yuchen_panel.Store.{Store, Env}
use yuchen_panel.Traffic.{enforce_billing}
use yuchen_panel.Xray.Config.{ServerConfig}
use yuchen_panel.Agent.{validate_agent_token}
use yuchen_panel.Agent.Sync.{
  AgentSyncResponse, synced_config, sync_response, sync_server, agent_sync,
}
use yuchen_panel.AgentMain.Apply.{AgentConfig, Programs}
use yuchen_panel.AgentMain.Loop.{AgentState, file_hash, sent_hash, Event, history}
use yuchen_panel.AgentMain.Confirmed.{Known, history-sent_hash}

answer_of : {B : Type 0} {a b : B} → reply 200 a ≡ reply 200 b → a ≡ b
answer_of h = cc

module _ (sha256_hex : String → String) (config_hash : ServerConfig → String) (env : Env)
    (token : String) (body : AgentSyncRequest) (s : Store) (r : AgentSyncResponse) where
  -- the configuration of the server that asks
  abbrev pub desired : ServerConfig
  desired = synced_config sha256_hex env.now body.server_id (enforce_billing env.now s.memory).0

  agent_sync-answer :
      (agent_sync sha256_hex config_hash env post token (some body) s).1 ≡ reply 200 r
      → r ≡ sync_response config_hash body desired
  unfolding agent_sync sync_server
  agent_sync-answer h =
      elim (Option-cases (validate_agent_token s.memory.servers token body.server_id)) [
        | inr ((status, text), e) ↦ absurd (let bad = rw (agent_sync, e) at h in cc)
        | inl e ↦ elim (Option-cases (lookup body.server_id s.memory.servers)) [
          | inl gone ↦ absurd (let bad = rw (agent_sync, e, gone) at h in cc)
          | inr (server, found) ↦ answer_of (sym (rw (agent_sync, e, found) at h))
        ]
      ]

  -- An agent that sends the hash which it computes is told either that no restart is needed, and
  -- then Xray runs a file with the hash of the configuration which the panel wants for the server
  -- at that time; or that one is needed, and then the hash that it sent is another one, and the
  -- answer carries that configuration and its hash. This is after any history of rounds, failures,
  -- kills and restarts of the agent from a state in which Xray runs what is in the file, or the
  -- marker is there and known, and where the hash of no configuration is empty.
  pub agent_sync-settled :
      (cfg : AgentConfig) (programs : Programs) (events : List Event) (w : AgentState)
      → Known w
      → ((c : ServerConfig) → config_hash c ≢ "")
      → body.config_hash ≡ sent_hash programs (history cfg programs events w)
      → (agent_sync sha256_hex config_hash env post token (some body) s).1 ≡ reply 200 r
      → ((r.restart_required ≡ false)
          × (file_hash programs (history cfg programs events w).machine.running
              ≡ config_hash desired))
        ⊎ ((r.restart_required ≡ true)
            × (body.config_hash ≢ config_hash desired)
            × (r.xray_config ≡ desired)
            × (r.desired_config_hash ≡ config_hash desired))
  unfolding sync_response
  agent_sync-settled cfg programs events w known hashed sent answered =
      let same = agent_sync-answer answered in
      elim (Bool-cases (body.config_hash == config_hash desired)) [
        | inl e ↦
            let equal : body.config_hash ≡ config_hash desired = (eq_iff _ _).0 e in
            let runs : file_hash programs (history cfg programs events w).machine.running
                ≡ config_hash desired =
              elim (history-sent_hash cfg programs events w known) [
                | inl empty ↦ absurd (hashed desired (sym equal ∙ (sent ∙ empty)))
                | inr same_file ↦ sym same_file ∙ (sym sent ∙ equal)
              ] in
            inl (rw (same, e) refl, runs)
        | inr e ↦ inr (
          rw (same, e) refl,
          (λ equal. ground (arith, eq_iff body.config_hash (config_hash desired))),
          rw (same) refl,
          rw (same) refl,
        )
      ]
