-- ===== src/Tests/AgentRuns.antt =====
-- The agent on a server whose Xray does not start again after a change.
use yuchen_panel.Common.{
  arith, ◌≢◌, ◌≡◌, refl, ◌+ℤ◌, ◌⊎◌, inl, inr, String, true, false, pos, List, [], ◌∷◌, Option, none,
  some, lookup, scan_digits, ok, err,
}
use text.Mathlib.TextEquality.{eq_iff}
use yuchen_panel.Model.{AgentSyncRequest, ClientTraffic}
use yuchen_panel.Http.{post, reply}
use yuchen_panel.Traffic.{enforce_billing}
use yuchen_panel.Xray.Config.{ServerConfig}
use yuchen_panel.Agent.{validate_agent_token}
use yuchen_panel.Agent.Sync.{
  AgentSyncResponse, synced_config, sync_response, sync_server, agent_sync,
}
use yuchen_panel.AgentMain.Settled.{agent_sync-settled}
use yuchen_panel.Tests.Data.{env, store}
use yuchen_panel.Traffic.Bounds.{InRange}
use yuchen_panel.AgentMain.Apply.{AgentConfig, Machine, Programs, Calls}
use yuchen_panel.AgentMain.Loop.{
  Round, file_hash, sent_hash, Event, passes, killed, xray_restarts, history, happen, start,
}
use yuchen_panel.AgentMain.Confirmed.{history-sent_hash}
use yuchen_panel.AgentMain.Counters.{parse_traffic}
use yuchen_panel.AgentMain.Reported.{parse_traffic-InRange}

abbrev same_text : String → String
same_text t = t

abbrev no_error : String → Option String
no_error t = none

abbrev programs : Programs
programs = record { sum = same_text; test_error = no_error }

abbrev cfg : AgentConfig
cfg = record { test_command = "test"; reload_command = "reload"; apply_config = true }

abbrev calls : Calls
calls = record {
  dir_made = ok tt;
  copy_written = ok tt;
  marker_written = ok tt;
  marker_left = false;
  renamed = ok tt;
  reloaded = err "exit status 1";
  left_running = none;
  marker_removed = ok tt;
}

abbrev first_round : Round
first_round = record {
  heartbeat_taken = true;
  synced = ok (record {
    restart_required = true;
    desired_config_hash = "new";
    xray_config = some "new";
    next_interval_seconds = pos 30;
  });
  calls = calls;
}

abbrev machine : Machine
machine = record { config = some "old"; pending = false; running = some "old" }

-- the reload fails, the agent is killed in the next round after the marker, and Xray starts again
abbrev events : List Event
events = passes first_round ∷ killed first_round 1 ∷ xray_restarts ∷ []

history-sent_hash_example :
    (sent_hash programs (history cfg programs events (start machine)) ≡ "")
    ⊎ (sent_hash programs (history cfg programs events (start machine))
        ≡ file_hash programs (history cfg programs events (start machine)).machine.running)
history-sent_hash_example =
    history-sent_hash cfg programs events (start machine) (inr refl, inl refl)

-- the configuration that the panel wants has the hash of the file
abbrev any_hash : ServerConfig → String
any_hash c = "old"

abbrev sync_request : AgentSyncRequest
sync_request = record { server_id = "s1"; config_hash = "old"; agent_version = "1.0.6" }

abbrev restarted : List Event
restarted = xray_restarts ∷ []

abbrev sync_answer : AgentSyncResponse
sync_answer =
    sync_response any_hash sync_request
      (synced_config same_text env.now "s1" (enforce_billing env.now store.memory).0)

synced :
    (agent_sync same_text any_hash env post "secret" (some sync_request) store).1
    ≡ reply 200 sync_answer
unfolding agent_sync sync_server validate_agent_token lookup
synced = refl

agent_sync-settled_example :
    ((sync_answer.restart_required ≡ false)
      × (file_hash programs (history cfg programs restarted (start machine)).machine.running
          ≡ "old"))
    ⊎ ((sync_answer.restart_required ≡ true)
        × (◌≢◌ {A = String} "old" "old")
        × (sync_answer.xray_config
            ≡ synced_config same_text env.now "s1" (enforce_billing env.now store.memory).0)
        × (sync_answer.desired_config_hash ≡ "old"))
unfolding sent_hash history happen
agent_sync-settled_example =
    agent_sync-settled same_text any_hash env "secret" sync_request store sync_answer cfg programs
      restarted (start machine) (inr refl, inl refl) (λ c h. ground (arith, eq_iff "old" "")) refl
      synced

abbrev stats : List (String × String)
stats =
    ("user>>>client_c1>>>traffic>>>uplink", "\"150\"")
    ∷ ("user>>>client_c1>>>traffic>>>downlink", "")
    ∷ ("user>>>client_c2>>>traffic>>>uplink", "7")
    ∷ []

abbrev traffic : ClientTraffic
traffic = record { uplink = pos 150; downlink = pos 0 }

parsed : parse_traffic stats ≡ ok (("c1", traffic) ∷ [])
unfolding parse_traffic scan_digits
parsed = refl

parse_traffic-InRange_example : InRange (pos 150) × InRange (pos 0) × InRange (pos 150 +ℤ pos 0)
unfolding lookup
parse_traffic-InRange_example =
    parse_traffic-InRange stats (("c1", traffic) ∷ []) "c1" traffic parsed refl
