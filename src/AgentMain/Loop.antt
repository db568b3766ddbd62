-- ===== src/AgentMain/Loop.antt =====
-- The loop of the agent (agent/cmd/agent/main.go, `main`): one round after another, and what ends
-- in between.
use yuchen_panel.Common.{
  ℕ, zero, suc, String, Bool, true, false, ◌&&◌, ltb_ℤ, ℤ, pos, List, [], ◌∷◌, Option, none, some,
  append, if◌then◌else◌, Outcome, ok, err,
}
use yuchen_panel.AgentMain.Apply.{AgentConfig, Machine, Programs, Calls, Change, apply_xray_config}

-- The state of the agent: the server, and the variables of `main`.
pub record AgentState : Type 0 where
  pub machine : Machine
  pub reload_pending : Bool
  pub last_message : String

-- `SyncResponse`
pub record SyncAnswer : Type 0 where
  pub restart_required : Bool
  pub desired_config_hash : String
  pub xray_config : Option String
  pub next_interval_seconds : ℤ

-- What a round meets: whether the heartbeat was taken, what the sync returned, and the calls of a
-- change.
pub record Round : Type 0 where
  pub heartbeat_taken : Bool
  pub synced : Outcome SyncAnswer
  pub calls : Calls

-- `fileHash`
abbrev pub file_hash : Programs → Option String → String
file_hash programs none = ""
file_hash programs (some raw) = programs.sum raw

-- the hash in the request of a sync
unfoldable pub sent_hash : Programs → AgentState → String
sent_hash programs w =
    let hash = file_hash programs w.machine.config in if w.reload_pending then "" else hash

abbrev pub last_or : {A : Type 0} → A → List A → A
last_or x [] = x
last_or x (y ∷ ys) = last_or y ys

abbrev pub applied : Machine → String → Change → AgentState
applied m desired (states, err e) = record {
  machine = last_or m states;
  reload_pending = true;
  last_message = append "apply failed: " e;
}
applied m desired (states, ok done) = record {
  machine = last_or m states;
  reload_pending = false;
  last_message = append "config applied: " desired;
}

-- the change that a round makes
abbrev pub change_of : AgentConfig → Programs → Calls → Outcome SyncAnswer → Machine → Change
change_of cfg programs calls (err e) m = ([], ok tt)
change_of cfg programs calls (ok answer) m =
    if answer.restart_required && cfg.apply_config
    then apply_xray_config cfg programs calls answer.xray_config m
    else ([], ok tt)

abbrev pub after_sync :
    AgentConfig → Programs → Calls → Outcome SyncAnswer → AgentState → AgentState
after_sync cfg programs calls (err e) w = record w { last_message = append "sync failed: " e }
after_sync cfg programs calls (ok answer) w =
    if answer.restart_required
    then if cfg.apply_config
      then applied w.machine answer.desired_config_hash
          (apply_xray_config cfg programs calls answer.xray_config w.machine)
      else record w { last_message = "config changed but apply disabled" }
    else record w { last_message = "config already up to date" }

-- one round of the loop
unfoldable pub round : AgentConfig → Programs → Round → AgentState → AgentState
unfolding apply_xray_config
round cfg programs r w = if r.heartbeat_taken then after_sync cfg programs r.calls r.synced w else w

-- how long the loop sleeps, in seconds
unfoldable pub pause : ℤ → Round → ℤ
pause interval r = elim r.synced [
  | err e ↦ interval
  | ok answer ↦
      if r.heartbeat_taken && ltb_ℤ (pos 0) answer.next_interval_seconds
      then answer.next_interval_seconds
      else interval
]

-- the states of the server during a round
unfoldable pub states_of : AgentConfig → Programs → Round → Machine → List Machine
unfolding apply_xray_config
states_of cfg programs r m =
    if r.heartbeat_taken then (change_of cfg programs r.calls r.synced m).0 else []

-- `main` up to the loop
abbrev pub start : Machine → AgentState
start m = record { machine = m; reload_pending = m.pending; last_message = "agent started" }

abbrev pub nth_state : ℕ → Machine → List Machine → Machine
nth_state zero m states = m
nth_state (suc n) m [] = m
nth_state (suc n) m (s ∷ states) = nth_state n s states

-- What happens on a server: a round of the loop, a round in which the agent is killed after `n`
-- changes of the server and then started again, and a restart of Xray, which reads its file.
pub data Event : Type 0 where
  passes : Round → Event
  killed : Round → ℕ → Event
  xray_restarts : Event

unfoldable pub happen : AgentConfig → Programs → Event → AgentState → AgentState
unfolding round states_of
happen cfg programs (passes r) w = round cfg programs r w
happen cfg programs (killed r n) w =
    start (nth_state n w.machine (states_of cfg programs r w.machine))
happen cfg programs xray_restarts w = record w {
  machine = record (w.machine) { running = w.machine.config };
}

unfoldable pub history : AgentConfig → Programs → List Event → AgentState → AgentState
unfolding happen
history cfg programs [] w = w
history cfg programs (e ∷ events) w = history cfg programs events (happen cfg programs e w)
