-- ===== src/AgentMain/Confirmed.antt =====
-- What the agent tells the panel about the configuration in force (agent/cmd/agent/main.go).
use yuchen_panel.Common.{
  ◌⊎◌, inl, inr, ◌≡◌, refl, ap, sym, ◌∙◌, ℕ, zero, suc, All, String, Bool, true, false, ◌&&◌, List,
  [], ◌∷◌, if◌then◌else◌, Outcome, ok, err, Bool-cases,
}
use yuchen_panel.Places.{true_is_not_false}
use yuchen_panel.AgentMain.Apply.{AgentConfig, Machine, Programs, Calls, Change, apply_xray_config}
use yuchen_panel.AgentMain.Loop.{
  AgentState, SyncAnswer, file_hash, sent_hash, last_or, applied, change_of, after_sync, round,
  states_of, start, nth_state, Event, passes, killed, xray_restarts, happen, history,
}
use yuchen_panel.AgentMain.Careful.{Confirmed, Careful, apply_xray_config-Careful}

-- The variable of `main` knows of the marker.
abbrev pub Known : AgentState → Type 0
Known w = Confirmed w.machine × ((w.machine.pending ≡ false) ⊎ (w.reload_pending ≡ true))

last_or-All :
    (m : Machine) (states : List Machine)
    → Confirmed m
    → All Confirmed states
    → Confirmed (last_or m states)
last_or-All m [] now later = now
last_or-All m (s ∷ states) now (first, later) = last_or-All s states first later

nth_state-All :
    (n : ℕ) (m : Machine) (states : List Machine)
    → Confirmed m
    → All Confirmed states
    → Confirmed (nth_state n m states)
nth_state-All zero m states now later = now
nth_state-All (suc n) m [] now later = now
nth_state-All (suc n) m (s ∷ states) now (first, later) = nth_state-All n s states first later

Careful-states : (m : Machine) (change : Change) → Careful m change → All Confirmed change.0
Careful-states m (states, err e) later = later
Careful-states m (states, ok done) (later, clear) = later

applied-Known :
    (m : Machine) (desired : String) (change : Change)
    → Confirmed m
    → Careful m change
    → Known (applied m desired change)
applied-Known m desired (states, err e) now later = (last_or-All m states now later, inr refl)
applied-Known m desired (states, ok done) now (later, clear) =
    (last_or-All m states now later, inl clear)

if-Known : (c : Bool) (a b : AgentState) → Known a → Known b → Known (if c then a else b)
if-Known true a b known_a known_b = known_a
if-Known false a b known_a known_b = known_b

after_sync-Known :
    (cfg : AgentConfig) (programs : Programs) (calls : Calls) (synced : Outcome SyncAnswer)
    (w : AgentState)
    → Known w
    → Known (after_sync cfg programs calls synced w)
after_sync-Known cfg programs calls (err e) w known = known
after_sync-Known cfg programs calls (ok answer) w known =
    let change = apply_xray_config cfg programs calls answer.xray_config w.machine in
    if-Known answer.restart_required _ _
      (if-Known cfg.apply_config (applied w.machine answer.desired_config_hash change) _
        (applied-Known w.machine answer.desired_config_hash change known.0
          (apply_xray_config-Careful cfg programs calls answer.xray_config w.machine known.0))
        known)
      known

change_of-All :
    (cfg : AgentConfig) (programs : Programs) (calls : Calls) (synced : Outcome SyncAnswer)
    (m : Machine)
    → Confirmed m
    → All Confirmed (change_of cfg programs calls synced m).0
change_of-All cfg programs calls (err e) m now = tt
change_of-All cfg programs calls (ok answer) m now =
    elim (Bool-cases (answer.restart_required && cfg.apply_config)) [
      | inr e ↦ rw (e, if◌then◌else◌) tt
      | inl e ↦
          rw (e, if◌then◌else◌)
            (Careful-states m (apply_xray_config cfg programs calls answer.xray_config m)
              (apply_xray_config-Careful cfg programs calls answer.xray_config m now))
    ]

start-Known : (m : Machine) → Confirmed m → Known (start m)
start-Known m now = elim (Bool-cases m.pending) [ inl e ↦ (now, inr e) | inr e ↦ (now, inl e) ]

happen-Known :
    (cfg : AgentConfig) (programs : Programs) (e : Event) (w : AgentState)
    → Known w
    → Known (happen cfg programs e w)
unfolding happen round states_of
happen-Known cfg programs (passes r) w known = elim (Bool-cases r.heartbeat_taken) [
  | inr e ↦ rw (e, if◌then◌else◌) known
  | inl e ↦ rw (e, if◌then◌else◌) (after_sync-Known cfg programs r.calls r.synced w known)
]
happen-Known cfg programs (killed r n) w known = elim (Bool-cases r.heartbeat_taken) [
  | inr e ↦ rw (e, if◌then◌else◌) (start-Known _ (nth_state-All n w.machine [] known.0 tt))
  | inl e ↦
      let states = (change_of cfg programs r.calls r.synced w.machine).0 in
      rw (e, if◌then◌else◌)
        (start-Known _ (
          nth_state-All n w.machine states known.0
            (change_of-All cfg programs r.calls r.synced w.machine known.0)))
]
happen-Known cfg programs xray_restarts w known = (inr refl, known.1)

history-Known :
    (cfg : AgentConfig) (programs : Programs) (events : List Event) (w : AgentState)
    → Known w
    → Known (history cfg programs events w)
unfolding history
history-Known cfg programs [] w known = known
history-Known cfg programs (e ∷ events) w known =
    history-Known cfg programs events (happen cfg programs e w)
      (happen-Known cfg programs e w known)

sent_hash-Known :
    (programs : Programs) (w : AgentState)
    → Known w
    → (sent_hash programs w ≡ "") ⊎ (sent_hash programs w ≡ file_hash programs w.machine.running)
unfolding sent_hash
sent_hash-Known programs w (now, flag) = elim (Bool-cases w.reload_pending) [
  | inl e ↦ rw (e, if◌then◌else◌) (inl refl)
  | inr e ↦ rw (e, if◌then◌else◌) (inr (runs now flag e))
]
  where
    runs :
        Confirmed w.machine
        → ((w.machine.pending ≡ false) ⊎ (w.reload_pending ≡ true))
        → w.reload_pending ≡ false
        → file_hash programs w.machine.config ≡ file_hash programs w.machine.running
    runs now (inr set) clear = absurd (true_is_not_false (sym set ∙ clear))
    runs (inl marked) (inl unmarked) clear = absurd (true_is_not_false (sym marked ∙ unmarked))
    runs (inr same) (inl unmarked) clear = ap (file_hash programs) (sym same)

-- The hash that the agent sends with a sync is that of the configuration that Xray runs, or empty,
-- which asks the panel for the configuration again: after any rounds, with whatever calls failed,
-- after the agent was killed between any two changes of the server and started again, and after
-- Xray restarted on its own; where at first Xray runs what is in the file, or the marker is there,
-- and the agent knows of the marker.
pub history-sent_hash :
    (cfg : AgentConfig) (programs : Programs) (events : List Event) (w : AgentState)
    → Known w
    → (sent_hash programs (history cfg programs events w) ≡ "")
      ⊎ (sent_hash programs (history cfg programs events w)
          ≡ file_hash programs (history cfg programs events w).machine.running)
history-sent_hash cfg programs events w known =
    sent_hash-Known programs (history cfg programs events w)
      (history-Known cfg programs events w known)
