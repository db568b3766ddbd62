-- ===== src/Upgrades/Freed.antt =====
-- Clearing the upgrade task, and the next upgrade.
use text.Mathlib.TextEquality.{eq_iff}
use yuchen_panel.Common.{
  ◌≡◌, refl, ℕ, String, Bool, true, false, not, ◌&&◌, ◌||◌, none, some, ◌==◌, if◌then◌else◌,
  contains, ok, arith, inl, inr, Bool-cases,
}
use yuchen_panel.Http.{post}
use yuchen_panel.Store.{panel_version}
use yuchen_panel.Versions.{version_matches_target}
use yuchen_panel.Upgrades.Task.{
  UpgradeTask, UpgradeEnv, StateFile, is_active_upgrade_status, is_overdue, is_running, recovered,
  stale, touched, normalize_upgrade_task_state, running_upgrade_task, write_upgrade_task_state,
}
use yuchen_panel.Upgrades.Handlers.{clear_normalized, cleared, update_task_clear_stale}

-- every write of the request goes through
abbrev pub Writable : UpgradeEnv → Type 0
Writable env = (n : ℕ) → env.task_written n ≡ ok tt

-- whether a request finds a running task
abbrev pub is_blocked : UpgradeEnv → StateFile → Bool
is_blocked env file = (running_upgrade_task env file).0

settled_inactive :
    (t : String) → (t == "success" || t == "failed") ≡ true → is_active_upgrade_status t ≡ false
unfolding is_active_upgrade_status contains
settled_inactive t h = elim (Bool-cases (t == "success")) [
  | inl e ↦ rw ((eq_iff t "success").0 e) refl
  | inr e ↦ rw ((eq_iff t "failed").0 (ground (arith, h))) refl
]

inactive_free :
    (env : UpgradeEnv) (s : UpgradeTask)
    → is_active_upgrade_status s.status ≡ false
    → is_blocked env (some s) ≡ false
unfolding running_upgrade_task normalize_upgrade_task_state is_overdue
inactive_free env s h = rw (h, if◌then◌else◌, h) refl

other_order : (a b : Bool) → (a && not b) ≡ false → (not b && a) ≡ false
other_order a b h = ground arith

clear_normalized-free :
    (env later : UpgradeEnv) (task : UpgradeTask) (file : StateFile)
    → Writable env
    → is_running task ≡ false
    → ((task.status == "success" || task.status == "failed") ≡ true → is_blocked later file ≡ false)
    → is_blocked later (clear_normalized env task file).0 ≡ false
unfolding clear_normalized write_upgrade_task_state is_active_upgrade_status
clear_normalized-free env later task file writes idle h =
    let idle' = other_order (is_active_upgrade_status task.status) task.is_stale idle in
    elim (Bool-cases (task.status == "success" || task.status == "failed")) [
      | inl settled ↦ rw (idle', if◌then◌else◌, settled, if◌then◌else◌) (h settled)
      | inr open_ ↦
          rw (idle', if◌then◌else◌, open_, if◌then◌else◌, writes 1)
            (inactive_free later (touched env (cleared env task)) refl)
    ]

clear_some-free :
    (env later : UpgradeEnv) (s : UpgradeTask)
    → Writable env
    → is_blocked env (some s) ≡ false
    → is_blocked later (update_task_clear_stale env post (some s)).0 ≡ false
unfolding update_task_clear_stale normalize_upgrade_task_state running_upgrade_task
    write_upgrade_task_state
clear_some-free env later s writes idle = elim (Bool-cases (is_overdue env s)) [
  | inr fresh ↦
      rw (fresh, if◌then◌else◌)
        (clear_normalized-free env later s (some s) writes (rw (fresh, if◌then◌else◌) at idle)
          (λ settled. inactive_free later s (settled_inactive s.status settled)))
  | inl overdue ↦ elim (Bool-cases (version_matches_target panel_version s.target_version)) [
    | inl reached ↦
        rw (overdue, if◌then◌else◌, reached, if◌then◌else◌, writes 0)
          (clear_normalized-free env later (recovered env s) _ writes refl
            (λ settled. inactive_free later (touched env (recovered env s)) refl))
    | inr behind ↦
        rw (overdue, if◌then◌else◌, behind, if◌then◌else◌)
          (clear_normalized-free env later (stale s) (some s) writes
            (rw (overdue, if◌then◌else◌, behind, if◌then◌else◌) at idle)
            (λ settled. inactive_free later s (settled_inactive s.status settled)))
  ]
]

-- After a clearing whose writes go through, no request at any later time is blocked by the task,
-- where the task was not blocking at the time of the clearing: it had ended, or had not been
-- updated for ten minutes.
pub clear_stale-frees :
    (env later : UpgradeEnv) (file : StateFile)
    → Writable env
    → is_blocked env file ≡ false
    → is_blocked later (update_task_clear_stale env post file).0 ≡ false
unfolding update_task_clear_stale running_upgrade_task
clear_stale-frees env later none writes idle = refl
clear_stale-frees env later (some s) writes idle = clear_some-free env later s writes idle
