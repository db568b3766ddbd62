-- ===== src/Tests/PolicyRuns.antt =====
-- Policies that are saved and rolled back at the small panel.
use yuchen_panel.Common.{◌≡◌, refl, List, [], ◌∷◌}
use yuchen_panel.Model.{NetworkPolicy}
use yuchen_panel.Store.{Env}
use yuchen_panel.Store.Policy.{normalize_network_policy}
use yuchen_panel.Xray.Policy.{policy_in_force}
use yuchen_panel.Policies.Normalize.{normalize_policy_for_api}
use yuchen_panel.Policies.Settled.{normalize_policy_in_force}
use yuchen_panel.Policies.History.{
  PolicyStep, save, rollback, policy_steps, history_of, history_steps, policy_steps-refines,
}
use yuchen_panel.Tests.Data.{policy, env, store}

abbrev strict : NetworkPolicy
strict = record policy { mode = "strict"; dns_servers = "9.9.9.9" ∷ [] }

normalize_policy_in_force_example :
    policy_in_force (normalize_network_policy (normalize_policy_for_api strict))
    ≡ normalize_policy_for_api strict
normalize_policy_in_force_example = normalize_policy_in_force strict

-- the strict policy is saved, then rolled back
abbrev steps : List (Env × PolicyStep)
steps = (env, save "192.0.2.1:4000" "" strict) ∷ (env, rollback "192.0.2.1:4000") ∷ []

policy_steps-refines_example :
    history_of (policy_steps steps store).memory ≡ history_steps steps (history_of store.memory)
policy_steps-refines_example = policy_steps-refines steps store (refl, refl) (refl, tt)
