-- ===== src/Policies/History.antt =====
-- The two policies of the panel are one step of history: what is in force, and what was before.
use yuchen_panel.Common.{◌≡◌, refl, ap, ◌∙◌, subst, String, Bool, true, false, List, [], ◌∷◌}
use yuchen_panel.Model.{NetworkPolicy, PanelData}
use yuchen_panel.Store.{Store, Env, normalize, save_locked, add_log}
use yuchen_panel.Store.Policy.{normalize_network_policy}
use yuchen_panel.Policies.Normalize.{normalize_policy_for_api}
use yuchen_panel.Policies.Handlers.{
  PolicyBody, save_detail, rollback_detail, stamped, when_saved, store_policies,
  network_policy_save, network_policy_rollback,
}
use yuchen_panel.Policies.Texts.{KnownIpv6}
use yuchen_panel.Policies.Settled.{
  normalize_policy_idem, normalize-stored, normalize-KnownIpv6, normalize_stamped,
}

-- a request that changes a policy: the address it comes from, and what it asks for
pub data PolicyStep : Type 0 where
  save : String → String → NetworkPolicy → PolicyStep
  rollback : String → PolicyStep

abbrev pub policy_step : Env → PolicyStep → Store → Store
policy_step env (save remote_addr confirm body) s =
    (network_policy_save env remote_addr confirm body s).0
policy_step env (rollback remote_addr) s = (network_policy_rollback env remote_addr s).0

abbrev pub policy_steps : List (Env × PolicyStep) → Store → Store
policy_steps [] s = s
policy_steps ((env, step) ∷ rest) s = policy_steps rest (policy_step env step s)

-- The specification: the policy in force and the one before, without the time and the author.
pub record History : Type 0 where
  pub current : NetworkPolicy
  pub previous : NetworkPolicy

abbrev pub unstamped : NetworkPolicy → NetworkPolicy
unstamped p = record p { updated_at = 0; updated_by = "" }

abbrev pub history_step : PolicyStep → History → History
history_step (save remote_addr confirm body) h = record {
  current = unstamped (normalize_policy_for_api body);
  previous = h.current;
}
history_step (rollback remote_addr) h = record { current = h.previous; previous = h.current }

abbrev pub history_steps : List (Env × PolicyStep) → History → History
history_steps [] h = h
history_steps ((env, step) ∷ rest) h = history_steps rest (history_step step h)

-- what the status page shows of the stored policies
abbrev pub history_of : PanelData → History
history_of d = record {
  current = unstamped (normalize_policy_for_api d.network_policy);
  previous = unstamped (normalize_policy_for_api d.network_policy_backup);
}

abbrev pub KnownPolicies : PanelData → Type 0
KnownPolicies d =
    KnownIpv6 d.network_policy.ipv6_strategy × KnownIpv6 d.network_policy_backup.ipv6_strategy

abbrev pub KnownSteps : List (Env × PolicyStep) → Type 0
KnownSteps [] = Unit
KnownSteps ((env, save remote_addr confirm body) ∷ rest) =
    KnownIpv6 body.ipv6_strategy × KnownSteps rest
KnownSteps ((env, rollback remote_addr) ∷ rest) = KnownSteps rest

when_saved-store : {B : Type 0} (r : Store × Bool) (body : B) → (when_saved r body).0 ≡ r.0
when_saved-store (s, true) body = refl
when_saved-store (s, false) body = refl

-- a normalised policy with a stamp is stored as it is
stored_stamped :
    (env : Env) (p : NetworkPolicy)
    → normalize_network_policy (stamped env (normalize_policy_for_api p))
      ≡ stamped env (normalize_policy_for_api p)
stored_stamped env p =
    subst (λ q. normalize_network_policy q ≡ q) (normalize_stamped p env.now env.actor)
      (normalize-stored (stamped env p))

-- what the page shows of it
shown_stamped :
    (env : Env) (p : NetworkPolicy)
    → KnownIpv6 p.ipv6_strategy
    → unstamped (normalize_policy_for_api (stamped env (normalize_policy_for_api p)))
      ≡ unstamped (normalize_policy_for_api p)
shown_stamped env p h =
    rw (normalize_stamped (normalize_policy_for_api p) env.now env.actor, normalize_policy_idem p h)
      refl

-- the policies that a change stores
stores :
    (env : Env) (remote_addr action detail : String) (current backup : NetworkPolicy) (s : Store)
    → let d = (store_policies env remote_addr action detail current backup s).0.memory in
      (d.network_policy ≡ normalize_network_policy current)
      × (d.network_policy_backup ≡ normalize_network_policy backup)
unfolding store_policies save_locked normalize add_log
stores env remote_addr action detail current backup s = (refl, refl)

-- a change to the normalised policies `a` and `b`
changed :
    (env : Env) (remote_addr action detail : String) (a b : NetworkPolicy) (s : Store)
    → KnownIpv6 a.ipv6_strategy
    → KnownIpv6 b.ipv6_strategy
    → let d =
        (store_policies env remote_addr action detail
          (stamped env (normalize_policy_for_api a))
          (normalize_policy_for_api b)
          s).0.memory in
      (history_of d ≡ record {
        current = unstamped (normalize_policy_for_api a);
        previous = unstamped (normalize_policy_for_api b);
      })
      × KnownPolicies d
changed env remote_addr action detail a b s ha hb =
    let (first, second) =
      stores env remote_addr action detail (stamped env (normalize_policy_for_api a))
        (normalize_policy_for_api b) s in
    rw (first, second, stored_stamped env a, normalize-stored b)
      (
        rw (shown_stamped env a ha, normalize_policy_idem b hb) refl,
        (normalize-KnownIpv6 a, normalize-KnownIpv6 b),
      )

-- one change follows the specification
step-refines :
    (env : Env) (step : PolicyStep) (rest : List (Env × PolicyStep)) (s : Store)
    → KnownPolicies s.memory
    → KnownSteps ((env, step) ∷ rest)
    → (history_of (policy_step env step s).memory ≡ history_step step (history_of s.memory))
      × KnownPolicies (policy_step env step s).memory
      × KnownSteps rest
unfolding network_policy_save network_policy_rollback
step-refines env (save remote_addr confirm body) rest s (now, before) (known, more) =
    let old = normalize_policy_for_api s.memory.network_policy in
    let p = stamped env (normalize_policy_for_api body) in
    let action : String = "network_policy_apply" in
    let (a, b) =
      changed env remote_addr action (save_detail old p) body s.memory.network_policy s known now in
    rw
      (when_saved-store {B = PolicyBody}
        (store_policies env remote_addr action (save_detail old p) p old s) _)
      (a, b, more)
step-refines env (rollback remote_addr) rest s (now, before) more =
    let p = stamped env (normalize_policy_for_api s.memory.network_policy_backup) in
    let old = normalize_policy_for_api s.memory.network_policy in
    let action : String = "network_policy_rollback" in
    let (a, b) =
      changed env remote_addr action (rollback_detail p) s.memory.network_policy_backup
        s.memory.network_policy s before now in
    rw
      (when_saved-store {B = PolicyBody}
        (store_policies env remote_addr action (rollback_detail p) p old s) _)
      (a, b, more)

-- Any sequence of saves and rollbacks does to the policies what the specification says: a save
-- moves the policy in force to the place of the previous one, and a rollback exchanges the two,
-- whether or not the file can be written, where the IPv6 strategies are known ones.
pub policy_steps-refines :
    (steps : List (Env × PolicyStep)) (s : Store)
    → KnownPolicies s.memory
    → KnownSteps steps
    → history_of (policy_steps steps s).memory ≡ history_steps steps (history_of s.memory)
policy_steps-refines [] s stored asked = refl
policy_steps-refines ((env, step) ∷ rest) s stored asked =
    let (here, stored', asked') = step-refines env step rest s stored asked in
    policy_steps-refines rest (policy_step env step s) stored' asked' ∙ ap (history_steps rest) here
