-- ===== src/Agent/Served.antt =====
-- Who is in the configuration that a sync serves.
use yuchen_panel.Common.{
  ◌≡◌, Bool, true, [], ◌∷◌, Map, values, keep_if, All, AllValues, if◌then◌else◌, inl, inr,
  Bool-cases,
}
use yuchen_panel.Model.{Time, Client, PanelData}
use yuchen_panel.Traffic.{enforce_billing}
use yuchen_panel.Traffic.Billing.{HasTime, HasTraffic, IsEnforced, enforce_billing-IsEnforced}
use yuchen_panel.Xray.Among.{All-sort_by}
use yuchen_panel.Agent.Sync.{less_client, synced_clients}

-- enabled, with time and traffic left
abbrev pub MayConnect : Time → Client → Type 0
MayConnect now c = (c.enabled ≡ true) × HasTime now c × HasTraffic c

All-keep_if-values :
    {V : Type 0} (P Q : V → Type 0) (p : V → Bool)
    → ((v : V) → Q v → p v ≡ true → P v)
    → (m : Map V) → AllValues Q m
    → All P (keep_if p (values m))
unfolding keep_if values
All-keep_if-values P Q p h [] a = tt
All-keep_if-values P Q p h ((id, v) ∷ m) a = elim (Bool-cases (p v)) [
  | inl e ↦ rw (e, if◌then◌else◌) (h v a.0 e, All-keep_if-values P Q p h m a.1)
  | inr e ↦ rw (e, if◌then◌else◌) (All-keep_if-values P Q p h m a.1)
]

-- The clients from which a sync generates the configuration are enabled and have time and traffic
-- left, whatever was stored before the sync.
synced_clients-MayConnect :
    (now : Time) (d : PanelData)
    → All (MayConnect now) (synced_clients (enforce_billing now d).0.clients)
unfolding synced_clients
synced_clients-MayConnect now d = All-sort_by (MayConnect now) less_client _ (
    All-keep_if-values (MayConnect now) (IsEnforced now) (λ c. c.enabled)
      (λ c q e. let left = q e in (e, left.0, left.1)) (enforce_billing now d).0.clients
      (enforce_billing-IsEnforced now d))
