-- ===== src/Tests/ClientRuns.antt =====
-- The validation of clients at the small panel.
use yuchen_panel.Common.{◌≡◌, refl, [], ◌∷◌, ok, lookup, contains, trim_space}
use yuchen_panel.Model.{Client}
use yuchen_panel.Clients.{
  validate_client, clean_node_ids, clean_relay_ids, check_billing, cleaned_client,
}
use yuchen_panel.Clients.Bindings.{IsValidClient, validate_client-IsValidClient}
use yuchen_panel.Tests.Data.{client, panel}

-- the request names a node twice, with blanks around it
abbrev request : Client
request = record client { node_ids = " n2 " ∷ "" ∷ "n1" ∷ "n2" ∷ []; username = " alice " }

abbrev accepted : Client
accepted = cleaned_client request ("n2" ∷ "n1" ∷ []) ("r1" ∷ [])

run_validate : validate_client panel request ≡ ok accepted
unfolding validate_client clean_node_ids clean_relay_ids check_billing lookup contains trim_space
run_validate = refl

validate_client-IsValidClient_example : IsValidClient panel accepted
validate_client-IsValidClient_example =
    validate_client-IsValidClient panel request accepted run_validate
