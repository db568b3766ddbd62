-- ===== src/Tests/PanelRuns.antt =====
-- A run of requests at the small panel.
use yuchen_panel.Common.{String, refl, some, none, List, [], ◌∷◌, lookup, Option}
use yuchen_panel.Model.{Time}
use yuchen_panel.Http.{post, delete}
use yuchen_panel.Store.{Env}
use yuchen_panel.Servers.Hosting.{IsHosted}
use yuchen_panel.Panel.Links.{IsLinked}
use yuchen_panel.Panel.Invariants.{run-IsLinked, run-IsHosted}
use yuchen_panel.Panel.Router.{
  Request, clients_request, node_request_by_id, relay_request_by_id, run,
}
use yuchen_panel.Tests.Data.{client, panel, store, env, keys}

abbrev same_text : String → String
same_text t = t

abbrev no_time : String → Option Time
no_time t = none

-- the first client is copied, then a node and the route that both clients use are deleted
abbrev requests : List (Env × Request)
requests =
    (env, clients_request post (some client))
    ∷ (env, node_request_by_id delete "n1" none)
    ∷ (env, relay_request_by_id delete "r1" none)
    ∷ []

panel-IsLinked : IsLinked panel
unfolding lookup
panel-IsLinked = (((refl, (refl, tt)), (refl, tt)), (((refl, tt), tt), tt))

run-IsLinked_example : IsLinked (run same_text no_time keys requests store).memory
run-IsLinked_example = run-IsLinked same_text no_time keys requests store panel-IsLinked

panel-IsHosted : IsHosted panel
unfolding lookup
panel-IsHosted = (refl, (refl, tt))

run-IsHosted_example : IsHosted (run same_text no_time keys requests store).memory
run-IsHosted_example = run-IsHosted same_text no_time keys requests store panel-IsHosted
