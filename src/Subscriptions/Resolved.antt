-- ===== src/Subscriptions/Resolved.antt =====
-- The outbounds of a sing-box configuration.
use yuchen_panel.Common.{
  ◌≡◌, refl, sym, ap, ◌∙◌, String, true, false, List, [], ◌∷◌, ◌++◌, map, contains, All,
  All-map_weaken, keep_if, ◌==◌, if◌then◌else◌, arith, inl, inr, Bool-cases,
}
use mathlib.Core.List.{map-append}
use text.Mathlib.TextEquality.{eq_iff}
use yuchen_panel.Model.{Client, Node, RelayRoute, NetworkPolicy}
use yuchen_panel.Places.{true_is_not_false}
use yuchen_panel.Clients.Bindings.{DistinctFrom}
use yuchen_panel.Xray.Among.{map-compose, contains-cons}
use yuchen_panel.Subscriptions.Names.{unique_subscription_names, reserved_names}
use yuchen_panel.Subscriptions.Unique.{names, unique_subscription_names_distinct}
use yuchen_panel.Subscriptions.SingBox.{
  BoxOutbound, selector, proxy, direct, box_tag, BoxNode, sing_box_node, relay_node, box_outbounds,
  first_or_direct, is_visible, is_active, build_sing_box_subscription,
}

-- whatever the shorter list holds, the longer one does
abbrev Within : List String → List String → Type 0
Within xs ys = (v : String) → contains ys v ≡ false → contains xs v ≡ false

Within-cons : (x : String) (xs ys : List String) → Within xs ys → Within (x ∷ xs) (x ∷ ys)
unfolding contains
Within-cons x xs ys h v e = elim (Bool-cases (x == v)) [
  | inl same ↦ absurd (ground arith)
  | inr other ↦ rw (other, if◌then◌else◌) (h v (rw (other, if◌then◌else◌) at e))
]

not_last :
    (seen seen' : List String) (x last : String)
    → contains seen last ≡ true
    → contains seen x ≡ false
    → contains seen' last ≡ false
    → contains (x ∷ seen') last ≡ false
unfolding contains
not_last seen seen' x last reserved new free = elim (Bool-cases (x == last)) [
  | inr other ↦ rw (other, if◌then◌else◌) free
  | inl e ↦
      let same : x ≡ last = (eq_iff x last).0 e in
      absurd (true_is_not_false (sym reserved ∙ (ap (contains seen) (sym same) ∙ new)))
]

-- a reserved text may be put behind texts that are distinct from the reserved ones
DistinctFrom-snoc :
    (seen' seen xs : List String) (last : String)
    → Within seen' seen
    → contains seen last ≡ true
    → contains seen' last ≡ false
    → DistinctFrom seen xs
    → DistinctFrom seen' (xs ++ (last ∷ []))
unfolding contains
DistinctFrom-snoc seen' seen [] last within reserved free d = (free, tt)
DistinctFrom-snoc seen' seen (x ∷ xs) last within reserved free (new, d) = (
  within x new,
  DistinctFrom-snoc (x ∷ seen') (x ∷ seen) xs last (Within-cons x seen' seen within)
      (contains-cons x seen last reserved) (not_last seen seen' x last reserved new free) d,
)

abbrev pub box_choices : BoxOutbound → List String
box_choices (selector choices selected) = selected ∷ choices
box_choices (proxy n) = []
box_choices direct = []

-- the choices of every selector, and its default, are tags of the outbounds
abbrev pub IsSelectable : List BoxOutbound → Type 0
IsSelectable outbounds =
    All (λ o. All (λ t. contains (map box_tag outbounds) t ≡ true) (box_choices o)) outbounds

abbrev tags_of : List BoxNode → List String
tags_of = map (λ n. n.tag)

box_tags :
    (proxies : List BoxNode)
    → map box_tag (box_outbounds proxies) ≡ "PROXY" ∷ (tags_of proxies ++ ("direct" ∷ []))
unfolding box_outbounds
box_tags proxies =
    ap (λ ts. "PROXY" ∷ ts)
      (map-append box_tag (map proxy proxies) (direct ∷ [])
        ∙ ap (λ ts. ts ++ ("direct" ∷ [])) (map-compose box_tag proxy proxies))

reserved-Within : Within ("PROXY" ∷ []) reserved_names
unfolding contains
reserved-Within v h = ground arith

box_outbounds-distinct :
    (proxies : List BoxNode)
    → DistinctFrom reserved_names (tags_of proxies)
    → DistinctFrom [] (map box_tag (box_outbounds proxies))
unfolding contains
box_outbounds-distinct proxies d = rw (box_tags proxies) (
  refl,
  DistinctFrom-snoc ("PROXY" ∷ []) reserved_names (tags_of proxies) "direct" reserved-Within refl
      refl d,
)

pub All-contains : (xs : List String) → All (λ x. contains xs x ≡ true) xs
unfolding contains
All-contains [] = tt
All-contains (x ∷ xs) = (
  rw ((eq_iff x x).1 refl, if◌then◌else◌) refl,
  All-map_weaken (λ y. contains xs y ≡ true) (λ y. contains (x ∷ xs) y ≡ true) xs
      (λ y. contains-cons x xs y) (All-contains xs),
)

first_or_direct-contains :
    (ts : List String) → contains (ts ++ ("direct" ∷ [])) (first_or_direct ts) ≡ true
unfolding contains
first_or_direct-contains [] = refl
first_or_direct-contains (t ∷ ts) = rw ((eq_iff t t).1 refl, if◌then◌else◌) refl

no_choices :
    (P : String → Type 0) (proxies : List BoxNode)
    → All (λ o. All P (box_choices o)) (map proxy proxies ++ (direct ∷ []))
no_choices P [] = (tt, tt)
no_choices P (n ∷ proxies) = (tt, no_choices P proxies)

box_outbounds-IsSelectable : (proxies : List BoxNode) → IsSelectable (box_outbounds proxies)
unfolding box_outbounds
box_outbounds-IsSelectable proxies =
    let ts = tags_of proxies in
    let all = ts ++ ("direct" ∷ []) in
    let P : String → Type 0 = λ t. contains (map box_tag (box_outbounds proxies)) t ≡ true in
    let found : (t : String) → contains all t ≡ true → P t =
      λ t h. rw (box_tags proxies) (contains-cons "PROXY" all t h) in
    (
      (
        found (first_or_direct ts) (first_or_direct-contains ts),
        All-map_weaken (λ t. contains all t ≡ true) P all found (All-contains all),
      ),
      no_choices P proxies,
    )

proxies_of : (String → String) → Client → List Node × List RelayRoute → List BoxNode
proxies_of sha256_hex c (nodes, relays) =
    map (sing_box_node sha256_hex c) nodes
    ++ map (λ r. sing_box_node sha256_hex c (relay_node r)) relays

proxies_of-names :
    (sha256_hex : String → String) (c : Client) (both : List Node × List RelayRoute)
    → tags_of (proxies_of sha256_hex c both) ≡ names both
unfolding proxies_of sing_box_node
proxies_of-names sha256_hex c (nodes, relays) =
    rw
      (
        map-append (λ n. n.tag) (map (sing_box_node sha256_hex c) nodes)
            (map (λ r. sing_box_node sha256_hex c (relay_node r)) relays),
        map-compose (λ n. n.tag) (sing_box_node sha256_hex c) nodes,
        map-compose (λ n. n.tag) (λ r. sing_box_node sha256_hex c (relay_node r)) relays,
      )
      refl

-- In a sing-box configuration the tags of the outbounds are different from each other, and what its
-- selector offers and selects are tags of outbounds, whatever the names of the nodes and relay
-- routes are.
pub build_sing_box_subscription-IsSelectable :
    (sha256_hex : String → String) (nodes : List Node) (relays : List RelayRoute) (c : Client)
    (policy : NetworkPolicy)
    → let outbounds = (build_sing_box_subscription sha256_hex nodes relays c policy).outbounds in
      DistinctFrom [] (map box_tag outbounds) × IsSelectable outbounds
unfolding build_sing_box_subscription proxies_of
build_sing_box_subscription-IsSelectable sha256_hex nodes relays c policy =
    let visible = keep_if is_visible nodes in
    let active = keep_if is_active relays in
    let proxies = proxies_of sha256_hex c (unique_subscription_names visible active) in
    (
      box_outbounds-distinct proxies (
          rw (proxies_of-names sha256_hex c (unique_subscription_names visible active))
            (unique_subscription_names_distinct visible active)),
      box_outbounds-IsSelectable proxies,
    )
