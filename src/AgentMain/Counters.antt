-- ===== src/AgentMain/Counters.antt =====
-- The counters of Xray that the agent reports (agent/cmd/agent/traffic.go). The decoded JSON of a
-- query is a list of names and of the texts of values, where a value that is left out is empty.
use yuchen_panel.Common.{
  ℕ, zero, suc, ◌+◌, ◌/◌, ◌%◌, String, ◌&&◌, List, [], ◌∷◌, Map, lookup, insert, Option, none, some,
  ℤ, pos, ◌-ℤ◌, ltb_ℤ, leb_ℤ, max_int64, contains, eqb, append, itoa, strip_prefix, trim_prefix,
  has_prefix, trim_func, cons_head, ◌==◌, if◌then◌else◌, Outcome, ok, err, ◌>>=◌,
}
use yuchen_panel.Model.{ClientTraffic}
use yuchen_panel.Versions.Number.{atoi}

-- an inbound of the configuration, as far as `statsAddress` decodes it
pub record InboundAddress : Type 0 where
  pub tag : String
  pub listen : String
  pub port : ℤ

-- `statsAddress`, for a file that could be read and decoded
unfoldable pub stats_address : List InboundAddress → Outcome String
unfolding itoa
stats_address [] = err "loopback StatsService not configured"
stats_address (i ∷ inbounds) =
    let rest = stats_address inbounds in
    if i.tag == "api" && i.listen == "127.0.0.1" && ltb_ℤ (pos 0) i.port && leb_ℤ i.port (pos 65535)
    then ok (append "127.0.0.1:" (itoa i.port))
    else rest

-- strings.Split for a separator with more than one character; `skip` characters of the last
-- separator are still to come
unfoldable pub split_text : String → ℕ → ℕ → String → List String
unfolding strip_prefix
split_text sep more skip String.[] = String.[] ∷ []
split_text sep more (suc skip) (String.◌∷◌ c s) = split_text sep more skip s
split_text sep more zero (String.◌∷◌ c s) =
    let after = split_text sep more more s in
    let inside = cons_head c (split_text sep more zero s) in
    if has_prefix (String.◌∷◌ c s) sep then String.[] ∷ after else inside

pub data Direction : Type 0 where
  up down : Direction

abbrev direction_of : String → Option Direction
direction_of name =
    if name == "uplink" then some up else if name == "downlink" then some down else none

abbrev with_id : String → Option Direction → Option (String × Direction)
with_id id none = none
with_id id (some d) = if id == "" then none else some (id, d)

-- the client and the direction of a counter that is read
abbrev pub counter_of : List String → Option (String × Direction)
counter_of (user ∷ client ∷ traffic ∷ direction ∷ []) =
    if user == "user" && has_prefix client "client_" && traffic == "traffic"
    then with_id (trim_prefix client "client_") (direction_of direction)
    else none
counter_of _ = none

unfoldable pub named_counter : String → Option (String × Direction)
unfolding split_text strip_prefix
named_counter name = counter_of (split_text ">>>" 2 0 name)

abbrev pub not_negative : Option ℤ → Option ℤ
not_negative none = none
not_negative (some v) = if ltb_ℤ v (pos 0) then none else some v

-- the value, for which an empty text is 0; `none` is an invalid counter
unfoldable pub counter_value : String → Option ℤ
unfolding atoi trim_func
counter_value text =
    if text == "" then some (pos 0) else not_negative (atoi (trim_func (λ c. eqb c b'"') text))

abbrev pub set_direction : Direction → ℤ → ClientTraffic → ClientTraffic
set_direction up v c = record c { uplink = v }
set_direction down v c = record c { downlink = v }

-- `directions[id] |= 1` and `|= 2`
abbrev pub set_bit : Direction → ℕ → ℕ
set_bit up d = if eqb (d % 2) 0 then d + 1 else d
set_bit down d = if eqb (d / 2 % 2) 0 then d + 2 else d

-- The maps of `parseTraffic`.
pub record Counters : Type 0 where
  pub out : Map ClientTraffic
  pub seen : List String
  pub directions : Map ℕ

abbrev pub no_counters : Counters
no_counters = record { out = []; seen = []; directions = [] }

abbrev pub traffic_or_zero : Option ClientTraffic → ClientTraffic
traffic_or_zero none = record { uplink = pos 0; downlink = pos 0 }
traffic_or_zero (some c) = c

abbrev pub bits_or_zero : Option ℕ → ℕ
bits_or_zero none = 0
bits_or_zero (some d) = d

abbrev pub store_counter : String → Direction → ℤ → String → Counters → Outcome Counters
store_counter id d v name s =
    let c = set_direction d v (traffic_or_zero (lookup id s.out)) in
    if ltb_ℤ (pos max_int64 -ℤ c.downlink) c.uplink
    then err "stats total overflow"
    else ok (record {
      out = insert id c s.out;
      seen = name ∷ s.seen;
      directions = insert id (set_bit d (bits_or_zero (lookup id s.directions))) s.directions;
    })

abbrev pub add_valid : String → Direction → String → Option ℤ → Counters → Outcome Counters
add_valid id d name none s = err "invalid stats counter"
add_valid id d name (some v) s = store_counter id d v name s

abbrev pub add_named : String → String → Option (String × Direction) → Counters → Outcome Counters
add_named name text none s = ok s
add_named name text (some (id, d)) s =
    if contains s.seen name
    then err "duplicate stats counter"
    else add_valid id d name (counter_value text) s

-- one counter of the loop
unfoldable pub add_counter : String → String → Counters → Outcome Counters
unfolding named_counter counter_value lookup insert contains ◌-ℤ◌
add_counter name text s = add_named name text (named_counter name) s

unfoldable pub add_counters : List (String × String) → Counters → Outcome Counters
unfolding add_counter
add_counters [] s = ok s
add_counters ((name, text) ∷ stats) s = add_counter name text s >>= (λ s'. add_counters stats s')

-- the clients of which both directions were read
unfoldable pub complete : Map ℕ → Map ClientTraffic → Map ClientTraffic
unfolding lookup
complete directions [] = []
complete directions ((id, c) ∷ out) =
    let rest = complete directions out in
    if eqb (bits_or_zero (lookup id directions)) 3 then (id, c) ∷ rest else rest

abbrev pub complete_or_fail : Outcome Counters → Outcome (Map ClientTraffic)
complete_or_fail (err e) = err e
complete_or_fail (ok s) = ok (complete s.directions s.out)

-- `parseTraffic`
unfoldable pub parse_traffic : List (String × String) → Outcome (Map ClientTraffic)
unfolding add_counters complete
parse_traffic stats = complete_or_fail (add_counters stats no_counters)

abbrev same_epoch :
    String → Outcome String → Outcome (Map ClientTraffic) → Outcome (Map ClientTraffic × String)
same_epoch epoch after (err e) = err e
same_epoch epoch (err e) (ok traffic) = err "Xray restarted during stats query"
same_epoch epoch (ok after) (ok traffic) =
    if after == epoch then ok (traffic, epoch) else err "Xray restarted during stats query"

-- `collectXrayTraffic`: the epoch before the query, the answer of the query, and the epoch after it
unfoldable pub collect_xray_traffic :
    Outcome String
    → Outcome String
    → Outcome (List (String × String))
    → Outcome String
    → Outcome (Map ClientTraffic × String)
unfolding parse_traffic
collect_xray_traffic (err e) before answer after = err e
collect_xray_traffic (ok address) (err e) answer after = err e
collect_xray_traffic (ok address) (ok epoch) (err e) after =
    err (append "StatsService query failed: " e)
collect_xray_traffic (ok address) (ok epoch) (ok stats) after =
    same_epoch epoch after (parse_traffic stats)
