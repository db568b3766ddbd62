-- ===== src/Exits/Bulk.antt =====
-- `bulkLandingExits`: one exit for each line of a text.
use yuchen_panel.Common.{
  ℕ, suc, String, false, ◌||◌, Option, none, some, List, [], ◌∷◌, Map, ℤ, pos, ltb, map, insert,
  append, itoa, trim_space, split, has_prefix, has_infix, ◌==◌, if◌then◌else◌, Outcome, ok, err,
  ◌>>=◌, or_fail,
}
use yuchen_panel.Model.{LandingExit, PanelData}
use yuchen_panel.Store.{Store, Env, log_and_save}
use yuchen_panel.Exits.Normalize.{normalize_landing_exit}
use yuchen_panel.Exits.Handlers.{created_exit}

abbrev pub clean_parts : List String → List String
clean_parts parts = map trim_space parts

unfoldable pub split_bulk_line : String → List String
split_bulk_line line =
    if has_infix line "|" then clean_parts (split line b'|') else clean_parts (split line b',')

-- the columns of a line; the last two may be missing
pub record Columns : Type 0 where
  pub name : String
  pub host : String
  pub port : String
  pub username : String
  pub password : String
  pub region : String
  pub remark : String

abbrev pub first_or_empty : List String → String
first_or_empty [] = ""
first_or_empty (x ∷ xs) = x

abbrev pub columns : List String → Option Columns
columns (name ∷ host ∷ port ∷ username ∷ password ∷ rest) = some (record {
  name = name;
  host = host;
  port = port;
  username = username;
  password = password;
  region = first_or_empty rest;
  remark = elim rest [ [] ↦ "" | _ ∷ more ↦ first_or_empty more ];
})
columns _ = none

abbrev pub exit_of : Columns → ℤ → LandingExit
exit_of line port = record {
  id = "";
  name = line.name;
  host = line.host;
  port = port;
  username = line.username;
  password = line.password;
  udp = false;
  region = line.region;
  provider = "";
  bandwidth_mbps = pos 0;
  remark = line.remark;
  enabled = false;
  last_test_ip = "";
  last_test_msg = "";
  last_test_at = 0;
  created_at = 0;
  updated_at = 0;
}

abbrev pub numbered : ℕ → String → String
numbered n rest = append "第" (append (itoa (pos n)) (append "行" rest))

-- the error of line `n`
abbrev pub in_line : ℕ → Outcome LandingExit → Outcome LandingExit
in_line n (ok e) = ok e
in_line n (err e) = err (numbered n (append "：" e))

-- the exit of the line with number `n`; `atoi` is `strconv.Atoi`
unfoldable pub bulk_exit : (String → Option ℤ) → ℕ → List String → Outcome LandingExit
bulk_exit atoi n parts = do
  line ← or_fail (columns parts) (numbered n "格式错误，应为：名称,IP,端口,账号,密码[,地区,备注]")
  port ← or_fail (atoi (trim_space line.port)) (numbered n "端口错误")
  in_line n (normalize_landing_exit (exit_of line port))

-- what is made of the lines: the exits stored so far, how many, and the errors
pub record BulkState : Type 0 where
  pub exits : Map LandingExit
  pub created : ℕ
  pub errors : List String

abbrev pub append_error : List String → String → List String
append_error [] e = e ∷ []
append_error (x ∷ xs) e = x ∷ append_error xs e

-- one line of the text; `id` is the identifier that `NewID` would draw for it
unfoldable pub bulk_line : (String → Option ℤ) → Env → String → ℕ → String → BulkState → BulkState
bulk_line atoi env id n raw st =
    let line = trim_space raw in
    if line == "" || has_prefix line "#"
    then st
    else elim (bulk_exit atoi n (split_bulk_line line)) [
      | err e ↦ record st { errors = append_error st.errors e }
      | ok e ↦ record st {
        exits = insert id (created_exit (record env { new_id = id }) e) st.exits;
        created = suc st.created;
      }
    ]

-- the loop over the lines, of which the first has number `n`; `fresh n` is the identifier for it
unfoldable pub bulk_lines :
    (String → Option ℤ) → Env → (ℕ → String) → ℕ → List String → BulkState → BulkState
bulk_lines atoi env fresh n [] st = st
bulk_lines atoi env fresh n (raw ∷ rest) st =
    bulk_lines atoi env fresh (suc n) rest (bulk_line atoi env (fresh n) n raw st)

-- `bulkLandingExits` for a POST with a valid body
unfoldable pub bulk_landing_exits :
    (String → Option ℤ) → Env → (ℕ → String) → String → Store → Store × (ℕ × List String)
bulk_landing_exits atoi env fresh text s =
    let d = s.memory in
    let start : BulkState = record { exits = d.landing_exits; created = 0; errors = [] } in
    let done = bulk_lines atoi env fresh 1 (split text 10) start in
    let d' : PanelData = record d { landing_exits = done.exits } in
    let s' =
      if ltb 0 done.created
      then log_and_save env "exit.bulk" (append "created=" (itoa (pos done.created))) d' s
      else record s { memory = d' } in
    (s', (done.created, done.errors))
