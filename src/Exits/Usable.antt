-- ===== src/Exits/Usable.antt =====
-- What is stored of landing exits can be used: a host, a port, a user and a password.
use yuchen_panel.Common.{
  ℕ, suc, ◌≡◌, ◌≢◌, String, false, ◌||◌, List, [], ◌∷◌, ℤ, pos, ◌≤ℤ◌, ltb_ℤ, ltb, arith, trim_space,
  Option, AllValues, AllValues-insert, AllValues-erase, ◌==◌, if◌then◌else◌, inl, inr, Bool-cases,
  Outcome, Outcome-cases, ok, err, fail_if-eq-ok, >>=-eq-ok, or_fail, ok-injective, has_prefix,
  split, subst,
}
use text.Mathlib.TextEquality.{eq_iff}
use yuchen_panel.Model.{Time, LandingExit, PanelData}
use yuchen_panel.Store.{Store, Env, normalize, save_locked, add_log, log_and_save}
use yuchen_panel.Exits.Normalize.{trim_exit, complete_exit, normalize_landing_exit}
use yuchen_panel.Exits.Handlers.{
  create_exit, created_exit, update_exit, updated_exit, delete_exit, exit_in_use, tested_exit,
  finish_exit_test,
}
use yuchen_panel.Exits.Bulk.{
  columns, in_line, exit_of, BulkState, bulk_exit, bulk_line, bulk_lines, bulk_landing_exits,
  split_bulk_line,
}

-- An exit that a relay can reach and that is no open proxy.
pub record IsUsable (e : LandingExit) : Type 0 where
  pub host : e.host ≢ ""
  pub port : (pos 1 ≤ℤ e.port) × (e.port ≤ℤ pos 65535)
  pub username : e.username ≢ ""
  pub password : e.password ≢ ""

complete_exit-IsUsable :
    (t : LandingExit)
    → (t.host == "") ≡ false
    → (ltb_ℤ t.port (pos 1) || ltb_ℤ (pos 65535) t.port) ≡ false
    → (t.username == "" || t.password == "") ≡ false
    → IsUsable (complete_exit t)
unfolding complete_exit
complete_exit-IsUsable t host port named = record {
  host = λ e. ground (arith, eq_iff t.host "");
  port = ground arith;
  username = λ e. ground (arith, eq_iff t.username "", eq_iff t.password "");
  password = λ e. ground (arith, eq_iff t.username "", eq_iff t.password "");
}

-- Normalisation accepts no other exits.
pub normalize_landing_exit-IsUsable :
    (e n : LandingExit) → normalize_landing_exit e ≡ ok n → IsUsable n
unfolding normalize_landing_exit
normalize_landing_exit-IsUsable e n h =
    let t = trim_exit e in
    let (host, h₁) = fail_if-eq-ok (t.host == "") _ _ h in
    let (port, h₂) = fail_if-eq-ok (ltb_ℤ t.port (pos 1) || ltb_ℤ (pos 65535) t.port) _ _ h₁ in
    let (named, h₃) = fail_if-eq-ok (t.username == "" || t.password == "") _ _ h₂ in
    subst IsUsable (ok-injective h₃) (complete_exit-IsUsable t host port named)

-- every exit of the panel
abbrev pub ExitsUsable : PanelData → Type 0
ExitsUsable d = AllValues IsUsable d.landing_exits

pub create_exit-ExitsUsable :
    (env : Env) (body : LandingExit) (s : Store)
    → ExitsUsable s.memory
    → ExitsUsable (create_exit env body s).0.memory
unfolding create_exit log_and_save add_log save_locked normalize
create_exit-ExitsUsable env body s h = elim (Outcome-cases (normalize_landing_exit body)) [
  | inl (e, q) ↦
      let u = normalize_landing_exit-IsUsable body e q in
      rw (create_exit, q)
        (AllValues-insert IsUsable env.new_id (created_exit env e) s.memory.landing_exits
          (record { host = u.host; port = u.port; username = u.username; password = u.password }) h)
  | inr (e, q) ↦ rw (create_exit, q) h
]

pub update_exit-ExitsUsable :
    (env : Env) (id : String) (item body : LandingExit) (s : Store)
    → ExitsUsable s.memory
    → ExitsUsable (update_exit env id item body s).0.memory
unfolding update_exit log_and_save add_log save_locked normalize
update_exit-ExitsUsable env id item body s h = elim (Outcome-cases (normalize_landing_exit body)) [
  | inl (e, q) ↦
      let u = normalize_landing_exit-IsUsable body e q in
      rw (update_exit, q)
        (AllValues-insert IsUsable id (updated_exit env id item e) s.memory.landing_exits
          (record { host = u.host; port = u.port; username = u.username; password = u.password }) h)
  | inr (e, q) ↦ rw (update_exit, q) h
]

pub delete_exit-ExitsUsable :
    (env : Env) (id : String) (item : LandingExit) (s : Store)
    → ExitsUsable s.memory
    → ExitsUsable (delete_exit env id item s).0.memory
unfolding delete_exit log_and_save add_log save_locked normalize
delete_exit-ExitsUsable env id item s h =
    elim (Bool-cases (exit_in_use item s.memory.relay_routes)) [
      | inl e ↦ rw (delete_exit, e, if◌then◌else◌) h
      | inr e ↦
          rw (delete_exit, e, if◌then◌else◌) (AllValues-erase IsUsable id s.memory.landing_exits h)
    ]

in_line-eq-ok : (n : ℕ) (m : Outcome LandingExit) (e : LandingExit) → in_line n m ≡ ok e → m ≡ ok e
in_line-eq-ok n (ok x) e h = h
in_line-eq-ok n (err x) e h = cc

bulk_exit-IsUsable :
    (atoi : String → Option ℤ) (n : ℕ) (parts : List String) (e : LandingExit)
    → bulk_exit atoi n parts ≡ ok e
    → IsUsable e
unfolding bulk_exit
bulk_exit-IsUsable atoi n parts e h =
    let (line, el, h₁) = >>=-eq-ok (or_fail (columns parts) _) _ h in
    let (port, ep, h₂) = >>=-eq-ok (or_fail (atoi (trim_space line.port)) _) _ h₁ in
    normalize_landing_exit-IsUsable (exit_of line port) e
      (in_line-eq-ok n (normalize_landing_exit (exit_of line port)) e h₂)

bulk_line-IsUsable :
    (atoi : String → Option ℤ) (env : Env) (id : String) (n : ℕ) (raw : String) (st : BulkState)
    → AllValues IsUsable st.exits
    → AllValues IsUsable (bulk_line atoi env id n raw st).exits
unfolding bulk_line
bulk_line-IsUsable atoi env id n raw st h =
    let line = trim_space raw in
    elim (Bool-cases (line == "" || has_prefix line "#")) [
      | inl skip ↦ rw (bulk_line, skip, if◌then◌else◌) h
      | inr keep ↦ elim (Outcome-cases (bulk_exit atoi n (split_bulk_line line))) [
        | inr (e, q) ↦ rw (bulk_line, keep, q, if◌then◌else◌) h
        | inl (e, q) ↦
            let u = bulk_exit-IsUsable atoi n (split_bulk_line line) e q in
            rw (bulk_line, keep, q, if◌then◌else◌)
              (AllValues-insert IsUsable id (created_exit (record env { new_id = id }) e) st.exits
                (record {
                  host = u.host;
                  port = u.port;
                  username = u.username;
                  password = u.password;
                })
                h)
      ]
    ]

bulk_lines-IsUsable :
    (atoi : String → Option ℤ) (env : Env) (fresh : ℕ → String) (n : ℕ) (lines : List String)
    (st : BulkState)
    → AllValues IsUsable st.exits
    → AllValues IsUsable (bulk_lines atoi env fresh n lines st).exits
unfolding bulk_lines
bulk_lines-IsUsable atoi env fresh n [] st h = h
bulk_lines-IsUsable atoi env fresh n (raw ∷ rest) st h =
    bulk_lines-IsUsable atoi env fresh (suc n) rest _
      (bulk_line-IsUsable atoi env (fresh n) n raw st h)

pub bulk_landing_exits-ExitsUsable :
    (atoi : String → Option ℤ) (env : Env) (fresh : ℕ → String) (text : String) (s : Store)
    → ExitsUsable s.memory
    → ExitsUsable (bulk_landing_exits atoi env fresh text s).0.memory
unfolding bulk_landing_exits log_and_save add_log save_locked normalize
bulk_landing_exits-ExitsUsable atoi env fresh text s h =
    let start : BulkState = record { exits = s.memory.landing_exits; created = 0; errors = [] } in
    let usable = bulk_lines-IsUsable atoi env fresh 1 (split text 10) start h in
    elim (Bool-cases (ltb 0 (bulk_lines atoi env fresh 1 (split text 10) start).created)) [
      | inl e ↦ rw (bulk_landing_exits, e, if◌then◌else◌) usable
      | inr e ↦ rw (bulk_landing_exits, e, if◌then◌else◌) usable
    ]

tested_exit-IsUsable :
    (now : Time) (item : LandingExit) (result : Outcome String)
    → IsUsable item
    → IsUsable (tested_exit now item result)
unfolding tested_exit
tested_exit-IsUsable now item (ok ip) u = record {
  host = u.host;
  port = u.port;
  username = u.username;
  password = u.password;
}
tested_exit-IsUsable now item (err e) u = record {
  host = u.host;
  port = u.port;
  username = u.username;
  password = u.password;
}

pub finish_exit_test-ExitsUsable :
    (env : Env) (id : String) (item : LandingExit) (result : Outcome String) (s : Store)
    → IsUsable item
    → ExitsUsable s.memory
    → ExitsUsable (finish_exit_test env id item result s).memory
unfolding finish_exit_test save_locked normalize
finish_exit_test-ExitsUsable env id item result s u h =
    AllValues-insert IsUsable id (tested_exit env.now item result) s.memory.landing_exits
      (tested_exit-IsUsable env.now item result u) h
