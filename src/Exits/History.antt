-- ===== src/Exits/History.antt =====
-- Requests to the exits in any order, where a test of an exit begins and ends at different times:
-- it lets go of the lock in between.
use yuchen_panel.Common.{
  ℕ, ◌≡◌, refl, String, true, false, List, [], ◌∷◌, Map, ℤ, arith, lookup, lookup-insert_self,
  lookup-erase, insert, erase, Option, none, some, AllValues, AllValues-insert, AllValues-erase,
  AllValues-lookup, inl, inr, Bool-cases, Option-cases, if◌then◌else◌, Outcome,
}
use text.Mathlib.TextEquality.{eq_iff}
use yuchen_panel.Model.{LandingExit, RelayRoute}
use yuchen_panel.Http.{is_success}
use yuchen_panel.Store.{Store, Env, normalize, save_locked, log_and_save}
use yuchen_panel.Exits.Handlers.{
  create_exit, update_exit, delete_exit, exit_in_use, leads_to, tested_exit, finish_exit_test,
}
use yuchen_panel.Exits.Bulk.{bulk_landing_exits}
use yuchen_panel.Exits.Usable.{
  IsUsable, ExitsUsable, create_exit-ExitsUsable, update_exit-ExitsUsable, delete_exit-ExitsUsable,
  bulk_landing_exits-ExitsUsable, finish_exit_test-ExitsUsable,
}

-- the store, and what the tests that have begun have read
pub record Running : Type 0 where
  pub store : Store
  pub reads : Map LandingExit

pub data ExitStep : Type 0 where
  create : LandingExit → ExitStep
  change : String → LandingExit → ExitStep
  remove : String → ExitStep
  import_text : (ℕ → String) → String → ExitStep
  begin_test : String → ExitStep
  finish_test : String → Outcome String → ExitStep

module _ (atoi : String → Option ℤ) where
  unfoldable pub exit_step : Env → ExitStep → Running → Running
  exit_step env (create body) r = record r { store = (create_exit env body r.store).0 }
  exit_step env (change id body) r = elim (lookup id r.store.memory.landing_exits) [
    | none ↦ r
    | some item ↦ record r { store = (update_exit env id item body r.store).0 }
  ]
  exit_step env (remove id) r = elim (lookup id r.store.memory.landing_exits) [
    | none ↦ r
    | some item ↦ record r { store = (delete_exit env id item r.store).0 }
  ]
  exit_step env (import_text fresh text) r = record r {
    store = (bulk_landing_exits atoi env fresh text r.store).0;
  }
  exit_step env (begin_test id) r = elim (lookup id r.store.memory.landing_exits) [
    | none ↦ r
    | some item ↦ record r { reads = insert id item r.reads }
  ]
  exit_step env (finish_test id result) r = elim (lookup id r.reads) [
    | none ↦ r
    | some item ↦ record {
      store = finish_exit_test env id item result r.store;
      reads = erase id r.reads;
    }
  ]

  unfoldable pub exit_steps : List (Env × ExitStep) → Running → Running
  exit_steps [] r = r
  exit_steps ((env, step) ∷ rest) r = exit_steps rest (exit_step env step r)

  -- what the store holds and what the tests hold can be used
  abbrev pub RunningUsable : Running → Type 0
  RunningUsable r = ExitsUsable r.store.memory × AllValues IsUsable r.reads

  exit_step-RunningUsable :
      (env : Env) (step : ExitStep) (r : Running)
      → RunningUsable r
      → RunningUsable (exit_step env step r)
  unfolding exit_step
  exit_step-RunningUsable env (create body) r h =
      (create_exit-ExitsUsable env body r.store h.0, h.1)
  exit_step-RunningUsable env (change id body) r h =
      elim (Option-cases (lookup id r.store.memory.landing_exits)) [
        | inl gone ↦ rw (exit_step, gone) h
        | inr (item, found) ↦
            rw (exit_step, found) (update_exit-ExitsUsable env id item body r.store h.0, h.1)
      ]
  exit_step-RunningUsable env (remove id) r h =
      elim (Option-cases (lookup id r.store.memory.landing_exits)) [
        | inl gone ↦ rw (exit_step, gone) h
        | inr (item, found) ↦
            rw (exit_step, found) (delete_exit-ExitsUsable env id item r.store h.0, h.1)
      ]
  exit_step-RunningUsable env (import_text fresh text) r h =
      (bulk_landing_exits-ExitsUsable atoi env fresh text r.store h.0, h.1)
  exit_step-RunningUsable env (begin_test id) r h =
      elim (Option-cases (lookup id r.store.memory.landing_exits)) [
        | inl gone ↦ rw (exit_step, gone) h
        | inr (item, found) ↦
            rw (exit_step, found)
              (
                h.0,
                AllValues-insert IsUsable id item r.reads
                    (AllValues-lookup IsUsable id r.store.memory.landing_exits h.0 found) h.1,
              )
      ]
  exit_step-RunningUsable env (finish_test id result) r h =
      elim (Option-cases (lookup id r.reads)) [
        | inl gone ↦ rw (exit_step, gone) h
        | inr (item, found) ↦
            rw (exit_step, found)
              (
                finish_exit_test-ExitsUsable env id item result r.store
                    (AllValues-lookup IsUsable id r.reads h.1 found) h.0,
                AllValues-erase IsUsable id r.reads h.1,
              )
      ]

  -- Whatever is created, changed, removed, imported from text or tested, in any order, every
  -- stored exit has a host, a port in range, a user name and a password.
  pub exit_steps-RunningUsable :
      (steps : List (Env × ExitStep)) (r : Running)
      → RunningUsable r
      → RunningUsable (exit_steps steps r)
  unfolding exit_steps
  exit_steps-RunningUsable [] r h = h
  exit_steps-RunningUsable ((env, step) ∷ rest) r h =
      exit_steps-RunningUsable rest (exit_step env step r) (exit_step-RunningUsable env step r h)

-- no route of the map leads to the exit
unused :
    (item : LandingExit) (relays : Map RelayRoute)
    → exit_in_use item relays ≡ false
    → AllValues (λ rr. leads_to item rr ≡ false) relays
unfolding exit_in_use
unused item [] h = tt
unused item ((id, rr) ∷ rest) h = elim (Bool-cases (leads_to item rr)) [
  | inl e ↦ absurd (ground arith)
  | inr e ↦ (e, unused item rest (ground arith))
]

-- An exit is deleted only if no SOCKS5 relay route leads to it.
delete_exit_unused :
    (env : Env) (id : String) (item : LandingExit) (s : Store)
    → is_success (delete_exit env id item s).1 ≡ true
    → AllValues (λ rr. leads_to item rr ≡ false) (delete_exit env id item s).0.memory.relay_routes
unfolding delete_exit log_and_save save_locked normalize
delete_exit_unused env id item s h = elim (Bool-cases (exit_in_use item s.memory.relay_routes)) [
  | inl e ↦ absurd (ground arith)
  | inr e ↦ rw (delete_exit, e, if◌then◌else◌) (unused item s.memory.relay_routes e)
]

-- the step that removes an exit that no route leads to
erased : {V : Type 0} (id : String) (m : Map V) → lookup id (erase id m) ≡ none
erased id m = rw (lookup-erase id id m, (eq_iff id id).1 refl, if◌then◌else◌) refl

remove-step :
    (atoi : String → Option ℤ) (env : Env) (id : String) (stored : LandingExit) (r : Running)
    → lookup id r.store.memory.landing_exits ≡ some stored
    → exit_in_use stored r.store.memory.relay_routes ≡ false
    → ((exit_step atoi env (remove id) r).reads ≡ r.reads)
      × (lookup id (exit_step atoi env (remove id) r).store.memory.landing_exits ≡ none)
unfolding exit_step delete_exit log_and_save save_locked normalize
remove-step atoi env id stored r found unused =
    rw (exit_step, found, delete_exit, unused, if◌then◌else◌)
      (refl, erased id r.store.memory.landing_exits)

-- An exit that is stored and that no SOCKS5 relay route leads to is gone once it is deleted; if a
-- test of it had begun before, it is stored again when the test ends.
pub deleted_exit_returns :
    (atoi : String → Option ℤ) (env env' : Env) (id : String) (stored item : LandingExit)
    (result : Outcome String) (r : Running)
    → lookup id r.store.memory.landing_exits ≡ some stored
    → exit_in_use stored r.store.memory.relay_routes ≡ false
    → lookup id r.reads ≡ some item
    → (lookup id (exit_steps atoi ((env, remove id) ∷ []) r).store.memory.landing_exits ≡ none)
      × (lookup id
            (exit_steps atoi
              ((env, remove id) ∷ (env', finish_test id result) ∷ [])
              r).store.memory.landing_exits
          ≡ some (tested_exit env'.now item result))
unfolding exit_steps exit_step finish_exit_test save_locked normalize
deleted_exit_returns atoi env env' id stored item result r found unused begun =
    let (same, gone) = remove-step atoi env id stored r found unused in
    let kept : lookup id (exit_step atoi env (remove id) r).reads ≡ some item = rw (same) begun in
    (gone, rw (exit_step, kept) (lookup-insert_self id (tested_exit env'.now item result) _))
