-- ===== src/Upgrades/Checked.antt =====
-- What the guards of an upgrade mean (backend/internal/api/upgrade_tasks.go, `runningUpgradeTask` and
-- `safePackageName`; updates.go, `isRemoteVersionNewer`).
use Prim.Native.Char.{code}
use text.Mathlib.TextEquality.{eq_iff}
use text.Mathlib.TextLemmas.{cons-append, nil-append}
use yuchen_panel.Common.{
  ◌≡◌, ◌≢◌, ◌⊎◌, ◌≤◌, ◌<◌, ◌+◌, ◌*◌, refl, sym, ℕ, String, true, false, ◌||◌, List, [], ◌∷◌, none,
  some, pos, ltb_ℤ, All, contains, append, strip_suffix, strip_prefix, trim_space, split,
  all_digits, scan_digits, has_infix, ◌==◌, if◌then◌else◌, arith, inl, inr, Bool-cases,
  Option-cases,
}
use yuchen_panel.Store.{panel_version}
use yuchen_panel.Versions.{
  SemanticVersion, parse_semantic_version, compare_semantic_version, compare_prerelease,
}
use yuchen_panel.Versions.Number.{cut}
use yuchen_panel.Versions.Order.{some-injective}
use yuchen_panel.Upgrades.Compare.{is_remote_version_newer, compare_panel_versions}
use yuchen_panel.Upgrades.Manifest.{is_blank}
use yuchen_panel.Upgrades.Task.{
  UpgradeEnv, StateFile, all_chars, is_word_char, is_package_char, safe_package_name,
  is_active_upgrade_status, is_overdue, updated_time, running_upgrade_task,
  normalize_upgrade_task_state,
}

-- the code points of letters, digits, and "+", "-", "." and "_"
abbrev pub IsPlainChar : ℕ → Type 0
IsPlainChar n =
    ((48 ≤ n) × (n ≤ 57))
    ⊎ ((65 ≤ n) × (n ≤ 90))
    ⊎ ((97 ≤ n) × (n ≤ 122))
    ⊎ (n ≡ 43)
    ⊎ (n ≡ 45)
    ⊎ (n ≡ 46)
    ⊎ (n ≡ 95)

abbrev pub IsPlain : String → Type 0
IsPlain String.[] = Unit
IsPlain (String.◌∷◌ c s) = IsPlainChar (code c) × IsPlain s

-- A plain name of an archive: one or more plain characters and ".zip", and nowhere "..".
abbrev pub IsArchiveName : String → Type 0
IsArchiveName name =
    (stem : String) × (name ≡ append stem ".zip")
    × (stem ≢ "")
    × IsPlain stem
    × (has_infix name ".." ≡ false)

package_char-IsPlainChar : (n : ℕ) → is_package_char n ≡ true → IsPlainChar n
unfolding is_word_char
package_char-IsPlainChar n h = ground arith

all_chars-IsPlain : (s : String) → all_chars is_package_char s ≡ true → IsPlain s
unfolding all_chars
all_chars-IsPlain String.[] h = tt
all_chars-IsPlain (String.◌∷◌ c s) h =
    (package_char-IsPlainChar (code c) (ground arith), all_chars-IsPlain s (ground arith))

strip_suffix-append : (p s stem : String) → strip_suffix p s ≡ some stem → s ≡ append stem p
unfolding strip_suffix
strip_suffix-append p String.[] stem h = elim (Bool-cases (p == "")) [
  | inl e ↦
      let nothing : "" ≡ stem = some-injective (rw (e, if◌then◌else◌) at h) in
      let whole : p ≡ "" = (eq_iff p "").0 e in rw (sym nothing, nil-append p, whole) refl
  | inr e ↦ absurd (let bad = rw (e, if◌then◌else◌) at h in cc)
]
strip_suffix-append p (String.◌∷◌ c s) stem h = elim (Bool-cases (p == String.◌∷◌ c s)) [
  | inl e ↦
      let nothing : "" ≡ stem = some-injective (rw (e, if◌then◌else◌) at h) in
      let whole : p ≡ String.◌∷◌ c s = (eq_iff p (String.◌∷◌ c s)).0 e in
      rw (sym nothing, nil-append p, whole) refl
  | inr e ↦ elim (Option-cases (strip_suffix p s)) [
    | inl gone ↦ absurd (let bad = rw (e, gone, if◌then◌else◌) at h in cc)
    | inr (r, found) ↦
        let same : String.◌∷◌ c r ≡ stem = some-injective (rw (e, found, if◌then◌else◌) at h) in
        rw (sym same, cons-append c r p, sym (strip_suffix-append p s r found)) refl
  ]
]

pub safe-IsArchiveName : (name : String) → safe_package_name name ≡ true → IsArchiveName name
unfolding safe_package_name
safe-IsArchiveName name h =
    elim (Bool-cases (has_infix name "/" || has_infix name ".." || is_blank name)) [
      | inl e ↦ absurd (let bad = rw (e, if◌then◌else◌) at h in cc)
      | inr e ↦ elim (Option-cases (strip_suffix ".zip" name)) [
        | inl gone ↦ absurd (let bad = rw (e, gone, if◌then◌else◌) at h in cc)
        | inr (stem, found) ↦
            let good = rw (e, found, if◌then◌else◌) at h in
            (
              stem,
              strip_suffix-append ".zip" name stem found,
              λ empty. ground (arith, eq_iff stem ""),
              all_chars-IsPlain stem (ground arith),
              ground arith,
            )
      ]
    ]

-- the numbers of a version after those of the running one, 1.0.6
abbrev pub IsAfterRunning : SemanticVersion → Type 0
IsAfterRunning v =
    (1 < v.major)
    ⊎ ((v.major ≡ 1) × (0 < v.minor))
    ⊎ ((v.major ≡ 1) × (v.minor ≡ 0) × (6 < v.patch))

abbrev running_version : SemanticVersion
running_version = record { major = 1; minor = 0; patch = 6; pre = "" }

running_parsed : parse_semantic_version panel_version ≡ some running_version
unfolding parse_semantic_version strip_prefix trim_space split cut all_digits scan_digits
running_parsed = refl

prerelease_not_after : (pre : String) → ltb_ℤ (pos 0) (compare_prerelease pre "") ≡ false
unfolding compare_prerelease
prerelease_not_after pre = ground arith

compared-IsAfterRunning :
    (v : SemanticVersion)
    → ltb_ℤ (pos 0) (compare_semantic_version v running_version) ≡ true
    → IsAfterRunning v
unfolding compare_semantic_version
compared-IsAfterRunning v h = ground (arith, prerelease_not_after v.pre)

pub newer-IsAfterRunning :
    (target : String) (v : SemanticVersion)
    → is_remote_version_newer target panel_version ≡ true
    → parse_semantic_version target ≡ some v
    → IsAfterRunning v
unfolding is_remote_version_newer compare_panel_versions
newer-IsAfterRunning target v h parsed =
    compared-IsAfterRunning v (rw (parsed, running_parsed) at h)

-- the words for a task at work
abbrev pub active_statuses : List String
active_statuses =
    "pending" ∷ "running" ∷ "queued" ∷ "downloading" ∷ "verifying" ∷ "backing_up" ∷ "installing"
    ∷ "restarting" ∷ []

-- No upgrade is at work: there is no task, or it is not in one of the eight states, or was marked
-- as stale, or has a time of update that is more than ten minutes back.
abbrev pub IsIdle : UpgradeEnv → StateFile → Type 0
IsIdle env none = Unit
IsIdle env (some s) =
    All (λ status. s.status ≢ status) active_statuses
    ⊎ (s.is_stale ≡ true)
    ⊎ ((updated_time env s ≢ 0) × (updated_time env s + 10 * 60 * 1000000000 < env.now))

contains-All : (l : List String) (v : String) → contains l v ≡ false → All (λ item. v ≢ item) l
unfolding contains
contains-All [] v h = tt
contains-All (item ∷ l) v h = elim (Bool-cases (item == v)) [
  | inl e ↦ absurd (ground arith)
  | inr e ↦ (λ same. ground (arith, eq_iff item v), contains-All l v (ground arith))
]

pub unblocked-IsIdle :
    (env : UpgradeEnv) (file : StateFile)
    → (running_upgrade_task env file).0 ≡ false
    → IsIdle env file
unfolding running_upgrade_task normalize_upgrade_task_state is_overdue is_active_upgrade_status
unblocked-IsIdle env none h = tt
unblocked-IsIdle env (some s) h = elim (Bool-cases (contains active_statuses s.status)) [
  | inr e ↦ inl (contains-All active_statuses s.status e)
  | inl e ↦ elim (Bool-cases (is_overdue env s)) [
    | inl late ↦ inr (inr (ground arith))
    | inr fresh ↦ inr (inl (let idle = rw (fresh, if◌then◌else◌, e) at h in ground (arith, idle)))
  ]
]
