-- ===== src/Tests/VersionRuns.antt =====
-- Versions of releases and prereleases.
use yuchen_panel.Common.{
  ◌≡◌, ◌↔◌, refl, sym, true, some, arith, pos, split, itoa, strip_prefix, strip_suffix, trim_space,
  scan_digits, all_digits,
}
use yuchen_panel.Versions.{
  SemanticVersion, parse_semantic_version, compare_semantic_version, version_matches_target,
  version_number, version_numbers, prerelease, parse_release_id,
}
use yuchen_panel.Versions.Number.{atoi, cut}
use yuchen_panel.Versions.Order.{opposite, version_matches_target_iff}
use yuchen_panel.Versions.Antisymmetry.{CanonicalIdentifier, compare_semantic_version-opposite}

abbrev first_candidate : SemanticVersion
first_candidate = record { major = 1; minor = 0; patch = 3; pre = "rc.1" }

abbrev second_candidate : SemanticVersion
second_candidate = record { major = 1; minor = 0; patch = 3; pre = "rc.2" }

run_parse : parse_semantic_version " v1.0.3-rc.1" ≡ some first_candidate
unfolding parse_semantic_version version_numbers version_number prerelease cut split trim_space
    strip_prefix scan_digits all_digits
run_parse = refl

run_release : parse_release_id "1.0.2-stable" ≡ some ("1.0.2", "stable")
unfolding parse_release_id trim_space strip_suffix
run_release = refl

word-CanonicalIdentifier : CanonicalIdentifier "rc"
unfolding atoi strip_prefix scan_digits
word-CanonicalIdentifier n h = cc

one-CanonicalIdentifier : CanonicalIdentifier "1"
unfolding atoi strip_prefix scan_digits itoa
one-CanonicalIdentifier n h = let same : pos 1 ≡ n = ground arith in rw (sym same) refl

two-CanonicalIdentifier : CanonicalIdentifier "2"
unfolding atoi strip_prefix scan_digits itoa
two-CanonicalIdentifier n h = let same : pos 2 ≡ n = ground arith in rw (sym same) refl

compare_semantic_version-opposite_example :
    compare_semantic_version second_candidate first_candidate
    ≡ opposite (compare_semantic_version first_candidate second_candidate)
unfolding split
compare_semantic_version-opposite_example =
    compare_semantic_version-opposite first_candidate second_candidate
      (word-CanonicalIdentifier, (one-CanonicalIdentifier, tt))
      (word-CanonicalIdentifier, (two-CanonicalIdentifier, tt))

version_matches_target_iff_example : (version_matches_target "1.0" "v1.0.0-stable" ≡ true) ↔ (
    (v : SemanticVersion) × (parse_semantic_version "1.0" ≡ some v)
    × (parse_semantic_version "v1.0.0-stable" ≡ some v))
version_matches_target_iff_example = version_matches_target_iff "1.0" "v1.0.0-stable"
