-- ===== src/Subscriptions/Unique.antt =====
-- The names of a subscription are all different, and none of them is reserved.
use Prim.Native.Char.{code}
use yuchen_panel.Common.{
  ℕ, zero, suc, ◌≤◌, ◌<◌, ◌≡◌, refl, ap, ◌∙◌, String, Bool, true, false, List, [], ◌∷◌, ◌++◌, map,
  Option, none, some, pos, append, itoa, strip_prefix, scan_digits, scan_digits-itoa, contains,
  length, keep_if, leb, eqb, ◌==◌, if◌then◌else◌, arith, inl, inr, Bool-cases,
}
use text.Mathlib.TextEquality.{eq_iff}
use text.Mathlib.TextLemmas.{cons-append, nil-append}
use yuchen_panel.Model.{Node, RelayRoute}
use yuchen_panel.Nodes.{or_text}
use yuchen_panel.Clients.Bindings.{DistinctFrom}
use yuchen_panel.Subscriptions.Names.{
  numbered, free_name, unique_name, reserved_names, name_nodes, name_relays, node_share_name,
  unique_subscription_names,
}

eqb_self : (n : ℕ) → eqb n n ≡ true
eqb_self n = ground arith

-- the number behind the base and a space
abbrev scan_rest : Option String → Option ℕ
scan_rest none = none
scan_rest (some rest) = scan_digits 0 rest

abbrev number_of : String → String → Option ℕ
number_of base s = scan_rest (strip_prefix (append base " ") s)

space-append : (rest : String) → append " " rest ≡ String.◌∷◌ " " rest
space-append rest = cons-append " " "" rest ∙ ap (String.◌∷◌ " ") (nil-append rest)

strip_prefix-append :
    (base rest : String)
    → strip_prefix (append base " ") (append base (append " " rest)) ≡ some rest
unfolding strip_prefix
strip_prefix-append String.[] rest =
    rw (nil-append " ", nil-append (append " " rest), space-append rest) refl
strip_prefix-append (String.◌∷◌ c base) rest =
    rw
      (
        cons-append c base " ",
        cons-append c base (append " " rest),
        eqb_self (code c),
        if◌then◌else◌,
        strip_prefix-append base rest,
      )
      refl

strip_prefix_self : (base : String) → strip_prefix (append base " ") base ≡ none
unfolding strip_prefix
strip_prefix_self String.[] = ap (λ t. strip_prefix t String.[]) (nil-append " ")
strip_prefix_self (String.◌∷◌ c base) =
    rw (cons-append c base " ", eqb_self (code c), if◌then◌else◌, strip_prefix_self base) refl

number_of-numbered : (base : String) (n : ℕ) → number_of base (numbered base n) ≡ some n
number_of-numbered base n =
    ap scan_rest (strip_prefix-append base (itoa (pos n))) ∙ scan_digits-itoa n

number_of_self : (base : String) → number_of base base ≡ none
number_of_self base = ap scan_rest (strip_prefix_self base)

-- the name has a number that is not below `n`
abbrev at_least : ℕ → Option ℕ → Bool
at_least n none = false
at_least n (some m) = leb n m

-- how many of the names have such a number
abbrev count_from : List String → String → ℕ → ℕ
count_from used base n = length (keep_if (λ u. at_least n (number_of base u)) used)

at_least-suc : (n : ℕ) (m : Option ℕ) → at_least (suc n) m ≡ true → at_least n m ≡ true
at_least-suc n none h = h
at_least-suc n (some m) h = ground arith

module _ {A : Type 0} (p q : A → Bool) (h : (x : A) → q x ≡ true → p x ≡ true) where
  length-keep_if_mono : (xs : List A) → length (keep_if q xs) ≤ length (keep_if p xs)
  unfolding keep_if
  length-keep_if_mono [] = omega arith
  length-keep_if_mono (x ∷ xs) = ground (arith, h x, length-keep_if_mono xs)

-- fewer names pass a test that one of them fails
length-keep_if-lt :
    (q : String → Bool) (v : String)
    → q v ≡ false
    → (p : String → Bool) → ((x : String) → q x ≡ true → p x ≡ true)
    → p v ≡ true
    → (xs : List String) → contains xs v ≡ true
    → length (keep_if q xs) < length (keep_if p xs)
unfolding keep_if contains
length-keep_if-lt q v fails p h passes [] found = absurd (cc)
length-keep_if-lt q v fails p h passes (x ∷ xs) found = elim (Bool-cases (x == v)) [
  | inl e ↦
      let same : x ≡ v = (eq_iff x v).0 e in
      rw (same, fails, passes, if◌then◌else◌)
        (let mono = length-keep_if_mono p q h xs in omega arith)
  | inr e ↦
      let rest = length-keep_if-lt q v fails p h passes xs (rw (e, if◌then◌else◌) at found) in
      ground (arith, h x)
]

count_from-suc-lt :
    (used : List String) (base : String) (n : ℕ)
    → contains used (numbered base n) ≡ true
    → count_from used base (suc n) < count_from used base n
count_from-suc-lt used base n found =
    length-keep_if-lt (λ u. at_least (suc n) (number_of base u)) (numbered base n)
      (ap (at_least (suc n)) (number_of-numbered base n) ∙ ground arith)
      (λ u. at_least n (number_of base u)) (λ u. at_least-suc n (number_of base u))
      (ap (at_least n) (number_of-numbered base n) ∙ ground arith) used found

numbered_free :
    (fuel : ℕ) (used : List String) (base : String) (n : ℕ)
    → count_from used base n < fuel
    → contains used (free_name fuel used base (numbered base n) (suc n)) ≡ false
unfolding free_name
numbered_free zero used base n h = absurd (omega arith)
numbered_free (suc fuel) used base n h = elim (Bool-cases (contains used (numbered base n))) [
  | inl taken ↦
      let less = count_from-suc-lt used base n taken in
      rw (taken, if◌then◌else◌) (numbered_free fuel used base (suc n) (omega arith))
  | inr free ↦ rw (free, if◌then◌else◌) free
]

length-keep_if-all : (xs : List String) → length (keep_if (λ x. true) xs) ≡ length xs
unfolding keep_if
length-keep_if-all [] = refl
length-keep_if-all (x ∷ xs) = ap suc (length-keep_if-all xs)

-- the loop ends at a name that is not used
unique_name-unused :
    (used : List String) (base : String) → contains used (unique_name used base) ≡ false
unfolding unique_name free_name
unique_name-unused used base = elim (Bool-cases (contains used base)) [
  | inr free ↦ rw (free, if◌then◌else◌) free
  | inl taken ↦
      let fewer =
        length-keep_if-lt (λ u. at_least 2 (number_of base u)) base
          (ap (at_least 2) (number_of_self base)) (λ u. true) (λ u e. refl) refl used taken in
      let all = length-keep_if-all used in
      rw (taken, if◌then◌else◌) (numbered_free (length used) used base 2 (omega arith))
]

abbrev pub names : List Node × List RelayRoute → List String
names (nodes, relays) = map (λ n. n.name) nodes ++ map (λ r. r.name) relays

name_relays-distinct :
    (used : List String) (relays : List RelayRoute)
    → DistinctFrom used (map (λ r. r.name) (name_relays used relays))
unfolding name_relays
name_relays-distinct used [] = tt
name_relays-distinct used (r ∷ relays) =
    let name = unique_name used (or_text r.name r.id) in
    (unique_name-unused used (or_text r.name r.id), name_relays-distinct (name ∷ used) relays)

names_distinct :
    (used : List String) (nodes : List Node) (relays : List RelayRoute)
    → DistinctFrom used
        (names ((name_nodes used nodes).0, name_relays (name_nodes used nodes).1 relays))
unfolding name_nodes
names_distinct used [] relays = name_relays-distinct used relays
names_distinct used (n ∷ nodes) relays =
    let name = unique_name used (node_share_name n) in
    (unique_name-unused used (node_share_name n), names_distinct (name ∷ used) nodes relays)

-- The loop that numbers a name ends, and the names of the nodes and relay routes in a subscription
-- are different from each other and from the names of the groups.
pub unique_subscription_names_distinct :
    (nodes : List Node) (relays : List RelayRoute)
    → DistinctFrom reserved_names (names (unique_subscription_names nodes relays))
unfolding unique_subscription_names
unique_subscription_names_distinct nodes relays = names_distinct reserved_names nodes relays
