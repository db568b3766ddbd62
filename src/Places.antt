-- ===== src/Places.antt =====
-- Places on the network: entities that listen on a port of a server while they are enabled.
use yuchen_panel.Common.{
  ◌⊎◌, ◌≡◌, ◌≢◌, ◌∙◌, sym, String, Bool, true, false, ◌&&◌, Map, ℤ, eqb_ℤ, eqb_ℤ_iff, arith, lookup,
  lookup-insert_here, lookup-insert_there, insert, none, some, ◌==◌, inl, inr, Bool-cases,
}
use text.Mathlib.TextEquality.{eq_iff}

pub record Place : Type 0 where
  pub server : String
  pub port : ℤ
  pub enabled : Bool

-- the second is enabled, and on the port and the server of the first
abbrev pub clashes : Place → Place → Bool
clashes p q = q.server == p.server && q.enabled && eqb_ℤ q.port p.port

clashes-sym :
    (p q : Place)
    → p.enabled ≡ true
    → clashes p q ≡ true
    → (q.enabled ≡ true) × (clashes q p ≡ true)
clashes-sym p q on h = ground (
  arith,
  eq_iff q.server p.server,
  eq_iff p.server q.server,
  eqb_ℤ_iff q.port p.port,
  eqb_ℤ_iff p.port q.port,
)

pub true_is_not_false : true ≢ false
true_is_not_false h = cc

pub none_is_not_some : {V : Type 0} {v : V} → none ≢ some v
none_is_not_some h = cc

abbrev left : {A B : Type 0} → A → A ⊎ B
left a = inl a

pub inl-injective : {A B : Type 0} {a b : A} → left {A = A} {B = B} a ≡ inl b → a ≡ b
inl-injective h = cc

-- a stored key is not one that is missing
pub named_key :
    {V : Type 0} (k j : String) {v : V} (m : Map V)
    → lookup k m ≡ none
    → lookup j m ≡ some v
    → (j == k) ≡ false
named_key k j m missing stored = elim (Bool-cases (j == k)) [
  | inl e ↦
      let same : j ≡ k = (eq_iff j k).0 e in
      absurd (none_is_not_some (sym missing ∙ rw same at stored))
  | inr e ↦ e
]

module _ {V : Type 0} (place : V → Place) where
  -- No two enabled entities of one server have one port.
  abbrev pub PlacesDistinct : Map V → Type 0
  PlacesDistinct m =
      (i j : String) (v w : V)
      → lookup i m ≡ some v
      → lookup j m ≡ some w
      → (place v).enabled ≡ true
      → clashes (place v) (place w) ≡ true
      → i ≡ j

  -- an entity that clashes with no other may be stored under its key
  pub PlacesDistinct-insert :
      (k : String) (v : V) (m : Map V)
      → PlacesDistinct m
      → ((j : String) (w : V)
          → lookup j m ≡ some w
          → (j == k) ≡ false
          → (place v).enabled ≡ true
          → clashes (place v) (place w) ≡ false)
      → PlacesDistinct (insert k v m)
  PlacesDistinct-insert k v m h free i j a b ia jb on clash = elim (Bool-cases (i == k)) [
    | inl ik ↦ elim (Bool-cases (j == k)) [
      | inl jk ↦ (eq_iff i k).0 ik ∙ sym ((eq_iff j k).0 jk)
      | inr jk ↦
          let same : v ≡ a = lookup-insert_here k i v m ik ia in
          let quiet : clashes (place v) (place b) ≡ false =
            free j b (lookup-insert_there k j v m jk jb) jk (rw same on) in
          absurd (true_is_not_false (sym (rw same clash) ∙ quiet))
    ]
    | inr ik ↦
        let here : lookup i m ≡ some a = lookup-insert_there k i v m ik ia in
        elim (Bool-cases (j == k)) [
          | inl jk ↦
              let same : v ≡ b = lookup-insert_here k j v m jk jb in
              let (on', back) = clashes-sym (place a) (place b) on clash in
              let quiet : clashes (place v) (place a) ≡ false = free i a here ik (rw same on') in
              absurd (true_is_not_false (sym (rw same back) ∙ quiet))
          | inr jk ↦ h i j a b here (lookup-insert_there k j v m jk jb) on clash
        ]
  ]
