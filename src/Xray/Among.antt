-- ===== src/Xray/Among.antt =====
-- Lists whose elements are among those of another one.
use yuchen_panel.Common.{
  Bool, Bool-cases, ◌≡◌, refl, String, true, List, [], ◌∷◌, ◌++◌, map, Option, some, contains, All,
  All-map_weaken, if◌then◌else◌, arith, inl, inr, Option-cases,
}
use text.Mathlib.TextEquality.{eq_iff}
use yuchen_panel.Xray.Users.{collect, insert_by, sort_by}

pub All-collect :
    {A B : Type 0} (f : A → Option B) (P : B → Type 0)
    → ((x : A) (y : B) → f x ≡ some y → P y)
    → (xs : List A) → All P (collect f xs)
unfolding collect
All-collect f P h [] = tt
All-collect f P h (x ∷ xs) = elim (Option-cases (f x)) [
  | inl e ↦ rw e (All-collect f P h xs)
  | inr (y, e) ↦ rw e (h x y e, All-collect f P h xs)
]

module _ {A : Type 0} (P : A → Type 0) where
  pub All-append : (xs ys : List A) → All P xs → All P ys → All P (xs ++ ys)
  All-append [] ys a b = b
  All-append (x ∷ xs) ys a b = (a.0, All-append xs ys a.1 b)

pub contains-append_left :
    (xs ys : List String) (v : String) → contains xs v ≡ true → contains (xs ++ ys) v ≡ true
unfolding contains
contains-append_left [] ys v h = absurd (cc)
contains-append_left (x ∷ xs) ys v h = ground (arith, contains-append_left xs ys v)

pub contains-append_right :
    (xs ys : List String) (v : String) → contains ys v ≡ true → contains (xs ++ ys) v ≡ true
unfolding contains
contains-append_right [] ys v h = h
contains-append_right (x ∷ xs) ys v h = ground (arith, contains-append_right xs ys v h)

pub contains-cons :
    (x : String) (xs : List String) (v : String) → contains xs v ≡ true → contains (x ∷ xs) v ≡ true
unfolding contains
contains-cons x xs v h = ground arith

contains-here : (x : String) (xs : List String) → contains (x ∷ xs) x ≡ true
unfolding contains
contains-here x xs = rw ((eq_iff x x).1 refl, if◌then◌else◌) refl

-- a list contains the texts of its own elements
pub All-contains-map :
    {A : Type 0} (f : A → String) (xs : List A) → All (λ x. contains (map f xs) (f x) ≡ true) xs
All-contains-map f [] = tt
All-contains-map f (x ∷ xs) = (
  contains-here (f x) (map f xs),
  All-map_weaken (λ y. contains (map f xs) (f y) ≡ true)
      (λ y. contains (f x ∷ map f xs) (f y) ≡ true) xs (λ y. contains-cons (f x) (map f xs) (f y))
      (All-contains-map f xs),
)

pub map-compose :
    {A B C : Type 0} (g : B → C) (f : A → B) (xs : List A)
    → map g (map f xs) ≡ map (λ x. g (f x)) xs
map-compose g f [] = refl
map-compose g f (x ∷ xs) = rw (map-compose g f xs) refl

module _ {A : Type 0} (P : A → Type 0) where
  All-insert_by :
      (less : A → A → Bool) (x : A) (ys : List A) → P x → All P ys → All P (insert_by less x ys)
  unfolding insert_by
  All-insert_by less x [] p a = (p, tt)
  All-insert_by less x (y ∷ ys) p a = elim (Bool-cases (less y x)) [
    | inl e ↦ rw (e, if◌then◌else◌) (a.0, All-insert_by less x ys p a.1)
    | inr e ↦ rw (e, if◌then◌else◌) (p, a)
  ]

  pub All-sort_by : (less : A → A → Bool) (xs : List A) → All P xs → All P (sort_by less xs)
  unfolding sort_by
  All-sort_by less [] a = tt
  All-sort_by less (x ∷ xs) a = All-insert_by less x (sort_by less xs) a.0 (All-sort_by less xs a.1)
