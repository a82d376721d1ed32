-- ===== src/Prelude/Every.antt =====
-- What holds of every element of a list, along the operations on vectors.
use Prim.Native.Nat.{ℕ, zero, suc, ◌+◌}
use mathlib.Core.Path.{◌≡◌, refl, ap, subst}
use mathlib.Core.List.{List, [], ◌∷◌, ◌++◌, map}
use mathlib.Core.Bool.{Bool, true, false}
use mathlib.Core.Logic.{◌⊎◌, inl, inr}
use mathlib.Core.Option.{Option, none, some}
use native.Mathlib.Omega.{arith}
use ft_irc_server.Prelude.Lists.{
  All, modify, erase_at, get_elem?, get_or, length, find_last, find_first,
}
use ft_irc_server.Prelude.Tests.{Bool-cases}

unwrap {ℓ} : {A : Type ℓ} {x y : A} → some x ≡ some y → x ≡ y
unwrap e = cc

module _ {ℓ κ} {A : Type ℓ} (P : A → Type κ) where
  -- A method that keeps the property where it is called keeps it everywhere.
  pub All-modify :
      (i : ℕ) (f : A → A) (xs : List A)
      → ((x : A) → get_elem? xs i ≡ some x → P x → P (f x))
      → All P xs
      → All P (modify i f xs)
  All-modify i f [] keep all = tt
  All-modify zero f (x ∷ xs) keep all = (keep x refl all.0, all.1)
  All-modify (suc i) f (x ∷ xs) keep all = (all.0, All-modify i f xs keep all.1)

  pub All-append_one : (xs : List A) (y : A) → All P xs → P y → All P (xs ++ y ∷ [])
  All-append_one [] y all h = (h, tt)
  All-append_one (x ∷ xs) y all h = (all.0, All-append_one xs y all.1 h)

  pub All-erase_at : (i : ℕ) (xs : List A) → All P xs → All P (erase_at i xs)
  All-erase_at i [] all = tt
  All-erase_at zero (x ∷ xs) all = all.1
  All-erase_at (suc i) (x ∷ xs) all = (all.0, All-erase_at i xs all.1)

  pub All-get_elem? : (i : ℕ) (xs : List A) (x : A) → All P xs → get_elem? xs i ≡ some x → P x
  All-get_elem? i [] x all e = cc
  All-get_elem? zero (y ∷ xs) x all e = subst P (unwrap e) all.0
  All-get_elem? (suc i) (y ∷ xs) x all e = All-get_elem? i xs x all.1 e

  pub All-map_of {μ} :
      {B : Type μ} (f : B → A) (xs : List B) → All (λ b. P (f b)) xs → All P (map f xs)
  All-map_of f [] all = tt
  All-map_of f (x ∷ xs) all = (all.0, All-map_of f xs all.1)

  pub All-of_map {μ} :
      {B : Type μ} (f : B → A) (xs : List B) → All P (map f xs) → All (λ b. P (f b)) xs
  All-of_map f [] all = tt
  All-of_map f (x ∷ xs) all = (all.0, All-of_map f xs all.1)

  pub All-weaken {λ'} :
      (Q : A → Type λ') (xs : List A) → ((x : A) → P x → Q x) → All P xs → All Q xs
  All-weaken Q [] h all = tt
  All-weaken Q (x ∷ xs) h all = (h x all.0, All-weaken Q xs h all.1)

module _ {ℓ} {A : Type ℓ} where
  -- Reading with a default agrees with reading where there is something.
  pub get_or_of_get_elem? :
      (i : ℕ) (xs : List A) (x d : A) → get_elem? xs i ≡ some x → get_or xs i d ≡ x
  get_or_of_get_elem? i [] x d e = cc
  get_or_of_get_elem? zero (y ∷ xs) x d e = unwrap e
  get_or_of_get_elem? (suc i) (y ∷ xs) x d e = get_or_of_get_elem? i xs x d e

  pub modify-absent : (i : ℕ) (f : A → A) (xs : List A) → get_elem? xs i ≡ none → modify i f xs ≡ xs
  modify-absent i f [] e = refl
  modify-absent zero f (x ∷ xs) e = cc
  modify-absent (suc i) f (x ∷ xs) e = ap (◌∷◌ x) (modify-absent i f xs e)

  pub map-modify_same {κ} :
      {B : Type κ} (g : A → B) (i : ℕ) (f : A → A) (xs : List A)
      → ((x : A) → g (f x) ≡ g x)
      → map g (modify i f xs) ≡ map g xs
  map-modify_same g i f [] h = refl
  map-modify_same g zero f (x ∷ xs) h = ap (λ b. b ∷ map g xs) (h x)
  map-modify_same g (suc i) f (x ∷ xs) h = ap (◌∷◌ (g x)) (map-modify_same g i f xs h)

  pub map-append_one {κ} :
      {B : Type κ} (g : A → B) (xs : List A) (y : A) → map g (xs ++ y ∷ []) ≡ map g xs ++ g y ∷ []
  map-append_one g [] y = refl
  map-append_one g (x ∷ xs) y = ap (◌∷◌ (g x)) (map-append_one g xs y)

  pub map-erase_at {κ} :
      {B : Type κ} (g : A → B) (i : ℕ) (xs : List A) → map g (erase_at i xs) ≡ erase_at i (map g xs)
  map-erase_at g i [] = refl
  map-erase_at g zero (x ∷ xs) = refl
  map-erase_at g (suc i) (x ∷ xs) = ap (◌∷◌ (g x)) (map-erase_at g i xs)

module _ {ℓ} {A : Type ℓ} where
  -- Two calls on one element are one.
  pub modify-modify :
      (k : ℕ) (f g : A → A) (xs : List A) → modify k g (modify k f xs) ≡ modify k (λ x. g (f x)) xs
  modify-modify k f g [] = refl
  modify-modify zero f g (x ∷ xs) = refl
  modify-modify (suc k) f g (x ∷ xs) = ap (◌∷◌ x) (modify-modify k f g xs)

  -- Calls agree that agree on the element there is.
  pub modify_congr :
      (k : ℕ) (f g : A → A) (xs : List A) (d : A)
      → f (get_or xs k d) ≡ g (get_or xs k d)
      → modify k f xs ≡ modify k g xs
  modify_congr k f g [] d h = refl
  modify_congr zero f g (x ∷ xs) d h = ap (λ y. y ∷ xs) h
  modify_congr (suc k) f g (x ∷ xs) d h = ap (◌∷◌ x) (modify_congr k f g xs d h)

  pub get_or-modify :
      (k : ℕ) (f : A → A) (xs : List A) (x d : A)
      → get_elem? xs k ≡ some x
      → get_or (modify k f xs) k d ≡ f x
  get_or-modify k f [] x d e = cc
  get_or-modify zero f (y ∷ xs) x d e = ap f (unwrap e)
  get_or-modify (suc k) f (y ∷ xs) x d e = get_or-modify k f xs x d e

  pub modify-append_one :
      (f : A → A) (xs : List A) (y : A) → modify (length xs) f (xs ++ y ∷ []) ≡ xs ++ f y ∷ []
  modify-append_one f [] y = refl
  modify-append_one f (x ∷ xs) y = ap (◌∷◌ x) (modify-append_one f xs y)

  pub get_or-append_one : (xs : List A) (y d : A) → get_or (xs ++ y ∷ []) (length xs) d ≡ y
  get_or-append_one [] y d = refl
  get_or-append_one (x ∷ xs) y d = get_or-append_one xs y d

  -- What is erased need not be changed before.
  pub erase_at-modify :
      (k : ℕ) (f : A → A) (xs : List A) → erase_at k (modify k f xs) ≡ erase_at k xs
  erase_at-modify k f [] = refl
  erase_at-modify zero f (x ∷ xs) = refl
  erase_at-modify (suc k) f (x ∷ xs) = ap (◌∷◌ x) (erase_at-modify k f xs)

  -- The search with no `break` finds an element that passes, or what was found before.
  abbrev pub Finds : (A → Bool) → ℕ → List A → ℕ → Type ℓ
  Finds test i xs r = (j : ℕ) × (x : A) × (r ≡ i + j) × (get_elem? xs j ≡ some x) × (test x ≡ true)

  Finds-suc :
      (test : A → Bool) (i : ℕ) (y : A) (xs : List A) (r : ℕ)
      → Finds test (suc i) xs r
      → Finds test i (y ∷ xs) r
  Finds-suc test i y xs r (j, x, e, at, passes) = (suc j, x, omega arith, at, passes)

  find_last-Finds :
      (test : A → Bool) (i : ℕ) (xs : List A) (found : Option ℕ) (r : ℕ)
      → find_last test i xs found ≡ some r
      → (found ≡ some r) ⊎ Finds test i xs r
  find_last-Finds test i [] found r e = inl e
  find_last-Finds test i (x ∷ xs) found r e = elim (Bool-cases (test x)) [
    | inl hit ↦ elim (find_last-Finds test (suc i) xs (some i) r (rw hit at e)) [
      | inl here ↦ inr (0, x, omega (arith, unwrap here), refl, hit)
      | inr later ↦ inr (Finds-suc test i x xs r later)
    ]
    | inr miss ↦ elim (find_last-Finds test (suc i) xs found r (rw miss at e)) [
      | inl before ↦ inl before
      | inr later ↦ inr (Finds-suc test i x xs r later)
    ]
  ]

  pub find_last-some :
      (test : A → Bool) (xs : List A) (r : ℕ)
      → find_last test 0 xs none ≡ some r
      → (x : A) × (get_elem? xs r ≡ some x) × (test x ≡ true)
  find_last-some test xs r e = elim (find_last-Finds test 0 xs none r e) [
    | inl absent ↦ cc
    | inr (j, x, same_index, at, passes) ↦
        (x, subst (λ q. get_elem? xs q ≡ some x) (omega arith) at, passes)
  ]

  pub find_first-Finds :
      (test : A → Bool) (i : ℕ) (xs : List A) (r : ℕ)
      → find_first test i xs ≡ some r
      → Finds test i xs r
  find_first-Finds test i [] r e = cc
  find_first-Finds test i (x ∷ xs) r e = elim (Bool-cases (test x)) [
    | inl hit ↦ (0, x, omega (arith, unwrap (rw hit at e)), refl, hit)
    | inr miss ↦ Finds-suc test i x xs r (find_first-Finds test (suc i) xs r (rw miss at e))
  ]

  -- If the search finds nothing, nothing passes.
  pub find_last-none :
      (test : A → Bool) (i : ℕ) (xs : List A) (found : Option ℕ)
      → find_last test i xs found ≡ none
      → (found ≡ none) × All (λ x. test x ≡ false) xs
  find_last-none test i [] found e = (e, tt)
  find_last-none test i (x ∷ xs) found e = elim (Bool-cases (test x)) [
    | inl hit ↦ cc ((find_last-none test (suc i) xs (some i) (rw hit at e)).0)
    | inr miss ↦
        let rest = find_last-none test (suc i) xs found (rw miss at e) in (rest.0, (miss, rest.1))
  ]

pub map-map_same {ℓ κ} :
    {A : Type ℓ} {B : Type κ} (g : A → B) (f : A → A) (xs : List A)
    → ((x : A) → g (f x) ≡ g x)
    → map g (map f xs) ≡ map g xs
map-map_same g f [] h = refl
map-map_same g f (x ∷ xs) h = let rest = map-map_same g f xs h in λ i. h x i ∷ rest i
