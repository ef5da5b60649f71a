-- ===== src/Prelude/Lists.antt =====
-- Lists measured and indexed by native numbers, under the library's names.
use Prim.Native.Nat.{ℕ, zero, suc, ◌+◌, ◌-◌, ◌<◌, ◌≤◌, min}
use mathlib.Core.Path.{◌≡◌, refl, ap, ap₂, sym, ◌∙◌}
use mathlib.Core.Logic.{◌≢◌}
use mathlib.Core.List.{List, [], ◌∷◌, ◌++◌, map}
use native.Mathlib.Omega.{arith}

module _ {ℓ} {A : Type ℓ} where
  abbrev pub length : List A → ℕ
  length [] = 0
  length (x ∷ xs) = suc (length xs)

  abbrev pub get_or : List A → ℕ → A → A
  get_or [] i d = d
  get_or (x ∷ xs) zero d = x
  get_or (x ∷ xs) (suc i) d = get_or xs i d

  -- A write out of bounds changes nothing.
  abbrev pub set : List A → ℕ → A → List A
  set [] i v = []
  set (x ∷ xs) zero v = v ∷ xs
  set (x ∷ xs) (suc i) v = x ∷ set xs i v

  abbrev pub take : ℕ → List A → List A
  take zero xs = []
  take (suc n) [] = []
  take (suc n) (x ∷ xs) = x ∷ take n xs

  abbrev pub drop : ℕ → List A → List A
  drop zero xs = xs
  drop (suc n) [] = []
  drop (suc n) (x ∷ xs) = drop n xs

  abbrev pub replicate : ℕ → A → List A
  replicate zero a = []
  replicate (suc n) a = a ∷ replicate n a

  -- `f i, f (i + 1), …`, `n` of them.
  abbrev pub tabulate_from : ℕ → ℕ → (ℕ → A) → List A
  tabulate_from zero i f = []
  tabulate_from (suc n) i f = f i ∷ tabulate_from n (i + 1) f

  pub length-append : (xs ys : List A) → length (xs ++ ys) ≡ length xs + length ys
  length-append [] ys = omega arith
  length-append (x ∷ xs) ys = omega (arith, length-append xs ys)

  pub length-replicate : (n : ℕ) (a : A) → length (replicate n a) ≡ n
  length-replicate zero a = refl
  length-replicate (suc n) a = ap suc (length-replicate n a)

  pub length-set : (xs : List A) (i : ℕ) (v : A) → length (set xs i v) ≡ length xs
  length-set [] i v = refl
  length-set (x ∷ xs) zero v = refl
  length-set (x ∷ xs) (suc i) v = ap suc (length-set xs i v)

  pub length-take : (n : ℕ) (xs : List A) → length (take n xs) ≡ min n (length xs)
  length-take zero xs = omega arith
  length-take (suc n) [] = omega arith
  length-take (suc n) (x ∷ xs) = omega (arith, length-take n xs)

  pub length-drop : (n : ℕ) (xs : List A) → length (drop n xs) ≡ length xs - n
  length-drop zero xs = omega arith
  length-drop (suc n) [] = omega arith
  length-drop (suc n) (x ∷ xs) = omega (arith, length-drop n xs)

  pub length-tabulate_from : (n i : ℕ) (f : ℕ → A) → length (tabulate_from n i f) ≡ n
  length-tabulate_from zero i f = refl
  length-tabulate_from (suc n) i f = ap suc (length-tabulate_from n (i + 1) f)

  pub get_or-tabulate_from :
      (n i k : ℕ) (f : ℕ → A) (d : A) → k < n → get_or (tabulate_from n i f) k d ≡ f (i + k)
  get_or-tabulate_from zero i k f d h = absurd (omega arith)
  get_or-tabulate_from (suc n) i zero f d h = ap f (omega arith)
  get_or-tabulate_from (suc n) i (suc k) f d h =
      get_or-tabulate_from n (i + 1) k f d (omega arith) ∙ ap f (omega arith)

  pub take-append : (xs ys : List A) (n : ℕ) → n ≡ length xs → take n (xs ++ ys) ≡ xs
  take-append [] ys zero h = refl
  take-append [] ys (suc n) h = absurd (omega arith)
  take-append (x ∷ xs) ys zero h = absurd (omega arith)
  take-append (x ∷ xs) ys (suc n) h = ap (◌∷◌ x) (take-append xs ys n (omega arith))

  pub drop-append : (xs ys : List A) (n : ℕ) → n ≡ length xs → drop n (xs ++ ys) ≡ ys
  drop-append [] ys zero h = refl
  drop-append [] ys (suc n) h = absurd (omega arith)
  drop-append (x ∷ xs) ys zero h = absurd (omega arith)
  drop-append (x ∷ xs) ys (suc n) h = drop-append xs ys n (omega arith)

  pub take_all : (xs : List A) (n : ℕ) → length xs ≤ n → take n xs ≡ xs
  take_all [] zero h = refl
  take_all [] (suc n) h = refl
  take_all (x ∷ xs) zero h = absurd (omega arith)
  take_all (x ∷ xs) (suc n) h = ap (◌∷◌ x) (take_all xs n (omega arith))

  pub drop_all : (xs : List A) (n : ℕ) → length xs ≤ n → drop n xs ≡ []
  drop_all [] zero h = refl
  drop_all [] (suc n) h = refl
  drop_all (x ∷ xs) zero h = absurd (omega arith)
  drop_all (x ∷ xs) (suc n) h = drop_all xs n (omega arith)

  -- Two lists of one length that agree at every place are equal.
  pub eq_of_get_or :
      (xs ys : List A) (d : A)
      → length xs ≡ length ys
      → ((i : ℕ) → i < length xs → get_or xs i d ≡ get_or ys i d)
      → xs ≡ ys
  eq_of_get_or [] [] d e h = refl
  eq_of_get_or [] (y ∷ ys) d e h = absurd (omega arith)
  eq_of_get_or (x ∷ xs) [] d e h = absurd (omega arith)
  eq_of_get_or (x ∷ xs) (y ∷ ys) d e h =
      ap₂ ◌∷◌ (h 0 (omega arith))
        (eq_of_get_or xs ys d (omega arith) (λ i p. h (suc i) (omega arith)))

pub length-map {ℓ κ} :
    {A : Type ℓ} {B : Type κ} (f : A → B) (xs : List A) → length (map f xs) ≡ length xs
length-map f [] = refl
length-map f (x ∷ xs) = ap suc (length-map f xs)

module _ {ℓ} {A : Type ℓ} where
  pub get_or-set_self :
      (xs : List A) (i : ℕ) (v d : A) → i < length xs → get_or (set xs i v) i d ≡ v
  get_or-set_self [] i v d h = absurd (omega arith)
  get_or-set_self (x ∷ xs) zero v d h = refl
  get_or-set_self (x ∷ xs) (suc i) v d h = get_or-set_self xs i v d (omega arith)

  pub get_or-set_ne :
      (xs : List A) (i j : ℕ) (v d : A) → i ≢ j → get_or (set xs i v) j d ≡ get_or xs j d
  get_or-set_ne [] i j v d h = refl
  get_or-set_ne (x ∷ xs) zero zero v d h = absurd (h refl)
  get_or-set_ne (x ∷ xs) zero (suc j) v d h = refl
  get_or-set_ne (x ∷ xs) (suc i) zero v d h = refl
  get_or-set_ne (x ∷ xs) (suc i) (suc j) v d h = get_or-set_ne xs i j v d (λ e. h (ap suc e))

  -- Two stretches of functions that agree place by place.
  pub tabulate_from-ap :
      (n i j : ℕ) (f g : ℕ → A)
      → ((p : ℕ) → p < n → f (i + p) ≡ g (j + p))
      → tabulate_from n i f ≡ tabulate_from n j g
  tabulate_from-ap n i j f g h = eq_of_get_or _ _ (f i) (count i f ∙ sym (count j g)) λ p l.
      let l' : p < n = omega (arith, count i f) in
      get_or-tabulate_from n i p f (f i) l' ∙ h p l' ∙ sym (get_or-tabulate_from n j p g (f i) l')
    where
      count : (k : ℕ) (t : ℕ → A) → length (tabulate_from n k t) ≡ n
      count k t = length-tabulate_from n k t

  -- A list by its places.
  pub tabulate_from-get_or :
      (xs : List A) (n : ℕ) (d : A) → length xs ≡ n → tabulate_from n 0 (λ k. get_or xs k d) ≡ xs
  tabulate_from-get_or xs n d e = eq_of_get_or _ xs d (count ∙ sym e) λ i p.
      get_or-tabulate_from n 0 i _ d (omega (arith, count))
      ∙ (let h : 0 + i ≡ i = omega arith in ap (λ t. get_or xs t d) h)
    where
      count : length (tabulate_from n 0 (λ k. get_or xs k d)) ≡ n
      count = length-tabulate_from n 0 _
