-- ===== src/Common/Lists.antt =====
-- Lists measured and indexed by native numbers, under the library's names.
use Prim.Native.Nat.{ℕ, zero, suc, ◌+◌, ◌-◌, ◌<◌, ◌≤◌, min}
use mathlib.Core.Path.{◌≡◌, refl, ap, sym, ◌∙◌}
use mathlib.Core.Logic.{◌⊎◌, inl, inr}
use mathlib.Core.List.{List, [], ◌∷◌, ◌++◌}
use mathlib.Core.Option.{Option, none, some}
use native.Mathlib.Omega.{arith}

suc-add : (m n : ℕ) → suc m + n ≡ suc (m + n)
suc-add m n = omega arith

module _ {ℓ} {A : Type ℓ} where
  abbrev pub length : List A → ℕ
  length [] = 0
  length (x ∷ xs) = suc (length xs)

  abbrev pub get_elem? : List A → ℕ → Option A
  get_elem? [] i = none
  get_elem? (x ∷ xs) zero = some x
  get_elem? (x ∷ xs) (suc i) = get_elem? xs i

  abbrev pub take : ℕ → List A → List A
  take zero xs = []
  take (suc n) [] = []
  take (suc n) (x ∷ xs) = x ∷ take n xs

  abbrev pub drop : ℕ → List A → List A
  drop zero xs = xs
  drop (suc n) [] = []
  drop (suc n) (x ∷ xs) = drop n xs

  abbrev pub replicate : ℕ → A → List A
  replicate zero a = []
  replicate (suc n) a = a ∷ replicate n a

  -- Stores a run of values from an index on; what would fall behind the end is not stored.
  abbrev pub store : List A → ℕ → List A → List A
  store [] i ys = []
  store (x ∷ xs) (suc i) ys = x ∷ store xs i ys
  store (x ∷ xs) zero [] = x ∷ xs
  store (x ∷ xs) zero (y ∷ ys) = y ∷ store xs zero ys

  pub length-append : (xs ys : List A) → length (xs ++ ys) ≡ length xs + length ys
  length-append [] ys = omega arith
  length-append (x ∷ xs) ys = omega (arith, length-append xs ys)

  pub length-take : (n : ℕ) (xs : List A) → length (take n xs) ≡ min n (length xs)
  length-take zero xs = omega arith
  length-take (suc n) [] = omega arith
  length-take (suc n) (x ∷ xs) = omega (arith, length-take n xs)

  pub length-take_le : (n : ℕ) (xs : List A) → n ≤ length xs → length (take n xs) ≡ n
  length-take_le n xs h = omega (arith, length-take n xs)

  pub length-drop : (n : ℕ) (xs : List A) → length (drop n xs) ≡ length xs - n
  length-drop zero xs = omega arith
  length-drop (suc n) [] = omega arith
  length-drop (suc n) (x ∷ xs) = omega (arith, length-drop n xs)

  pub length-replicate : (n : ℕ) (a : A) → length (replicate n a) ≡ n
  length-replicate zero a = refl
  length-replicate (suc n) a = ap suc (length-replicate n a)

  pub length-store : (xs : List A) (i : ℕ) (ys : List A) → length (store xs i ys) ≡ length xs
  length-store [] i ys = refl
  length-store (x ∷ xs) (suc i) ys = ap suc (length-store xs i ys)
  length-store (x ∷ xs) zero [] = refl
  length-store (x ∷ xs) zero (y ∷ ys) = ap suc (length-store xs zero ys)

  drop_empty : (n : ℕ) → drop n [] ≡ []
  drop_empty zero = refl
  drop_empty (suc n) = refl

  pub take_empty : (n : ℕ) → take n [] ≡ []
  take_empty zero = refl
  take_empty (suc n) = refl

  pub drop-drop : (m n : ℕ) (xs : List A) → drop n (drop m xs) ≡ drop (m + n) xs
  drop-drop zero n xs = ap (λ k. drop k xs) (omega arith)
  drop-drop (suc m) n [] = rw (drop_empty n, drop_empty (suc m + n))
  drop-drop (suc m) n (x ∷ xs) = drop-drop m n xs ∙ sym (ap (λ k. drop k (x ∷ xs)) (suc-add m n))

  pub drop-take : (m n : ℕ) (xs : List A) → drop m (take (m + n) xs) ≡ take n (drop m xs)
  drop-take zero n xs = ap (λ k. take k xs) (omega arith)
  drop-take (suc m) n [] = rw (take_empty (suc m + n), take_empty n)
  drop-take (suc m) n (x ∷ xs) =
      ap (λ k. drop (suc m) (take k (x ∷ xs))) (suc-add m n) ∙ drop-take m n xs

  pub take-append-drop : (n : ℕ) (xs : List A) → take n xs ++ drop n xs ≡ xs
  take-append-drop zero xs = refl
  take-append-drop (suc n) [] = refl
  take-append-drop (suc n) (x ∷ xs) = ap (λ r. x ∷ r) (take-append-drop n xs)

  pub take_all : (n : ℕ) (xs : List A) → length xs ≤ n → take n xs ≡ xs
  take_all zero [] h = refl
  take_all zero (x ∷ xs) h = absurd (omega arith)
  take_all (suc n) [] h = refl
  take_all (suc n) (x ∷ xs) h = ap (λ t. x ∷ t) (take_all n xs (omega arith))

  pub take-append : (n : ℕ) (xs ys : List A) → length xs ≡ n → take n (xs ++ ys) ≡ xs
  take-append zero [] ys h = refl
  take-append zero (x ∷ xs) ys h = absurd (omega arith)
  take-append (suc n) [] ys h = absurd (omega arith)
  take-append (suc n) (x ∷ xs) ys h = ap (λ t. x ∷ t) (take-append n xs ys (omega arith))

  pub drop-append : (n : ℕ) (xs ys : List A) → length xs ≡ n → drop n (xs ++ ys) ≡ ys
  drop-append zero [] ys h = refl
  drop-append zero (x ∷ xs) ys h = absurd (omega arith)
  drop-append (suc n) [] ys h = absurd (omega arith)
  drop-append (suc n) (x ∷ xs) ys h = drop-append n xs ys (omega arith)

module _ {ℓ} {A : Type ℓ} where
  pub get_elem?-drop : (i o : ℕ) (xs : List A) → get_elem? xs (i + o) ≡ get_elem? (drop i xs) o
  get_elem?-drop zero o xs = ap (get_elem? xs) (omega arith)
  get_elem?-drop (suc i) o [] = refl
  get_elem?-drop (suc i) o (x ∷ xs) = ap (get_elem? (x ∷ xs)) (suc-add i o) ∙ get_elem?-drop i o xs

  -- What stands at a position and behind it.
  pub drop-cases :
      (i : ℕ) (xs : List A)
      → ((drop i xs ≡ []) × (length xs ≤ i))
        ⊎ ((x : A) × (r : List A) × (drop i xs ≡ x ∷ r)
            × (get_elem? xs (i + 0) ≡ some x)
            × (i < length xs))
  drop-cases i xs = go (drop i xs) refl
    where
      go :
          (r : List A)
          → drop i xs ≡ r
          → ((drop i xs ≡ []) × (length xs ≤ i))
            ⊎ ((x : A) × (s : List A) × (drop i xs ≡ x ∷ s)
                × (get_elem? xs (i + 0) ≡ some x)
                × (i < length xs))
      go [] e = inl (e, omega (arith, length-drop i xs, ap length e))
      go (x ∷ s) e = inr (
        x,
        s,
        e,
        get_elem?-drop i 0 xs ∙ ap (λ r. get_elem? r 0) e,
        omega (arith, length-drop i xs, ap length e),
      )

-- A list stored over a part of another.
module _ {ℓ} {A : Type ℓ} where
  pub store-nil : (xs : List A) (k : ℕ) → store xs k [] ≡ xs
  store-nil [] k = refl
  store-nil (x ∷ xs) zero = refl
  store-nil (x ∷ xs) (suc k) = ap (λ r. x ∷ r) (store-nil xs k)

  pub drop-store :
      (t k : ℕ) (xs ys : List A) → drop t (store xs (t + k) ys) ≡ store (drop t xs) k ys
  drop-store zero k xs ys = let e : 0 + k ≡ k = omega arith in ap (λ j. store xs j ys) e
  drop-store (suc t) k [] ys = refl
  drop-store (suc t) k (x ∷ xs) ys =
      let e : suc t + k ≡ suc (t + k) = omega arith in
      ap (λ j. drop (suc t) (store (x ∷ xs) j ys)) e ∙ drop-store t k xs ys

  pub take-stored :
      (s k : ℕ) (xs ys : List A)
      → k + length ys ≤ s
      → take s (store xs k ys) ≡ store (take s xs) k ys
  take-stored zero k [] ys h = refl
  take-stored zero k (x ∷ xs) [] h = ap (take zero) (store-nil (x ∷ xs) k)
  take-stored zero k (x ∷ xs) (y ∷ ys) h = absurd (omega arith)
  take-stored (suc s) k [] ys h = refl
  take-stored (suc s) (suc k) (x ∷ xs) ys h = ap (λ r. x ∷ r) (take-stored s k xs ys (omega arith))
  take-stored (suc s) zero (x ∷ xs) [] h = refl
  take-stored (suc s) zero (x ∷ xs) (y ∷ ys) h =
      ap (λ r. y ∷ r) (take-stored s zero xs ys (omega arith))

  pub store-append :
      (xs zs ys : List A) (k : ℕ) → store (xs ++ zs) (length xs + k) ys ≡ xs ++ store zs k ys
  store-append [] zs ys k = let e : 0 + k ≡ k = omega arith in ap (λ j. store zs j ys) e
  store-append (x ∷ xs) zs ys k =
      let e : suc (length xs) + k ≡ suc (length xs + k) = omega arith in
      ap (λ j. store (x ∷ (xs ++ zs)) j ys) e ∙ ap (λ r. x ∷ r) (store-append xs zs ys k)
