-- ===== src/State/Positions.antt =====
-- Lists of positions of which each belongs to a reserve: those of a ticket and of a mining account.
use allwinprotocol.Base.{
  ℕ, zero, suc, ◌≡◌, ◌≢◌, refl, Option, none, some, List, [], ◌∷◌, ◌++◌, arith, ◌==◌, if◌then◌else◌,
  length, get_elem?, set, remove, sym,
}

module _ {A : Type 0} (key : A → ℕ) where
  -- `iter().position(|x| x.reserve == reserve)`
  unfoldable pub position : ℕ → List A → Option ℕ
  position k [] = none
  position k (x ∷ xs) =
      if key x == k then some 0 else elim (position k xs) [ none ↦ none | some i ↦ some (suc i) ]

  abbrev pub IsAbsent : ℕ → List A → Type 0
  IsAbsent k [] = Unit {0}
  IsAbsent k (x ∷ xs) = (key x ≢ k) × IsAbsent k xs

  -- No reserve occurs twice.
  abbrev pub IsDistinct : List A → Type 0
  IsDistinct [] = Unit {0}
  IsDistinct (x ∷ xs) = IsAbsent (key x) xs × IsDistinct xs

  pub position-none : (k : ℕ) (xs : List A) → position k xs ≡ none → IsAbsent k xs
  unfolding position
  position-none k [] h = tt
  position-none k (x ∷ xs) h = ground (arith, position-none k xs)

  pub position-IsAbsent : (k : ℕ) (xs : List A) → IsAbsent k xs → position k xs ≡ none
  unfolding position
  position-IsAbsent k [] h = refl
  position-IsAbsent k (x ∷ xs) h = ground (arith, position-IsAbsent k xs h.1)

  pub position-some :
      (k : ℕ) (xs : List A) (i : ℕ)
      → position k xs ≡ some i
      → (x : A) × (get_elem? xs i ≡ some x) × (key x ≡ k)
  unfolding position
  position-some k [] i h = cc
  position-some k (x ∷ xs) zero h = (x, refl, ground arith)
  position-some k (x ∷ xs) (suc i) h = position-some k xs i (ground arith)

  pub position-set :
      (k : ℕ) (xs : List A) (i : ℕ) {x : A} (y : A)
      → get_elem? xs i ≡ some x
      → key y ≡ key x
      → position k (set xs i y) ≡ position k xs
  unfolding position
  position-set k [] i y h e = refl
  position-set k (x ∷ xs) zero y h e = ground arith
  position-set k (x ∷ xs) (suc i) y h e = ground (arith, position-set k xs i y h e)

  IsAbsent-set :
      (k : ℕ) (xs : List A) (i : ℕ) {x : A} (y : A)
      → get_elem? xs i ≡ some x
      → key y ≡ key x
      → IsAbsent k xs
      → IsAbsent k (set xs i y)
  IsAbsent-set k [] i y h e a = tt
  IsAbsent-set k (x ∷ xs) zero y h e a = ground arith
  IsAbsent-set k (x ∷ xs) (suc i) y h e a = (a.0, IsAbsent-set k xs i y h e a.1)

  pub IsDistinct-set :
      (xs : List A) (i : ℕ) {x : A} (y : A)
      → get_elem? xs i ≡ some x
      → key y ≡ key x
      → IsDistinct xs
      → IsDistinct (set xs i y)
  IsDistinct-set [] i y h e d = tt
  IsDistinct-set (x ∷ xs) zero {x = x'} y h e d = let same : key y ≡ key x = cc in rw same d
  IsDistinct-set (x ∷ xs) (suc i) y h e d =
      (IsAbsent-set (key x) xs i y h e d.0, IsDistinct-set xs i y h e d.1)

  IsAbsent-remove : (k : ℕ) (xs : List A) (i : ℕ) → IsAbsent k xs → IsAbsent k (remove xs i)
  IsAbsent-remove k [] i a = tt
  IsAbsent-remove k (x ∷ xs) zero a = a.1
  IsAbsent-remove k (x ∷ xs) (suc i) a = (a.0, IsAbsent-remove k xs i a.1)

  pub IsDistinct-remove : (xs : List A) (i : ℕ) → IsDistinct xs → IsDistinct (remove xs i)
  IsDistinct-remove [] i d = tt
  IsDistinct-remove (x ∷ xs) zero d = d.1
  IsDistinct-remove (x ∷ xs) (suc i) d =
      (IsAbsent-remove (key x) xs i d.0, IsDistinct-remove xs i d.1)

  IsAbsent-get :
      (k : ℕ) (xs : List A) (i : ℕ) {x : A} → get_elem? xs i ≡ some x → IsAbsent k xs → key x ≢ k
  IsAbsent-get k [] i h a = cc
  IsAbsent-get k (x ∷ xs) zero h a = ground arith
  IsAbsent-get k (x ∷ xs) (suc i) h a = IsAbsent-get k xs i h a.1

  -- What is removed is gone, since it stood there once.
  pub position-remove :
      (xs : List A) (i : ℕ) {x : A}
      → IsDistinct xs
      → get_elem? xs i ≡ some x
      → IsAbsent (key x) (remove xs i)
  position-remove [] i d h = cc
  position-remove (x ∷ xs) zero {x = x'} d h = let same : key x' ≡ key x = cc in rw same d.0
  position-remove (x ∷ xs) (suc i) d h =
      (λ e. IsAbsent-get (key x) xs i h d.0 (sym e), position-remove xs i d.1 h)

  IsAbsent-push :
      (k : ℕ) (xs : List A) (y : A) → IsAbsent k xs → key y ≢ k → IsAbsent k (xs ++ y ∷ [])
  IsAbsent-push k [] y a h = (h, tt)
  IsAbsent-push k (x ∷ xs) y a h = (a.0, IsAbsent-push k xs y a.1 h)

  pub IsDistinct-push :
      (xs : List A) (y : A) → IsDistinct xs → IsAbsent (key y) xs → IsDistinct (xs ++ y ∷ [])
  IsDistinct-push [] y d a = (tt, tt)
  IsDistinct-push (x ∷ xs) y d a =
      (IsAbsent-push (key x) xs y d.0 (λ e. a.0 (sym e)), IsDistinct-push xs y d.1 a.1)

  pub position-push :
      (xs : List A) (y : A)
      → IsAbsent (key y) xs
      → position (key y) (xs ++ y ∷ []) ≡ some (length xs)
  unfolding position
  position-push [] y a = ground arith
  position-push (x ∷ xs) y a = ground (arith, position-push xs y a.1)
