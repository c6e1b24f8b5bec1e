-- ===== src/Common/Lists.antt =====
-- Lists measured and indexed by native numbers, Python's `in` and `index`, and dictionaries as
-- association lists in insertion order.
use Prim.Native.Nat.{ℕ, zero, suc, ◌+◌, ◌<◌}
use Prim.Native.String.{String}
use mathlib.Core.Path.{◌≡◌, refl, sym, ap, subst}
use mathlib.Core.Bool.{Bool, true, false, ◌||◌, ◌&&◌}
use mathlib.Core.List.{Memᴰ, List, [], ◌∷◌, ◌++◌}
use mathlib.Core.Option
use mathlib.Core.Option.{Option, none, some}
use native.Mathlib.Omega.{arith}
use text.Mathlib.Text.{◌==◌}
use text.Mathlib.TextEquality.{eq_iff}
use mathlib.Core.Logic.{inl, inr}
use jev_router.Common.Tests.{of_some, Bool-cases, if◌then◌else◌}

module _ {ℓ} {A : Type ℓ} where
  abbrev pub length : List A → ℕ
  length [] = 0
  length (x ∷ xs) = suc (length xs)

  abbrev pub get_elem? : List A → ℕ → Option A
  get_elem? [] i = none
  get_elem? (x ∷ xs) zero = some x
  get_elem? (x ∷ xs) (suc i) = get_elem? xs i

  abbrev pub replicate : ℕ → A → List A
  replicate zero a = []
  replicate (suc n) a = a ∷ replicate n a

  pub length-append : (xs ys : List A) → length (xs ++ ys) ≡ length xs + length ys
  length-append [] ys = omega arith
  length-append (x ∷ xs) ys = omega (arith, length-append xs ys)

  -- `[x for x in xs if p x]`
  unfoldable pub keep : (A → Bool) → List A → List A
  keep p [] = []
  keep p (x ∷ xs) = let rest = keep p xs in if p x then x ∷ rest else rest

  -- `any(p(x) for x in xs)`
  unfoldable pub any : (A → Bool) → List A → Bool
  any p [] = false
  any p (x ∷ xs) = p x || any p xs

  unfoldable pub every : (A → Bool) → List A → Bool
  every p [] = true
  every p (x ∷ xs) = p x && every p xs

-- `x in xs` for a list of texts
unfoldable pub contains : List String → String → Bool
contains [] a = false
contains (x ∷ xs) a = x == a || contains xs a

-- `xs.index(x)`, with `none` for the ValueError
unfoldable pub index_of : List String → String → Option ℕ
index_of [] a = none
index_of (x ∷ xs) a = if x == a then some 0 else Option.map suc (index_of xs a)

-- `d.get(k)` and `list(d)`
unfoldable pub lookup {ℓ} : {V : Type ℓ} → String → List (String × V) → Option V
lookup k [] = none
lookup k ((j, v) ∷ m) = if j == k then some v else lookup k m

abbrev pub keys {ℓ} : {V : Type ℓ} → List (String × V) → List String
keys [] = []
keys ((j, v) ∷ m) = j ∷ keys m

-- `xs.index(x)` where `x` may be None, which no list of texts holds
unfoldable pub index_of? : List String → Option String → Option ℕ
unfolding index_of
index_of? xs none = none
index_of? xs (some a) = index_of xs a

-- `==` on values that may be None
unfoldable pub opt_eq : Option String → Option String → Bool
opt_eq none none = true
opt_eq (some a) (some b) = a == b
opt_eq _ _ = false

pub opt_eq_refl : (a : Option String) → opt_eq a a ≡ true
unfolding opt_eq
opt_eq_refl none = refl
opt_eq_refl (some a) = (eq_iff a a).1 refl

pub index_of-lt : (xs : List String) (a : String) (i : ℕ) → index_of xs a ≡ some i → i < length xs
unfolding index_of
index_of-lt [] a i h = cc
index_of-lt (x ∷ xs) a zero h = omega arith
index_of-lt (x ∷ xs) a (suc i) h = ground (arith, index_of-lt xs a i)

pub get_elem?-index_of :
    (xs : List String) (a : String) (i : ℕ) → index_of xs a ≡ some i → get_elem? xs i ≡ some a
unfolding index_of
get_elem?-index_of [] a i h = cc
get_elem?-index_of (x ∷ xs) a zero h = ground (arith, eq_iff x a)
get_elem?-index_of (x ∷ xs) a (suc i) h = ground (arith, get_elem?-index_of xs a i)

pub get_elem?-some {ℓ} :
    {A : Type ℓ} (xs : List A) (i : ℕ) → i < length xs → (a : A) × (get_elem? xs i ≡ some a)
get_elem?-some [] i h = absurd (omega arith)
get_elem?-some (x ∷ xs) zero h = (x, refl)
get_elem?-some (x ∷ xs) (suc i) h = get_elem?-some xs i (omega arith)

module _ {ℓ κ} {A : Type ℓ} (P : A → Type κ) where
  -- `all(P(x) for x in xs)`, as a statement
  abbrev pub All : List A → Type κ
  All [] = Unit
  All (x ∷ xs) = P x × All xs

pub All-map {ℓ κ μ} :
    {A : Type ℓ} {P : A → Type κ} {Q : A → Type μ} (xs : List A)
    → ((x : A) → P x → Q x)
    → All P xs
    → All Q xs
All-map [] f h = tt
All-map (x ∷ xs) f h = (f x h.0, All-map xs f h.1)

pub All-Memᴰ {ℓ} : {A : Type ℓ} (xs : List A) → All (λ z. Memᴰ z xs) xs
All-Memᴰ [] = tt
All-Memᴰ (x ∷ xs) = (Memᴰ.head refl, All-map xs (λ z m. Memᴰ.tail m) (All-Memᴰ xs))

pub All-of_Memᴰ {ℓ κ} :
    {A : Type ℓ} (P : A → Type κ) (xs : List A) (x : A) → All P xs → Memᴰ x xs → P x
All-of_Memᴰ P [] x h m = elim m [ ]
All-of_Memᴰ P (y ∷ ys) x h (Memᴰ.head e) = subst P (sym e) h.0
All-of_Memᴰ P (y ∷ ys) x h (Memᴰ.tail m) = All-of_Memᴰ P ys x h.1 m

pub keep-All {ℓ κ} :
    {A : Type ℓ} (P : A → Type κ) (p : A → Bool) (xs : List A)
    → All P xs
    → All (λ x. P x × (p x ≡ true)) (keep p xs)
unfolding keep
keep-All P p [] h = tt
keep-All P p (x ∷ xs) h = elim (Bool-cases (p x)) [
  | inl hit ↦ rw hit ((h.0, hit), keep-All P p xs h.1)
  | inr miss ↦ rw miss (keep-All P p xs h.1)
]

-- Two tests that agree on the list keep the same items.
pub keep-congr {ℓ} :
    {A : Type ℓ} (p q : A → Bool) (xs : List A) → All (λ x. p x ≡ q x) xs → keep p xs ≡ keep q xs
unfolding keep
keep-congr p q [] h = refl
keep-congr p q (x ∷ xs) h = elim (Bool-cases (q x)) [
  | inl hit ↦ rw (h.0, hit) (ap (λ l. x ∷ l) (keep-congr p q xs h.1))
  | inr miss ↦ rw (h.0, miss) (keep-congr p q xs h.1)
]

pub keep-Memᴰ {ℓ} :
    {A : Type ℓ} (p : A → Bool) (xs : List A) (x : A) → Memᴰ x xs → p x ≡ true → Memᴰ x (keep p xs)
unfolding keep
keep-Memᴰ p [] x m h = elim m [ ]
keep-Memᴰ p (y ∷ ys) x (Memᴰ.head e) h = rw (← ap p e, h) (Memᴰ.head e)
keep-Memᴰ p (y ∷ ys) x (Memᴰ.tail m) h = elim (Bool-cases (p y)) [
  | inl hit ↦ rw hit (Memᴰ.tail (keep-Memᴰ p ys x m h))
  | inr miss ↦ rw miss (keep-Memᴰ p ys x m h)
]

pub Memᴰ-keep {ℓ} :
    {A : Type ℓ} (p : A → Bool) (xs : List A) (x : A)
    → Memᴰ x (keep p xs)
    → Memᴰ x xs × (p x ≡ true)
Memᴰ-keep p xs x m =
    All-of_Memᴰ (λ z. Memᴰ z xs × (p z ≡ true)) (keep p xs) x
      (keep-All (λ z. Memᴰ z xs) p xs (All-Memᴰ xs)) m

pub Memᴰ-contains : (xs : List String) (a : String) → contains xs a ≡ true → Memᴰ a xs
unfolding contains
Memᴰ-contains [] a h = cc
Memᴰ-contains (x ∷ xs) a h = elim (Bool-cases (x == a)) [
  | inl same ↦ Memᴰ.head (sym ((eq_iff x a).0 same))
  | inr other ↦ Memᴰ.tail (Memᴰ-contains xs a (rw other at h))
]

pub contains-Memᴰ : (xs : List String) (a : String) → Memᴰ a xs → contains xs a ≡ true
unfolding contains
contains-Memᴰ [] a m = elim m [ ]
contains-Memᴰ (x ∷ xs) a (Memᴰ.head e) = rw ((eq_iff x a).1 (sym e))
contains-Memᴰ (x ∷ xs) a (Memᴰ.tail m) = ground (arith, contains-Memᴰ xs a m)

-- What holds of every entry of a dictionary holds of the one that is looked up.
pub lookup-All {ℓ κ} :
    {V : Type ℓ} (P : V → Type κ) (k : String) (m : List (String × V)) (v : V)
    → All (λ (e : String × V). P e.1) m
    → lookup k m ≡ some v
    → P v
unfolding lookup
lookup-All P k [] v h found = cc
lookup-All P k ((j, u) ∷ m) v h found = elim (Bool-cases (j == k)) [
  | inl same ↦ subst P (of_some (rw same at found)) h.0
  | inr other ↦ lookup-All P k m v h.1 (rw other at found)
]
