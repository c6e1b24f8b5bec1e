-- ===== src/Turn/Plan/Confirmations.antt =====
-- `confirmations_for` of src/jev_router/effort.py counts the last run of one recommendation.
use mathlib.Core.List.{reverse-append, reverse-reverse}
use jev_router.Common.{
  ℕ, zero, suc, ◌≡◌, ◌≢◌, ◌⊎◌, inl, inr, refl, sym, ap, ◌∙◌, true, false, String, str_eq_iff, List,
  [], ◌∷◌, ◌++◌, reverse, Option, none, some, arith, replicate, opt_eq, Bool-cases,
}
use jev_router.Turn.Plan.{run_length, confirmations_for}

opt_eq→eq : (a b : Option String) → opt_eq a b ≡ true → a ≡ b
unfolding opt_eq
opt_eq→eq none none h = refl
opt_eq→eq (some a) (some b) h = ap some ((str_eq_iff a b).0 h)
opt_eq→eq none (some b) h = cc
opt_eq→eq (some a) none h = cc

ne_of_opt_eq : (a b : Option String) → opt_eq a b ≡ false → a ≢ b
unfolding opt_eq
ne_of_opt_eq none b h e = ground arith
ne_of_opt_eq (some a) (some b) h e = ground (arith, str_eq_iff a b)
ne_of_opt_eq (some a) none h e = cc

replicate-snoc {ℓ} : {A : Type ℓ} (n : ℕ) (a : A) → replicate n a ++ a ∷ [] ≡ replicate (suc n) a
replicate-snoc zero a = refl
replicate-snoc (suc n) a = ap (λ l. a ∷ l) (replicate-snoc n a)

reverse-replicate {ℓ} : {A : Type ℓ} (n : ℕ) (a : A) → reverse (replicate n a) ≡ replicate n a
reverse-replicate zero a = refl
reverse-replicate (suc n) a =
    reverse-append (a ∷ []) (replicate n a)
    ∙ ap (λ l. l ++ a ∷ []) (reverse-replicate n a)
    ∙ replicate-snoc n a

-- A list that is empty, or ends in something other than `e`.
abbrev pub EndsElsewhere : List (Option String) → Option String → Type 0
EndsElsewhere pre e =
    (pre ≡ [])
    ⊎ ((init : List (Option String)) × (v : Option String) × (pre ≡ init ++ v ∷ []) × (v ≢ e))

run_length_split :
    (xs : List (Option String)) (e : Option String)
    → (rest : List (Option String)) × (xs ≡ replicate (run_length xs e) e ++ rest)
      × EndsElsewhere (reverse rest) e
unfolding run_length
run_length_split [] e = ([], refl, inl refl)
run_length_split (v ∷ rest) e = elim (Bool-cases (opt_eq v e)) [
  | inl same ↦
      let (r, split, ends) = run_length_split rest e in
      (
        r,
        rw same (
            ap (λ l. v ∷ l) split
            ∙ ap (λ x. x ∷ (replicate (run_length rest e) e ++ r)) (opt_eq→eq v e same)),
        ends,
      )
  | inr new ↦
      (v ∷ rest, rw new, inr (reverse rest, v, reverse-append (v ∷ []) rest, ne_of_opt_eq v e new))
]

-- The count is the length of the longest run of the effort at the end of the list.
pub confirmations_for-run :
    (recommendations : List (Option String)) (effort : Option String)
    → (pre : List (Option String)) × (recommendations
        ≡ pre ++ replicate (confirmations_for recommendations effort) effort)
      × EndsElsewhere pre effort
unfolding confirmations_for
confirmations_for-run recommendations effort =
    let (rest, split, ends) = run_length_split (reverse recommendations) effort in
    let k = run_length (reverse recommendations) effort in
    (
      reverse rest,
      sym (reverse-reverse recommendations)
          ∙ ap reverse split
          ∙ reverse-append (replicate k effort) rest
          ∙ ap (λ l. reverse rest ++ l) (reverse-replicate k effort),
      ends,
    )
