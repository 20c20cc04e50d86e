-- ===== src/FileSystem/Steps.antt =====
-- Steps that answer a code each: the way in which the file operations and the connection of
-- src/target/o_pocket number their failures.
use device_broker.Prelude.{
  ℕ, suc, ◌≡◌, refl, ◌⊎◌, inl, inr, true, false, Bool-cases, List, [], ◌∷◌, ℤ, pos, neg, nonzero,
  if◌then◌else◌,
}
use device_broker.FileSystem.Throwing.{
  Action, Outcome, done, raised, unending, pure, ◌>>=◌, and_then,
}

-- The steps are taken in order, the states passed on; the first that answers another code than 0, or
-- throws, is the last one taken, and its number, from `k`, is the code.
pub data Ends {S : Type 0} : ℕ → List (Action S ℤ) → S → Outcome ℤ × S → Type 0 where
  all_done : (k : ℕ) (s : S) → Ends k [] s (done (pos 0), s)
  fails :
      (k : ℕ) (step : Action S ℤ) (steps : List (Action S ℤ)) (r : ℤ) (s t : S)
      → step s ≡ (done r, t)
      → nonzero r ≡ true
      → Ends k (step ∷ steps) s (done (neg k), t)
  throws :
      (k : ℕ) (step : Action S ℤ) (steps : List (Action S ℤ)) (s t : S)
      → step s ≡ (raised, t)
      → Ends k (step ∷ steps) s (raised, t)
  hangs :
      (k : ℕ) (step : Action S ℤ) (steps : List (Action S ℤ)) (s t : S)
      → step s ≡ (unending, t)
      → Ends k (step ∷ steps) s (unending, t)
  goes_on :
      (k : ℕ) (step : Action S ℤ) (steps : List (Action S ℤ)) (r : ℤ) (s t : S) (o : Outcome ℤ × S)
      → step s ≡ (done r, t)
      → nonzero r ≡ false
      → Ends (suc k) steps t o
      → Ends k (step ∷ steps) s o

unfoldable pub first_failure : {S : Type 0} → ℕ → List (Action S ℤ) → Action S ℤ
first_failure k [] = pure (pos 0)
first_failure k (step ∷ steps) =
    step >>= λ ret. if nonzero ret then pure (neg k) else first_failure (suc k) steps

module _ {S : Type 0} where
  outcome-cases :
      (r : Outcome ℤ × S)
      → ((a : ℤ) × (t : S) × (r ≡ (done a, t)))
        ⊎ (((t : S) × (r ≡ (raised, t))) ⊎ ((t : S) × (r ≡ (unending, t))))
  outcome-cases (done a, t) = inl (a, t, refl)
  outcome-cases (raised, t) = inr (inl (t, refl))
  outcome-cases (unending, t) = inr (inr (t, refl))

  pub first_failure-Ends :
      (k : ℕ) (steps : List (Action S ℤ)) (s : S) → Ends k steps s (first_failure k steps s)
  unfolding first_failure
  first_failure-Ends k [] s = all_done k s
  first_failure-Ends k (step ∷ steps) s = elim (outcome-cases (step s)) [
    | inr (inl (t, e)) ↦ rw (e, and_then) (throws k step steps s t e)
    | inr (inr (t, e)) ↦ rw (e, and_then) (hangs k step steps s t e)
    | inl (a, t, e) ↦ (elim (Bool-cases (nonzero a)) [
      | inl e' ↦ rw (e, and_then) (rw e' (fails k step steps a s t e e'))
      | inr e' ↦
          rw (e, and_then)
            (rw e' (
              goes_on k step steps a s t (first_failure (suc k) steps t) e e'
                (first_failure-Ends (suc k) steps t)))
    ])
  ]
