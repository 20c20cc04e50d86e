-- ===== src/TestbedParam/Replaced.antt =====
-- The replacement of variables in
-- src/target/o_pocket/context/logic/objecitve/testbed_cmd_parse.cpp against a direct description.
use device_broker.Prelude.{
  ℕ, suc, ◌+◌, ◌≤◌, ◌≡◌, refl, sym, ◌∙◌, ap, inl, inr, false, Bool-cases, Option, none, some,
  Option-cases, List, [], ◌∷◌, ◌++◌, length, if◌then◌else◌, arith, ltb,
}
use device_broker.TestbedParam.CmdParser.{
  drop, take, starts_with, find, replace, replace_vars, cmd_var_replace, push_buitin_var_value,
  variable,
}

-- The first occurrence of a key is replaced, walking the text once.
pub substitute : (key value text : List ℕ) → List ℕ
substitute key value [] = if starts_with key [] then value ++ drop (length key) [] else []
substitute key value (c ∷ cs) =
    let rest = substitute key value cs in
    if starts_with key (c ∷ cs) then value ++ drop (length key) (c ∷ cs) else c ∷ rest

-- What one variable makes of the text, spelled by the position.
abbrev placed : Option ℕ → (key value text : List ℕ) → List ℕ
placed none key value text = text
placed (some n) key value text = take n text ++ value ++ drop (n + length key) text

zero_add : (n : ℕ) → 0 + n ≡ n
zero_add n = omega arith

suc_add : (n k : ℕ) → suc n + k ≡ suc (n + k)
suc_add n k = omega arith

find-placed :
    (key value text : List ℕ) → placed (find key text) key value text ≡ substitute key value text
unfolding find substitute
find-placed key value [] = elim (Bool-cases (starts_with key [])) [
  | inl e ↦ rw e (ap (λ n. value ++ drop n []) (zero_add (length key)))
  | inr e ↦ rw e refl
]
find-placed key value (c ∷ cs) = elim (Bool-cases (starts_with key (c ∷ cs))) [
  | inl e ↦ rw e (ap (λ n. value ++ drop n (c ∷ cs)) (zero_add (length key)))
  | inr e ↦ rw e (elim (Option-cases (find key cs)) [
    | inl e' ↦
        rw e'
          (ap (λ t. c ∷ t) (ap (λ o. placed o key value cs) (sym e') ∙ find-placed key value cs))
    | inr (n, e') ↦ rw e' (
        ap (λ m. (c ∷ take n cs) ++ value ++ drop m (c ∷ cs)) (suc_add n (length key))
        ∙ ap (λ t. c ∷ t) (ap (λ o. placed o key value cs) (sym e') ∙ find-placed key value cs))
  ])
]

find-le : (key text : List ℕ) (n : ℕ) → find key text ≡ some n → n ≤ length text
unfolding find
find-le key [] n h = ground arith
find-le key (c ∷ cs) n h = elim (Option-cases (find key cs)) [
  | inl e ↦ ground (arith, e, h)
  | inr (m, e) ↦ ground (arith, e, h, find-le key cs m e)
]

replace_vars-substitute :
    (key value cmd : List ℕ)
    → replace_vars ((key, value) ∷ []) cmd cmd ≡ some (substitute key value cmd)
unfolding replace_vars replace
replace_vars-substitute key value cmd =
    let same = λ (o : Option ℕ) (e : find key cmd ≡ o).
      ap (λ o. placed o key value cmd) (sym e) ∙ find-placed key value cmd in
    elim (Option-cases (find key cmd)) [
      | inl e ↦ rw (e, replace_vars) (ap some (same none e))
      | inr (n, e) ↦
          rw (e, replace_vars, not_past n (find-le key cmd n e)) (ap some (same (some n) e))
    ]
  where
    not_past : (n : ℕ) → n ≤ length cmd → ltb (length cmd) n ≡ false
    not_past n h = ground arith

-- With one variable, whatever its name, its value and the command, generating the command never
-- throws, and gives the command with the first occurrence of the variable replaced by its value.
one_variable-substitute :
    (name value cmd : List ℕ)
    → cmd_var_replace (push_buitin_var_value name value []) cmd
      ≡ some (substitute (variable name) value cmd)
unfolding cmd_var_replace push_buitin_var_value
one_variable-substitute name value cmd = replace_vars-substitute (variable name) value cmd
