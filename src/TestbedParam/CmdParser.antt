-- ===== src/TestbedParam/CmdParser.antt =====
-- TestbedCmdParser of src/target/o_pocket/context/logic/objecitve/testbed_cmd_parse.{h,cpp}: the
-- variables of a command are replaced by their values. A text is the list of its characters.
use device_broker.Prelude.{
  ℕ, zero, suc, ◌+◌, Bool, true, false, Option, none, some, List, [], ◌∷◌, ◌++◌, length, ltb, ◌==◌,
  if◌then◌else◌,
}

abbrev pub drop : ℕ → List ℕ → List ℕ
drop zero xs = xs
drop (suc n) [] = []
drop (suc n) (x ∷ xs) = drop n xs

abbrev pub take : ℕ → List ℕ → List ℕ
take zero xs = []
take (suc n) [] = []
take (suc n) (x ∷ xs) = x ∷ take n xs

abbrev pub starts_with : (key text : List ℕ) → Bool
starts_with [] text = true
starts_with (k ∷ ks) [] = false
starts_with (k ∷ ks) (c ∷ cs) = let rest = starts_with ks cs in if k == c then rest else false

-- `text.find(key)`, `none` for npos.
unfoldable pub find : (key text : List ℕ) → Option ℕ
find key [] = if starts_with key [] then some 0 else none
find key (c ∷ cs) =
    let later = find key cs in
    if starts_with key (c ∷ cs) then some 0 else elim later [ none ↦ none | some n ↦ some (suc n) ]

-- `text.replace(pos, count, value)`, `none` where it throws.
unfoldable pub replace : (pos count : ℕ) → (value text : List ℕ) → Option (List ℕ)
replace pos count value text =
    if ltb (length text) pos then none else some (take pos text ++ value ++ drop (pos + count) text)

-- The order of the characters, `<` of texts, which is the order of a `std::map`.
unfoldable pub is_before : List ℕ → List ℕ → Bool
is_before [] [] = false
is_before [] (c ∷ cs) = true
is_before (b ∷ bs) [] = false
is_before (b ∷ bs) (c ∷ cs) =
    let rest = is_before bs cs in if ltb b c then true else if b == c then rest else false

-- `replace_map_[key] = value`
unfoldable pub assign : (key value : List ℕ) → List (List ℕ × List ℕ) → List (List ℕ × List ℕ)
unfolding is_before
assign key value [] = (key, value) ∷ []
assign key value ((k, v) ∷ pairs) =
    let later = assign key value pairs in
    if is_before key k
    then (key, value) ∷ (k, v) ∷ pairs
    else if is_before k key
    then (k, v) ∷ later
    else (key, value) ∷ pairs

-- `<sin_{}>`
abbrev pub variable : List ℕ → List ℕ
variable name = b'<' ∷ b's' ∷ b'i' ∷ b'n' ∷ b'_' ∷ (name ++ b'>' ∷ [])

unfoldable pub push_buitin_var_value :
    (in_var_name in_var_value : List ℕ) → List (List ℕ × List ℕ) → List (List ℕ × List ℕ)
unfolding assign
push_buitin_var_value in_var_name in_var_value replace_map =
    assign (variable in_var_name) in_var_value replace_map

unfoldable pub push_cfg_var_value :
    (in_var_name in_var_value : List ℕ) → List (List ℕ × List ℕ) → List (List ℕ × List ℕ)
unfolding assign
push_cfg_var_value in_var_name in_var_value replace_map =
    assign (variable in_var_name) in_var_value replace_map

-- Each variable is looked up in the command as it came, and replaced in the one being made.
unfoldable pub replace_vars : List (List ℕ × List ℕ) → (src_cmd gen_cmd : List ℕ) → Option (List ℕ)
unfolding find replace
replace_vars [] src_cmd gen_cmd = some gen_cmd
replace_vars ((key, value) ∷ pairs) src_cmd gen_cmd = elim (find key src_cmd) [
  | none ↦ replace_vars pairs src_cmd gen_cmd
  | some pos ↦ (elim (replace pos (length key) value gen_cmd) [
    | none ↦ none
    | some gen_cmd' ↦ replace_vars pairs src_cmd gen_cmd'
  ])
]

unfoldable pub cmd_var_replace : List (List ℕ × List ℕ) → List ℕ → Option (List ℕ)
unfolding replace_vars
cmd_var_replace replace_map src_cmd = replace_vars replace_map src_cmd src_cmd
