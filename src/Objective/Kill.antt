-- ===== src/Objective/Kill.antt =====
-- kill_testbed_progress_ of
-- src/target/o_pocket/context/logic/objecitve/logic_impl_http_service_objective.cpp: the processes
-- that a command lists are read from its output and killed one after the other. A character is its
-- code. What the command prints and what `system` answers to each kill, converted, are arguments.
use mathlib.Core.List.{append_assoc}
use device_broker.Prelude.{
  ℕ, zero, suc, ◌+◌, ◌-◌, ◌*◌, ◌≡◌, ◌≢◌, refl, Bool, true, false, ◌&&◌, Option, none, some, List,
  [], ◌∷◌, map, All-append, All-map, ◌++◌, ℤ, pos, neg, nonzero, ltb, leb, ◌==◌, if◌then◌else◌,
  replicate, All, arith, ap, inl, inr, ◌⊎◌,
}

abbrev pub is_digit : ℕ → Bool
is_digit c = leb 48 c && leb c 57

-- The lines, each with its line feed; what follows the last line feed is dropped.
unfoldable pub split_lines : List ℕ → List ℕ → List (List ℕ)
split_lines line [] = []
split_lines line (c ∷ cs) =
    let ended = split_lines [] cs in
    let going = split_lines (line ++ c ∷ []) cs in
    if c == 10 then (line ++ c ∷ []) ∷ ended else going

-- The digits up to the first blank that follows a digit.
unfoldable pub pid_digits : ℕ → List ℕ → List ℕ
pid_digits c_last [] = []
pid_digits c_last (c ∷ cs) =
    let more = pid_digits c cs in
    if is_digit c_last && c == 32 then [] else if is_digit c then c ∷ more else more

abbrev pub value : ℕ → List ℕ → ℕ
value v [] = v
value v (d ∷ ds) = value (v * 10 + (d - 48)) ds

-- std::stoi of digits: `none` where it throws.
unfoldable pub stoi : List ℕ → Option ℕ
stoi [] = none
stoi (d ∷ ds) = if ltb 2147483647 (value 0 (d ∷ ds)) then none else some (value 0 (d ∷ ds))

and_pid : Option ℕ → Option (List ℕ) → Option (List ℕ)
and_pid none pids = none
and_pid (some pid) none = none
and_pid (some pid) (some pids) = some (pid ∷ pids)

unfoldable pub pids_of : List (List ℕ) → Option (List ℕ)
unfolding pid_digits stoi and_pid
pids_of [] = some []
pids_of (line ∷ lines) = and_pid (stoi (pid_digits 32 line)) (pids_of lines)

-- The answer, and the processes that a kill was run for.
unfoldable pub kill_all : (ℕ → ℤ) → List ℕ → ℤ × List ℕ
kill_all answers [] = (pos 0, [])
kill_all answers (pid ∷ pids) =
    let (ret, killed) = kill_all answers pids in
    if nonzero (answers pid) then (neg 3, pid ∷ []) else (ret, pid ∷ killed)

-- The output is `none` where `popen` fails; the result is `none` where a number does not convert.
unfoldable pub kill_testbed_progress : Option (List ℕ) → (ℕ → ℤ) → Option (ℤ × List ℕ)
unfolding split_lines pids_of kill_all
kill_testbed_progress none answers = some (neg 1, [])
kill_testbed_progress (some []) answers = some (pos 0, [])
kill_testbed_progress (some (c ∷ cs)) answers = elim (pids_of (split_lines [] (c ∷ cs))) [
  | none ↦ none
  | some pids ↦ some (kill_all answers pids)
]

-- A line as the command prints it: blanks, the process's number, a blank, and the rest.
pub record Listed : Type 0 where
  pub blanks : ℕ
  pub digits : List ℕ
  pub rest : List ℕ
  pub pid : ℕ

abbrev line_of : Listed → List ℕ
line_of p = replicate p.blanks 32 ++ (p.digits ++ 32 ∷ p.rest)

abbrev pub printed : List Listed → List ℕ
printed [] = []
printed (p ∷ ps) = line_of p ++ 10 ∷ printed ps

pub record IsListed (p : Listed) : Type 0 where
  pub digits_only : All (λ c. is_digit c ≡ true) p.digits
  pub number : stoi p.digits ≡ some p.pid
  pub one_line : All (λ c. (c == 10) ≡ false) p.rest

abbrev pub AllListed : List Listed → Type 0
AllListed ps = All IsListed ps

split_line :
    (line xs ys : List ℕ)
    → All (λ c. (c == 10) ≡ false) xs
    → split_lines line (xs ++ 10 ∷ ys) ≡ (line ++ (xs ++ 10 ∷ [])) ∷ split_lines [] ys
unfolding split_lines
split_line line [] ys h = refl
split_line line (x ∷ xs) ys h =
    rw (h.0, ← append_assoc line (x ∷ []) (xs ++ 10 ∷ [])) (split_line (line ++ x ∷ []) xs ys h.1)

digits_lem :
    (c_last : ℕ) (ds tail : List ℕ)
    → is_digit c_last ≡ true
    → All (λ c. is_digit c ≡ true) ds
    → pid_digits c_last (ds ++ 32 ∷ tail) ≡ ds
unfolding pid_digits
digits_lem c_last [] tail h a = ground arith
digits_lem c_last (d ∷ ds) tail h a = ground (arith, digits_lem d ds tail a.0 a.1)

blanks_lem :
    (n : ℕ) (ds tail : List ℕ)
    → All (λ c. is_digit c ≡ true) ds
    → ds ≢ []
    → pid_digits 32 (replicate n 32 ++ (ds ++ 32 ∷ tail)) ≡ ds
unfolding pid_digits
blanks_lem zero [] tail a h = absurd (h refl)
blanks_lem zero (d ∷ ds) tail a h = ground (arith, digits_lem d ds tail a.0 a.1)
blanks_lem (suc n) ds tail a h = blanks_lem n ds tail a h

nonempty : (ds : List ℕ) {pid : ℕ} → stoi ds ≡ some pid → ds ≢ []
unfolding stoi
nonempty [] e = absurd (ground arith)
nonempty (d ∷ ds) e = λ f. absurd (ground arith)

line_digits : (p : Listed) → IsListed p → pid_digits 32 (line_of p ++ 10 ∷ []) ≡ p.digits
line_digits p h =
    rw
      (
        append_assoc (replicate p.blanks 32) (p.digits ++ 32 ∷ p.rest) (10 ∷ []),
        append_assoc p.digits (32 ∷ p.rest) (10 ∷ []),
      )
      (blanks_lem p.blanks p.digits (p.rest ++ 10 ∷ []) h.digits_only (nonempty p.digits h.number))

blanks_unbroken : (n : ℕ) → All (λ c. (c == 10) ≡ false) (replicate n 32)
blanks_unbroken zero = tt
blanks_unbroken (suc n) = (refl, blanks_unbroken n)

digit_unbroken : (c : ℕ) → is_digit c ≡ true → (c == 10) ≡ false
digit_unbroken c h = ground arith

line_unbroken : (p : Listed) → IsListed p → All (λ c. (c == 10) ≡ false) (line_of p)
line_unbroken p h =
    All-append _ (replicate p.blanks 32) (p.digits ++ 32 ∷ p.rest) (blanks_unbroken p.blanks) (
      All-append _ p.digits (32 ∷ p.rest) (All-map _ _ digit_unbroken p.digits h.digits_only)
        (refl, h.one_line))

pids_printed :
    (ps : List Listed)
    → All IsListed ps
    → pids_of (split_lines [] (printed ps)) ≡ some (map (λ p. p.pid) ps)
unfolding pids_of and_pid split_lines
pids_printed [] h = refl
pids_printed (p ∷ ps) h =
    rw
      (
        split_line [] (line_of p) (printed ps) (line_unbroken p h.0),
        line_digits p h.0,
        h.0.number,
        pids_printed ps h.1,
      )
      refl

progress_lem :
    (xs : List ℕ) (answers : ℕ → ℤ) (pids : List ℕ)
    → pids_of (split_lines [] xs) ≡ some pids
    → kill_testbed_progress (some xs) answers ≡ some (kill_all answers pids)
unfolding kill_testbed_progress split_lines pids_of kill_all
progress_lem [] answers [] e = refl
progress_lem [] answers (pid ∷ pids) e = absurd (ground arith)
progress_lem (c ∷ cs) answers pids e = rw (e, kill_testbed_progress) refl

-- What becomes of some processes: each is killed and the answer is 0, or those before the first one
-- whose kill fails are killed, and that one is tried, and the answer is -3.
abbrev pub Killed : (ℕ → ℤ) → List ℕ → ℤ × List ℕ → Type 0
Killed answers pids (ret, killed) =
    ((ret ≡ pos 0) × (killed ≡ pids) × All (λ pid. nonzero (answers pid) ≡ false) pids)
    ⊎ ((before : List ℕ) × (bad : ℕ) × (after : List ℕ) × (pids ≡ before ++ bad ∷ after)
        × (killed ≡ before ++ bad ∷ [])
        × (ret ≡ neg 3)
        × (nonzero (answers bad) ≡ true)
        × All (λ pid. nonzero (answers pid) ≡ false) before)

one_more :
    (answers : ℕ → ℤ) (pid : ℕ) (pids : List ℕ) (fails : Bool) (r : ℤ × List ℕ)
    → nonzero (answers pid) ≡ fails
    → Killed answers pids r
    → Killed answers (pid ∷ pids) (if fails then (neg 3, pid ∷ []) else (r.0, pid ∷ r.1))
one_more answers pid pids true r e k = inr ([], pid, pids, refl, refl, refl, e, tt)
one_more answers pid pids false r e (inl (ret, killed, a)) =
    inl (ret, ap (λ l. pid ∷ l) killed, (e, a))
one_more answers pid pids false r e (inr (before, bad, after, whole, killed, ret, b, a)) =
    inr
      (pid ∷ before, bad, after, ap (λ l. pid ∷ l) whole, ap (λ l. pid ∷ l) killed, ret, b, (e, a))

kill_all-Killed : (answers : ℕ → ℤ) (pids : List ℕ) → Killed answers pids (kill_all answers pids)
unfolding kill_all
kill_all-Killed answers [] = inl (refl, refl, tt)
kill_all-Killed answers (pid ∷ pids) =
    one_more answers pid pids (nonzero (answers pid)) (kill_all answers pids) refl
      (kill_all-Killed answers pids)

-- From what the command prints for some processes, each on a line of its own with a number that an
-- `int` can hold: exactly those processes are killed, in order, and the answer is 0; or one kill
-- fails, which is the first that does: those before it are killed, none after it is tried, and the
-- answer is -3.
pub kills_listed :
    (ps : List Listed) (answers : ℕ → ℤ)
    → All IsListed ps
    → (r : ℤ × List ℕ) × (kill_testbed_progress (some (printed ps)) answers ≡ some r)
      × Killed answers (map (λ p. p.pid) ps) r
kills_listed ps answers h =
    let pids : List ℕ = map (λ p. p.pid) ps in
    (
      kill_all answers pids,
      progress_lem (printed ps) answers pids (pids_printed ps h),
      kill_all-Killed answers pids,
    )
