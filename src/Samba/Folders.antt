-- ===== src/Samba/Folders.antt =====
-- Which folders a download of src/target/o_pocket/io/samba_transfer.cpp makes for its target.
use mathlib.Core.Path.{subst}
use Prim.Native.Char.{code, len_utf8}
use Prim.Native.String.{len}
use Prim.Native.String.len.{nil, cons}
use text.Mathlib.TextPositions.{len_utf8-pos}
use device_broker.Prelude.{
  ℕ, ◌+◌, ◌≤◌, ◌<◌, ◌≡◌, ap, ◌∙◌, refl, inl, inr, Bool-cases, String, List, [], ◌∷◌, ◌==◌, arith,
}
use device_broker.Samba.{Share, slashes, local_ends, make_local, locate_mkdir_recursive}

-- Positions from `low` on and before `high`, each after the one before.
Ascending : (low high : ℕ) → List ℕ → Type 0
Ascending low high [] = Unit
Ascending low high (p ∷ ps) = (low ≤ p) × (p < high) × Ascending (p + 1) high ps

Ascending-le :
    (low low' high : ℕ) (ps : List ℕ) → low ≤ low' → Ascending low' high ps → Ascending low high ps
unfolding Ascending
Ascending-le low low' high [] h a = tt
Ascending-le low low' high (p ∷ ps) h a = (omega (arith, a.0), a.1, a.2)

slashes-Ascending : (at : ℕ) (s : String) → Ascending at (at + len s) (slashes at s)
unfolding Ascending slashes
slashes-Ascending at String.[] = tt
slashes-Ascending at (String.◌∷◌ c s) =
    let one : len (String.◌∷◌ c String.[]) ≡ len_utf8 c = cons c String.[] ∙ omega (arith, nil) in
    let next : ℕ = at + len (String.◌∷◌ c String.[]) in
    let high : next + len s ≡ at + len (String.◌∷◌ c s) = omega (arith, one, cons c s) in
    let later : Ascending next (at + len (String.◌∷◌ c s)) (slashes next s) =
      subst (λ h. Ascending next h (slashes next s)) (high) (slashes-Ascending next s) in
    elim (Bool-cases (code c == b'/')) [
      | inl e ↦ rw e (
          (
            omega arith,
            omega (arith, cons c s, (len_utf8-pos c).1),
            Ascending-le (at + 1) next (at + len (String.◌∷◌ c s)) (slashes next s)
                (omega (arith, one, (len_utf8-pos c).1)) later,
          ))
      | inr e ↦
          rw e
            (Ascending-le at next (at + len (String.◌∷◌ c s)) (slashes next s) (omega arith) later)
    ]

local_ends_lem :
    (size index : ℕ) (ps : List ℕ) → Ascending index size ps → local_ends size index ps ≡ ps
unfolding Ascending local_ends
local_ends_lem size index [] a = refl
local_ends_lem size index (p ∷ ps) a = ground (arith, a, local_ends_lem size (p + 1) ps a.2)

-- Of the target of a download every folder is made that is not there, from the outermost in: one for
-- each `/` of the path, and what precedes the `/` names it.
locate_mkdir_recursive-slashes :
    {S : Type 0} (share : Share S) (path : String) (s : S)
    → locate_mkdir_recursive share path 0 s ≡ make_local share path (slashes 0 path) s
unfolding locate_mkdir_recursive
locate_mkdir_recursive-slashes share path s =
    let ascending : Ascending 0 (len path) (slashes 0 path) =
      subst (λ h. Ascending 0 h (slashes 0 path)) (omega arith) (slashes-Ascending 0 path) in
    ap (λ ps. make_local share path ps s) (local_ends_lem (len path) 0 (slashes 0 path) ascending)
