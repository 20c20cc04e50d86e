-- ===== src/FileSystem/Shelf.antt =====
-- A disk that holds files by their paths, on which the theorems about
-- src/target/o_pocket/filesystem/filesystem_impl.inl are tried: a path of its own is the folder, and
-- other folders are there without being made.
use text.Mathlib.Text.{◌==◌}
use text.Mathlib.TextEquality.{eq_iff}
use device_broker.Prelude.{
  ℕ, String, Bool, true, false, not, ◌&&◌, Option, none, some, List, [], ◌∷◌, ◌≡◌, ◌≢◌, refl, sym,
  ap, ◌∙◌, if◌then◌else◌, arith,
}
use device_broker.FileSystem.{Disk}
use device_broker.FileSystem.Kept.{Files}

abbrev pub Shelf : Type 0
Shelf = String → Option (List ℕ)

abbrev pub put : String → Option (List ℕ) → Shelf → Shelf
put p x s q = if q == p then x else s q

abbrev pub is_there : Option (List ℕ) → Bool
is_there none = false
is_there (some x) = true

abbrev pub renaming : String → String → Option (List ℕ) → Shelf → Bool × Shelf
renaming p q none s = (false, s)
renaming p q (some x) s = (true, put q (some x) (put p none s))

abbrev pub shelf : Disk Shelf
shelf = record {
  exists = λ p s. some (is_there (s p));
  is_regular_file = λ p s. some (is_there (s p) && not (p == "/var/log"));
  is_directory = λ p s. some (p == "/var/log");
  file_size = λ p s. some 1;
  available = λ p s. some 1;
  entries = λ p s. some ("/tmp/a" ∷ []);
  absolute = λ p s. some p;
  canonical = λ p s. some p;
  relative = λ p q s. some p;
  join = λ p q. if p == "/var" then "/var/a" else "/tmp/a";
  filename = λ p. "a";
  parent_path = λ p. p;
  extension = λ p. ".core";
  lexically_normal = λ p. p;
  remove = λ p s. (true, put p none s);
  remove_all = λ p s. (true, put p none s);
  create_directories = λ p s. (true, s);
  rename = λ p q s. renaming p q (s p) s;
  copy_file = λ b p q s. (true, put q (s p) s);
  copy = λ b p q s. (true, put q (s p) s);
}

pub removed_exists :
    (p : String) (s t : Shelf) → shelf.remove p s ≡ (true, t) → some (is_there (t p)) ≡ some false
removed_exists p s t e = ground (arith, eq_iff p p, ap (λ u. u.1 p) e)

pub always_removes : (p q : String) (s t : Shelf) → shelf.remove p s ≡ (false, t) → t q ≡ s q
always_removes p q s t e = ground (arith, ap (λ u. u.0) e)

pub renaming_failed :
    (p q r : String) (o : Option (List ℕ)) (s t : Shelf) → renaming p q o s ≡ (false, t) → t r ≡ s r
renaming_failed p q r none s t e = sym (ap (λ u. u.1 r) e)
renaming_failed p q r (some x) s t e = ground (arith, ap (λ u. u.0) e)

pub renaming_missing :
    (p q : String) (o : Option (List ℕ)) (s : Shelf)
    → some (is_there o) ≡ some false
    → (renaming p q o s).0 ≡ false
renaming_missing p q none s e = refl
renaming_missing p q (some x) s e = ground arith

pub same_path : (p : String) → (p == p) ≡ true
same_path p = ground (arith, eq_iff p p)

abbrev pub shelf-Files : Files shelf
shelf-Files = record {
  content = λ p s. s p;
  same = λ p q. p == q;
  same_refl = same_path;
  remove_done = λ p q s t e. sym (ap (λ u. u.1 q) e);
  remove_exists = λ p s t e. removed_exists p s t e;
  remove_failed = λ p q s t e. always_removes p q s t e;
  rename_done = λ p q r x s t h e. sym (ap (λ u. u.1 r) (ap (λ o. renaming p q o s) (sym h) ∙ e));
  rename_failed = λ p q r s t e. renaming_failed p q r (s p) s t e;
  rename_missing = λ p q s e. renaming_missing p q (s p) s e;
}

-- One file, `/tmp/a`, and the folder.
abbrev pub one_file : Shelf
one_file = put "/tmp/a" (some (7 ∷ [])) (put "/var/log" (some []) (λ p. none))

pub tmp_not_log : ◌≢◌ {A = String} "/tmp/a" "/var/log"
tmp_not_log = ground (arith, eq_iff "/tmp/a" "/var/log")

pub only_file : (p : String) → shelf.is_regular_file p one_file ≡ some (p == "/tmp/a")
only_file p = ground (arith, eq_iff p "/tmp/a", eq_iff p "/var/log", tmp_not_log)
