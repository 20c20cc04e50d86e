-- ===== src/Samba/Tests.antt =====
-- Runs of the model of src/target/o_pocket/io/samba_transfer.cpp.
use Prim.Native.String.{len}
use text.Mathlib.Text.{◌==◌}
use text.Mathlib.TextEquality.{eq_iff}
use device_broker.Prelude.{
  ℕ, ℤ, Option, none, some, ◌≡◌, ◌≢◌, ◌∙◌, ap, refl, true, List, [], ◌∷◌, String, pos,
  if◌then◌else◌, arith,
}
use device_broker.Samba.{
  remote_ends, local_ends, slashes, Share, SambaTransfer, is_dir, download_all,
  locate_mkdir_recursive,
}
use device_broker.Samba.Disk.{Lawful, Fetched}
use device_broker.Samba.Fetched.{download_all-Fetched}
use device_broker.Samba.Paths.{Entries}
use device_broker.Samba.Listed.{append}
use device_broker.Samba.Walk.{snoc, Nodes, file, folder, nil, cons, with_slash, is_wanted}

abbrev results : Nodes
results = cons (file "." 0) (
    cons (file "a.txt" 3) (
      cons (folder "logs" true (cons (file "run.log" 16777219) (cons (file "run.txt" 7) nil))) nil))

abbrev text_files : List String
text_files = ".csv" ∷ ".txt" ∷ []

local_folders : local_ends 8 0 (slashes 0 "/tmp/a/b") ≡ 0 ∷ 4 ∷ 6 ∷ []
unfolding local_ends slashes
local_folders = refl

remote_folders : remote_ends 17 15 (slashes 0 "smb://h/s/a/b/c/d") ≡ 15 ∷ []
unfolding remote_ends slashes
remote_folders = refl

-- A share where every folder is missing and is made, its state the folders that were made.
abbrev empty_share : Share (List String)
empty_share = record {
  smb_stat = λ p s. none;
  smb_tree = λ p s. (true, results);
  smb_mkdir = λ p s. s;
  smb_open = λ p s. true;
  smb_create = λ p s. (true, s);
  local_stat = λ p s. none;
  local_tree = λ p s. (true, Entries.nil);
  local_mkdir = λ p s. snoc s p;
  local_open = λ p s. true;
  local_create = λ p s. (true, s);
  smb_reads = λ n p s. [];
  smb_write = λ p b s. s;
  local_reads = λ n p s. [];
  local_write = λ p b s. s;
}

folders_made : locate_mkdir_recursive empty_share "/tmp/a/b" 0 [] ≡ "" ∷ "/tmp" ∷ "/tmp/a" ∷ []
unfolding locate_mkdir_recursive
folders_made = refl

-- A disk by its paths; a file on the share holds two bytes, which are read one by one.
abbrev Shelf : Type 0
Shelf = String → Option (List ℕ)

abbrev held : String → List ℕ
held p = len p ∷ 10 ∷ []

abbrev put : String → List ℕ → Shelf → Shelf
put p x s q = if q == p then some x else s q

abbrev extended : List ℕ → Option (List ℕ) → Option (List ℕ)
extended b none = none
extended b (some c) = some (append c b)

abbrev add : String → List ℕ → Shelf → Shelf
add p b s q = if q == p then extended b (s q) else s q

abbrev shelf : Share Shelf
shelf = record {
  smb_stat = λ p s. some is_dir;
  smb_tree = λ p s. (true, results);
  smb_mkdir = λ p s. s;
  smb_open = λ p s. true;
  smb_create = λ p s. (true, s);
  local_stat = λ p s. none;
  local_tree = λ p s. (true, Entries.nil);
  local_mkdir = λ p s. s;
  local_open = λ p s. true;
  local_create = λ p s. (true, put p [] s);
  smb_reads = λ n p s. (len p ∷ []) ∷ (10 ∷ []) ∷ [];
  smb_write = λ p b s. s;
  local_reads = λ n p s. [];
  local_write = λ p b s. add p b s;
}

abbrev on_share : String → Shelf → Option (List ℕ)
on_share p s = some (held p)

abbrev on_shelf : String → Shelf → Option (List ℕ)
on_shelf p s = s p

put_other : (p q : String) (x : List ℕ) (s : Shelf) → ¬ (q ≡ p) → put p x s q ≡ s q
put_other p q x s h = ground (arith, eq_iff q p, h)

put_same : (p : String) (x : List ℕ) (s : Shelf) → put p x s p ≡ some x
put_same p x s = ground (arith, eq_iff p p)

add_other : (p q : String) (b : List ℕ) (s : Shelf) → ¬ (q ≡ p) → add p b s q ≡ s q
add_other p q b s h = ground (arith, eq_iff q p, h)

add_same : (p : String) (b c : List ℕ) (s : Shelf) → s p ≡ some c → add p b s p ≡ some (append c b)
add_same p b c s h =
    let same : add p b s p ≡ extended b (s p) = ground (arith, eq_iff p p) in
    same ∙ ap (extended b) h

held_lem : (p : String) (c : List ℕ) → some (held p) ≡ some c → held p ≡ c
held_lem p c h = ap (λ o. elim o [ none ↦ [] | some d ↦ d ]) h

abbrev shelf-Lawful : Lawful shelf on_share on_shelf
shelf-Lawful = record {
  mkdir_remote = λ p q s. refl;
  mkdir_local = λ p q s. refl;
  open_remote = λ p s h. (held p, refl);
  reads_remote = λ n p s c h. held_lem p c h;
  create_remote = λ p q s. refl;
  create_local = λ p q s h. put_other p q [] s h;
  create_target = λ p s h. put_same p [] s;
  write_remote = λ p q b s. refl;
  write_local = λ p q b s h. add_other p q b s h;
  write_target = λ p b c s h. add_same p b c s h;
}

abbrev to_tmp : SambaTransfer
to_tmp = record {
  download_url = "smb://10.0.0.1/r";
  upload_url = "";
  file_download_path = "/tmp";
  file_upload_path = "";
  file_suffixes = text_files;
}

abbrev text_results : List (String × ℕ)
text_results = ("smb://10.0.0.1/r/a.txt", 3) ∷ ("smb://10.0.0.1/r/logs/run.txt", 7) ∷ []

abbrev both_fetched : Shelf
both_fetched = (download_all shelf to_tmp (λ p. none)).1

targets_differ : ◌≢◌ {A = String} "/tmp/a.txt" "/tmp/logs/run.txt"
targets_differ = ground (arith, eq_iff "/tmp/a.txt" "/tmp/logs/run.txt")

both_downloaded : Path (ℤ × Shelf) (download_all shelf to_tmp (λ p. none)) (pos 0, both_fetched)
unfolding download_all
both_downloaded = refl

download_all-Fetched_example :
    Fetched on_share on_shelf "smb://10.0.0.1/r" "/tmp" text_results both_fetched
unfolding is_wanted with_slash
download_all-Fetched_example =
    download_all-Fetched shelf-Lawful to_tmp results (λ p. none) both_fetched refl refl
      ((targets_differ, tt), (tt, tt)) both_downloaded
