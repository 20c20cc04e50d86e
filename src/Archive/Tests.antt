-- ===== src/Archive/Tests.antt =====
-- An archive of three entries on the disk of FileSystem/Shelf: a folder and two files of one path.
use Prim.Native.String.{◌++◌}
use text.Mathlib.TextEquality.{eq_iff}
use device_broker.Prelude.{
  ℕ, ◌≡◌, ◌≢◌, ◌⊎◌, refl, sym, ap, ◌∙◌, String, Bool, true, false, Option, none, some, List, [],
  ◌∷◌, if◌then◌else◌, arith,
}
use device_broker.Prelude
use device_broker.FileSystem.{Disk}
use device_broker.FileSystem.Shelf.{Shelf, shelf, put, one_file}
use device_broker.Archive.{Zip, recursive_decompress}
use device_broker.Archive.Contents.{Unpacks}
use device_broker.Archive.Unpacked.{Decompressed, recursive_decompress-Decompressed}

abbrev disk : Disk Shelf
disk = record shelf { join = λ p q. p ++ "/" ++ q }

abbrev entry : ℕ → Option String
entry n = if Prelude.◌==◌ n 0 then some "d" else some "b"

abbrev three : Zip Shelf
three = record {
  reader_init_file = λ p s. true;
  get_num_files = λ p s. 3;
  file_stat = λ p n s. entry n;
  is_file_a_directory = λ p n s. Prelude.◌==◌ n 0;
  extract_to_file = λ p n q s. (true, put q (some (n ∷ [])) s);
  locate_file = λ p s. false;
  add_file = λ b p q s. (false, s);
}

three-Unpacks : Unpacks disk three "/tmp/a"
three-Unpacks = record {
  content = λ p s. s p;
  count = 3;
  name = entry;
  folder = λ n. Prelude.◌==◌ n 0;
  packed = λ n. n ∷ [];
  counted = λ s. refl;
  named = λ n s. refl;
  is_folder = λ n s. refl;
  extracts = λ n p s t e. ground (arith, eq_iff p p, ap (λ r. r.1 p) e);
  extracts_only = λ n p q s t e apart. ground (arith, eq_iff q p, ap (λ r. r.1 q) e, apart);
  makes_folder = λ p q s t e. sym (ap (λ r. r.1 q) e);
}

recursive_decompress-Decompressed_example :
    Decompressed disk three "/tmp/a" "/o" three-Unpacks one_file
      (recursive_decompress disk three 0 "/tmp/a" "/o" false one_file)
recursive_decompress-Decompressed_example =
    recursive_decompress-Decompressed disk three "/tmp/a" "/o" three-Unpacks 0 one_file

last_kept :
    (recursive_decompress disk three 0 "/tmp/a" "/o" false one_file).1 "/o/b" ≡ some (2 ∷ [])
unfolding recursive_decompress
last_kept = refl
