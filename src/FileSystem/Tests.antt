-- ===== src/FileSystem/Tests.antt =====
-- The theorems on the file operations at the disk of Shelf.
use text.Mathlib.Text.{◌==◌}
use device_broker.Prelude.{◌+◌, ◌%◌, ◌^◌, pos, true, some, [], ◌∷◌, ◌≡◌, refl}
use device_broker.FileSystem.{Space, normal_path, obtain_file_space}
use device_broker.FileSystem.Shelf.{shelf, shelf-Files, one_file, only_file}
use device_broker.FileSystem.Sizes.{obtain_file_space-Counted, total_size, total_files}
use device_broker.FileSystem.Throwing.{done}
use device_broker.FileSystem.Move.{move_file}
use device_broker.FileSystem.Kept.{IsFile, Moved, move_file-Moved}

one_file-IsFile : IsFile shelf "/tmp/a" "/tmp/a" one_file
unfolding normal_path
one_file-IsFile = record {
  path = "/tmp/a";
  found = refl;
  absolute = refl;
  normal = refl;
  regular = refl;
}

move_file-Moved_example :
    Moved shelf-Files "/tmp/a" "/var/a"
      (7 ∷ [])
      one_file
      (move_file shelf 0 "/tmp/a" "/var" true true true one_file)
move_file-Moved_example =
    move_file-Moved shelf shelf-Files 0 "/tmp/a" "/tmp/a" "/var" true (7 ∷ []) one_file
      one_file-IsFile refl refl

obtain_file_space-Counted_example :
    (r : Space) × (obtain_file_space shelf "/var/log" one_file ≡ (done (pos 0, some r), one_file))
    × (r.size_byte ≡ total_size (λ p. p == "/tmp/a") (λ p. 1) ("/tmp/a" ∷ []) % 2 ^ 64)
    × (r.file_num ≡ total_files (λ p. p == "/tmp/a") ("/tmp/a" ∷ []))
    × (r.folder_num + r.file_num ≡ 2)
obtain_file_space-Counted_example =
    obtain_file_space-Counted shelf one_file (λ p. p == "/tmp/a") (λ p. 1) only_file (λ p h. refl)
      "/var/log" ("/tmp/a" ∷ []) refl refl refl refl
