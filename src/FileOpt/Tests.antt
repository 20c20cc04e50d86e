-- ===== src/FileOpt/Tests.antt =====
-- The file operations of src/target/o_pocket/context/logic on the disk of FileSystem/Shelf, with a server
-- that has one file of 2000 bytes.
use text.Mathlib.Text.{◌==◌}
use text.Mathlib.TextEquality.{eq_iff}
use device_broker.Prelude.{
  ℕ, ◌*◌, ◌<◌, ◌≤◌, ◌≡◌, ◌↔◌, ◌⊎◌, String, Bool, true, [], ◌∷◌, pos, neg, refl, arith,
}
use device_broker.Requests.{TaskFileOperationFileClear}
use device_broker.TaskSuit.{TaskReturn}
use device_broker.FileSystem.Throwing.{done}
use device_broker.FileSystem.Shelf.{Shelf, shelf, shelf-Files, one_file, only_file, tmp_not_log}
use device_broker.FileOpt.{url_space_measure, down_file_and_replace, unzip_testbed}
use device_broker.FileOpt.Server.{server, no_zip}
use device_broker.FileOpt.Jobs.{find_file_list_by_suffix, file_operation_file_clear}
use device_broker.FileOpt.Steps.{url_space_measure_lem}
use device_broker.FileOpt.Cleared.{Cleared, member, file_clear-core_files}

-- 2000 bytes do not fit where there is room for one.
no_room : (down_file_and_replace server shelf 1 "u" "/var/log" "/c" one_file).0 ≡ done (neg 1)
unfolding down_file_and_replace
no_room = refl

-- An unknown room is not checked; the archive is fetched, and cannot be unpacked.
not_unpacked : (unzip_testbed server shelf 1 no_zip "u" "/d" "/c" one_file).0 ≡ done (neg 4)
unfolding unzip_testbed
not_unpacked = refl

-- The license is fetched and moved to its place.
license_moved : (down_file_and_replace server shelf 1 "u" "/var" "/c" one_file).0 ≡ done (pos 0)
unfolding down_file_and_replace
license_moved = refl

url_space_measure_lem_example :
    (url_space_measure server shelf "u" "/var/log" one_file ≡ pos 0)
    ↔ ((◌≡◌ {A = ℕ} 2000 0) ⊎ ((1215752192 < 2000) ⊎ (2000 * 2 ≤ 1 * 1000)))
url_space_measure_lem_example =
    url_space_measure_lem server shelf "u" "/var/log" one_file 2000 1 refl (omega arith) refl refl

abbrev clear_core : TaskFileOperationFileClear
clear_core = record { task_id = pos 1; src_type = "core_file" }

abbrev clear_log : TaskFileOperationFileClear
clear_log = record { task_id = pos 1; src_type = "log_file" }

abbrev only_a : String → Bool
only_a p = p == "/tmp/a"

core_named :
    (p : String) (t : Shelf)
    → member shelf-Files.same p ("/tmp/a" ∷ []) ≡ true
    → shelf.is_regular_file p t ≡ shelf.exists p t
core_named p t h = ground (arith, eq_iff p "/tmp/a", eq_iff p "/var/log", tmp_not_log, h)

file_clear-core_files_example :
    (r : TaskReturn) × (t : Shelf) × (file_operation_file_clear shelf clear_core one_file
      ≡ (done r, t))
    × Cleared shelf shelf-Files (pos 0) (neg 3) ("/tmp/a" ∷ []) one_file t r.code_value
file_clear-core_files_example =
    file_clear-core_files shelf shelf-Files one_file only_a only_file clear_core ("/tmp/a" ∷ [])
      refl refl refl refl core_named

found_a :
    find_file_list_by_suffix shelf "/var/log" ".core" one_file
    ≡ (done (pos 0, "/tmp/a" ∷ []), one_file)
unfolding find_file_list_by_suffix
found_a = refl
