-- ===== src/FileOpt/Steps.antt =====
-- The downloads of src/target/o_pocket/context/logic/logic_impl_file_opt.cpp as lists of steps, and the
-- room that they ask for.
use device_broker.Prelude.{
  ℕ, ◌*◌, ◌≤◌, ◌<◌, ◌≡◌, ◌^◌, ◌↔◌, ◌⊎◌, String, true, false, some, List, [], ◌∷◌, ℤ, pos, arith,
}
use device_broker.FileSystem.{Disk, clean_folder, obtain_folder_remain_space}
use device_broker.FileSystem.Throwing.{Action, ask}
use device_broker.FileSystem.Steps.{Ends, first_failure, first_failure-Ends}
use device_broker.Archive.{Zip, recursive_decompress}
use device_broker.FileOpt.{
  Remote, path_below, size_limit, http_download, http_file_size, url_space_measure,
  mv_file_to_target, down_file_and_replace, unzip_testbed,
}

module _ {S : Type 0} (remote : Remote S) (fs : Disk S) (url dst : String) where
  abbrev pub fetch : (cache file : String) → Action S ℤ → List (Action S ℤ)
  fetch cache file unpack =
      ask (λ t. some (url_space_measure remote fs url dst t))
      ∷ clean_folder fs cache
      ∷ http_download remote url file
      ∷ unpack
      ∷ clean_folder fs cache
      ∷ []

  -- Both downloads check the room, clean the cache, fetch the file, move or unpack it, and clean the
  -- cache again: each step works on the state that the one before left, the first that fails is the
  -- last one taken, and the answer is minus its number, or 0 where all five succeed.
  pub downloads-Ends :
      (fuel : ℕ) (zip : Zip S) (cache : String) (s : S)
      → Ends 1
          (fetch cache
            (path_below cache (remote.last_name url))
            (mv_file_to_target fs fuel (path_below cache (remote.last_name url)) dst false))
          s
          (down_file_and_replace remote fs fuel url dst cache s)
        × Ends 1
            (fetch cache
              (path_below cache "tmp.zip")
              (recursive_decompress fs zip fuel (path_below cache "tmp.zip") dst true))
            s
            (unzip_testbed remote fs fuel zip url dst cache s)
  unfolding down_file_and_replace unzip_testbed first_failure
  downloads-Ends fuel zip cache s =
      let name : String = path_below cache (remote.last_name url) in
      (
        first_failure-Ends 1 (fetch cache name (mv_file_to_target fs fuel name dst false)) s,
        first_failure-Ends 1
            (fetch cache (path_below cache "tmp.zip")
              (recursive_decompress fs zip fuel (path_below cache "tmp.zip") dst true))
            s,
      )

  -- Where the size of the file and the room in the folder are known, a file of at most 1215752192
  -- bytes is let in exactly when the room, as if in units of 1000 bytes, is twice its size; a larger
  -- one, and one of no bytes, is always let in.
  pub url_space_measure_lem :
      (s : S) (n room : ℕ)
      → remote.file_size url s ≡ some n
      → n < 2 ^ 64
      → fs.is_directory dst s ≡ some true
      → fs.available dst s ≡ some room
      → (url_space_measure remote fs url dst s ≡ pos 0)
        ↔ ((n ≡ 0) ⊎ ((1215752192 < n) ⊎ (n * 2 ≤ room * 1000)))
  unfolding url_space_measure http_file_size obtain_folder_remain_space size_limit
  url_space_measure_lem s n room size small folder available =
      ground (arith, size, folder, available)
