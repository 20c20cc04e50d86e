-- ===== src/FileOpt.antt =====
-- src/target/o_pocket/context/logic/logic_impl_file_opt.cpp and http_transfer.cpp of io: files are
-- fetched, unpacked and moved. What the HTTP client and the Samba client answer and do are the fields of
-- a `Remote`. A byte count is a `std::size_t`; the outputs of a query come with its answer.
mod Cleared
mod Ignored
pub mod Jobs
mod Steps
pub mod Server
mod Tests
use Prim.Native.String.{◌++◌}
use device_broker.Prelude.{
  ℕ, ◌+◌, ◌*◌, ◌%◌, ◌^◌, String, Bool, true, false, not, ◌||◌, Option, none, some, List, [], ◌∷◌, ℤ,
  pos, neg, nonzero, ltb, ◌==◌, if◌then◌else◌,
}
use device_broker.FileSystem.{
  Disk, Space, no_space, clean_folder, obtain_file_space, obtain_folder_remain_space,
}
use device_broker.FileSystem.Move.{move_file}
use device_broker.FileSystem.Throwing.{Action, Outcome, done, pure, ◌>>=◌, ◌>>◌, ask}
use device_broker.Archive.{Zip, recursive_decompress}

-- `file_size` is `none` where it fails; a name is what follows the last `/`.
pub record Remote (S : Type 0) : Type 0 where
  pub download_file : String → String → S → Bool × S
  pub file_size : String → S → Option ℕ
  pub upload_all : (url path usr passwd : String) → S → ℤ × S
  pub download_one : (url dir usr passwd : String) → S → ℤ × S
  pub last_name : String → String

-- `fmt::format("{}/{}", dir, name)`
abbrev pub path_below : String → String → String
path_below dir name = dir ++ "/" ++ name

-- `1000 * 1000 * 1000 * 100`, which is computed in an `int` of 32 bits.
unfoldable pub size_limit : ℕ
size_limit = (1000 * 1000 * 1000 * 100) % 2 ^ 32

module _ {S : Type 0} (fs : Disk S) where
  unfoldable pub query_file_size : String → Action S (ℤ × Option Space)
  unfolding obtain_file_space
  query_file_size src_file = do
    (ret, space) ← obtain_file_space fs src_file
    pure (if nonzero ret || no_bytes space then neg 1 else pos 0, space)
    where
      no_bytes : Option Space → Bool
      no_bytes none = false
      no_bytes (some n) = n.size_byte == 0

  unfoldable pub query_dir_remain_space : String → S → ℤ × Option ℕ
  unfolding obtain_folder_remain_space
  query_dir_remain_space src_dir s =
      let (ret, space) = obtain_folder_remain_space fs src_dir s in
      (if nonzero ret || is_zero space then neg 1 else pos 0, space)
    where
      is_zero : Option ℕ → Bool
      is_zero none = false
      is_zero (some n) = n == 0

  module _ (fuel : ℕ) where
    unfoldable pub mv_file_to_target : String → String → Bool → Action S ℤ
    unfolding move_file
    mv_file_to_target src_file dst_dir is_check_src_file = do
      found ← ask (fs.exists src_file)
      if not found then pure (if is_check_src_file then neg 1 else pos 0) else do
        ret ← move_file fs fuel src_file dst_dir true true true
        pure (if nonzero ret then neg 1 else pos 0)

    unfoldable pub replace_all : List (String × String) → Action S ℤ
    unfolding mv_file_to_target
    replace_all [] = pure (pos 0)
    replace_all ((src, dst) ∷ pairs) = do
      ret ← mv_file_to_target src dst false
      if nonzero ret then pure ret else replace_all pairs

module _ {S : Type 0} (remote : Remote S) where
  unfoldable pub http_download : String → String → Action S ℤ
  http_download in_url target_local_file s =
      let (b, t) = remote.download_file in_url target_local_file s in
      pure (if b then pos 0 else neg 1) t

  unfoldable pub http_file_size : String → S → ℤ × ℕ
  http_file_size in_url s = elim (remote.file_size in_url s) [
    | none ↦ (neg 1, 0)
    | some n ↦ (pos 0, n % 2 ^ 64)
  ]

  unfoldable pub smb_download : (url dst_dir user_name passwd : String) → Action S ℤ
  smb_download url dst_dir user_name passwd s =
      let (ret, t) = remote.download_one url dst_dir user_name passwd s in
      pure (if nonzero ret then neg 1 else pos 0) t

  module _ (fs : Disk S) where
    -- The comparison of doubles is exact here: twice the limit is below 2 ^ 53.
    unfoldable pub url_space_measure : String → String → S → ℤ
    unfolding http_file_size obtain_folder_remain_space size_limit
    url_space_measure in_url dst_dir_path s =
        let (ret, file_size_b) = http_file_size in_url s in
        let (ret', remain) = obtain_folder_remain_space fs dst_dir_path s in
        let unknown = nonzero ret || file_size_b == 0 || ltb size_limit file_size_b in
        if unknown || nonzero ret' || file_size_b == 0
        then pos 0
        else if ltb (remain_of remain * 1000) (file_size_b * 2)
        then neg 1
        else pos 0
      where
        remain_of : Option ℕ → ℕ
        remain_of none = 0
        remain_of (some n) = n

  module _ (fs : Disk S) (fuel : ℕ) where
    unfoldable pub down_file_and_replace :
        (in_url dst_dir_path cache_dir_path : String) → Action S ℤ
    unfolding url_space_measure http_download mv_file_to_target clean_folder
    down_file_and_replace in_url dst_dir_path cache_dir_path = do
      ret ← ask (λ s. some (url_space_measure fs in_url dst_dir_path s))
      if nonzero ret then pure (neg 1) else do
        ret ← clean_folder fs cache_dir_path
        if nonzero ret then pure (neg 2) else do
          let tmp_file = path_below cache_dir_path (remote.last_name in_url)
          ret ← http_download in_url tmp_file
          if nonzero ret then pure (neg 3) else do
            ret ← mv_file_to_target fs fuel tmp_file dst_dir_path false
            if nonzero ret then pure (neg 4) else do
              ret ← clean_folder fs cache_dir_path
              if nonzero ret then pure (neg 5) else pure (pos 0)

    module _ (zip : Zip S) where
      unfoldable pub unzip_testbed : (in_url dst_dir_path cache_dir_path : String) → Action S ℤ
      unfolding url_space_measure http_download recursive_decompress clean_folder
      unzip_testbed in_url dst_dir_path cache_dir_path = do
        ret ← ask (λ s. some (url_space_measure fs in_url dst_dir_path s))
        if nonzero ret then pure (neg 1) else do
          ret ← clean_folder fs cache_dir_path
          if nonzero ret then pure (neg 2) else do
            let tmp_file = path_below cache_dir_path "tmp.zip"
            ret ← http_download in_url tmp_file
            if nonzero ret then pure (neg 3) else do
              ret ← recursive_decompress fs zip fuel tmp_file dst_dir_path true
              if nonzero ret then pure (neg 4) else do
                ret ← clean_folder fs cache_dir_path
                if nonzero ret then pure (neg 5) else pure (pos 0)

      unfoldable pub update_testbed_and_replace :
          (in_url dst_dir_path cache_dir_path : String) → List (String × String) → Action S ℤ
      unfolding unzip_testbed replace_all
      update_testbed_and_replace in_url dst_dir_path cache_dir_path replace_list = do
        ret ← unzip_testbed in_url dst_dir_path cache_dir_path
        if nonzero ret then pure ret else replace_all fs fuel replace_list
