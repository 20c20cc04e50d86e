-- ===== src/Samba/Walk.antt =====
-- The walk over a folder of src/target/o_pocket/io/samba_transfer.cpp: GetFileUrlsRecursive on a share
-- and GetFilePathsRecursive on the disk. What a folder holds when it is read is a tree.
use Prim.Native.String.{◌++◌, slice, len}
use device_broker.Prelude.{
  ℕ, zero, suc, ◌+◌, ◌*◌, ◌/◌, ◌%◌, ◌^◌, ◌-◌, String, Bool, true, false, not, ◌||◌, ◌&&◌, List, [],
  ◌∷◌, ℤ, pos, neg, ltb, ltb_ℤ, if◌then◌else◌,
}
use device_broker.HttpService.{same_string}

-- A file with its size, or a folder, with whether it can be opened.
mutual
  pub data Node : Type 0 where
    file : String → ℕ → Node
    folder : String → Bool → Nodes → Node

  pub data Nodes : Type 0 where
    nil : Nodes
    cons : Node → Nodes → Nodes

-- `allFileUrls` and `specificSuffixFileUrls`, whose entries hold a size as a `float`, with the sums of
-- the sizes, the 32 bits of an `int` each.
pub record Found : Type 0 where
  pub all_file_urls : List (String × ℕ)
  pub all_download_file_size : ℕ
  pub specific_suffix_file_urls : List (String × ℕ)
  pub specific_suffix_file_size : ℕ

abbrev pub nothing_found : Found
nothing_found = record {
  all_file_urls = [];
  all_download_file_size = 0;
  specific_suffix_file_urls = [];
  specific_suffix_file_size = 0;
}

-- A path gets a `/` at its end where it has none.
unfoldable pub with_slash : String → String
with_slash url = if same_string (slice url (len url - 1) (len url)) "/" then url else url ++ "/"

abbrev pub is_dots : String → Bool
is_dots name = same_string name "." || same_string name ".."

-- Whether a path is longer than a suffix and ends in it.
unfoldable pub ends_in : String → String → Bool
ends_in path suffix =
    ltb (len suffix) (len path)
    && same_string (slice path (len path - len suffix) (len path)) suffix

abbrev pub any_suffix : String → List String → Bool
any_suffix path [] = false
any_suffix path (suffix ∷ suffixes) =
    let rest = any_suffix path suffixes in if ends_in path suffix then true else rest

-- The first suffix "all" stands for every file. DownloadAll asks that there is one, before the walk.
unfoldable pub is_wanted : List String → String → Bool
unfolding ends_in
is_wanted [] path = false
is_wanted (suffix ∷ suffixes) path =
    if same_string suffix "all" then true else any_suffix path (suffix ∷ suffixes)

-- `push_back`
abbrev pub snoc : {A : Type 0} → List A → A → List A
snoc [] a = a ∷ []
snoc (x ∷ xs) a = x ∷ snoc xs a

-- The least power of two of which a size is less than 2 ^ 24; 40 doublings are enough for any size
-- below 2 ^ 64.
unfoldable float_unit : (fuel unit : ℕ) → ℕ → ℕ
float_unit zero unit n = unit
float_unit (suc fuel) unit n =
    let rest = float_unit fuel (2 * unit) n in if ltb n (2 ^ 24 * unit) then unit else rest

-- The whole number that a size becomes as a `float`: the nearest of 24 bits, the even one of two.
unfoldable pub to_float : ℕ → ℕ
unfolding float_unit
to_float n =
    let unit = float_unit 40 1 n in
    let q = n / unit in
    let r = n % unit in
    if ltb (2 * r) unit
    then q * unit
    else if ltb unit (2 * r)
    then (q + 1) * unit
    else (q + q % 2) * unit

unfoldable pub push_file : List String → String → ℕ → Found → Found
unfolding is_wanted
push_file suffixes path size f =
    let all = record f {
      all_file_urls = snoc f.all_file_urls (path, to_float size);
      all_download_file_size = (f.all_download_file_size + size) % 2 ^ 32;
    } in
    if is_wanted suffixes path
    then record all {
      specific_suffix_file_urls = snoc f.specific_suffix_file_urls (path, to_float size);
      specific_suffix_file_size = (f.specific_suffix_file_size + size) % 2 ^ 32;
    }
    else all

-- The walk of a folder's entries, and of a folder, which answers -1 where it cannot be opened.
unfoldable mutual
  unfolding push_file with_slash

  pub walk_node : List String → String → Node → Found → ℤ × Found
  walk_node suffixes url (file name size) f =
      if is_dots name then (pos 0, f) else (pos 0, push_file suffixes (url ++ name) size f)
  walk_node suffixes url (folder name opened nodes) f =
      let (ret, g) = walk_nodes suffixes (with_slash (url ++ name ++ "/")) nodes f in
      if is_dots name
      then (pos 0, f)
      else if not opened
      then (neg 1, f)
      else if ltb_ℤ ret (pos 0)
      then (neg 1, g)
      else (pos 0, g)

  pub walk_nodes : List String → String → Nodes → Found → ℤ × Found
  walk_nodes suffixes url nil f = (pos 0, f)
  walk_nodes suffixes url (cons node nodes) f =
      let (ret, g) = walk_node suffixes url node f in
      let rest = walk_nodes suffixes url nodes g in if ltb_ℤ ret (pos 0) then (neg 1, g) else rest

-- GetFileUrlsRecursive, from the address that is given.
unfoldable pub get_file_urls_recursive : List String → String → Bool → Nodes → Found → ℤ × Found
unfolding walk_nodes with_slash
get_file_urls_recursive suffixes url opened nodes f =
    if opened then walk_nodes suffixes (with_slash url) nodes f else (neg 1, f)
