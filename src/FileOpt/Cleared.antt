-- ===== src/FileOpt/Cleared.antt =====
-- What the two file jobs of src/target/o_pocket/context/logic/file_opt do to the files.
use device_broker.Prelude.{
  ◌≡◌, ◌⊎◌, inl, inr, refl, ◌∙◌, String, Bool, true, false, ◌&&◌, ◌||◌, Bool-cases, none, some,
  Option-cases, List, [], ◌∷◌, ℤ, pos, neg, nonzero, if◌then◌else◌, arith,
}
use device_broker.Requests.{TaskFileOperationFileClear}
use device_broker.HttpService.{same_string}
use device_broker.TaskSuit.{TaskReturn}
use device_broker.FileSystem.{Disk, delete_file}
use device_broker.FileSystem.Kept.{Files, change-cases}
use device_broker.FileSystem.Throwing.{done, and_then, ask, attempted}
use device_broker.FileOpt.Jobs.{
  clear_file, with_suffix, find_file_list_by_suffix, file_operation_file_clear,
}

-- Whether a path names one of some files.
abbrev pub member : (String → String → Bool) → String → List String → Bool
member same q [] = false
member same q (p ∷ ps) = same q p || member same q ps

module _ {S : Type 0} (fs : Disk S) (f : Files fs) where
  -- The files of the list are gone and the answer is 0, or the answer is another; nothing else changes.
  pub record Cleared (good bad : ℤ) (files : List String) (s t : S) (r : ℤ) : Type 0 where
    pub answer :
        ((r ≡ good) × ((q : String) → member f.same q files ≡ true → f.content q t ≡ none))
        ⊎ (r ≡ bad)
    pub others : (q : String) → member f.same q files ≡ false → f.content q t ≡ f.content q s

  delete_file-cases :
      (p : String) (s : S)
      → fs.is_regular_file p s ≡ fs.exists p s
      → ((t : S) × (delete_file fs p false s ≡ (done (pos 0), t)) × (fs.remove p s ≡ (true, t)))
        ⊎ ((r : ℤ) × (t : S) × (delete_file fs p false s ≡ (done r, t))
            × (nonzero r ≡ true)
            × ((q : String) → f.content q t ≡ f.content q s))
  unfolding delete_file
  delete_file-cases p s same = elim (Option-cases (fs.exists p s)) [
    | inl e ↦ inr (neg 10, s, simp (ask, e), refl, λ q. refl)
    | inr (false, e) ↦ inr (neg 1, s, simp (ask, e), refl, λ q. refl)
    | inr (true, e) ↦ (elim (change-cases (fs.remove p s)) [
      | inl (t, gone) ↦ inl (t, simp (ask, e, same ∙ e, attempted, gone), gone)
      | inr (t, kept) ↦ inr (
        neg 10,
        t,
        simp (ask, e, same ∙ e, attempted, kept),
        refl,
        λ q. f.remove_failed p q s t kept,
      )
    ])
  ]

  clear_file-Cleared :
      (files : List String) (s : S)
      → ((p : String) (t : S)
          → member f.same p files ≡ true
          → fs.is_regular_file p t ≡ fs.exists p t)
      → (r : ℤ) × (t : S) × (clear_file fs files s ≡ (done r, t))
        × Cleared (pos 0) (neg 1) files s t r
  unfolding clear_file
  clear_file-Cleared [] s named =
      (pos 0, s, refl, record { answer = inl (refl, λ q h. ground arith); others = λ q h. refl })
  clear_file-Cleared (p ∷ ps) s named =
      let later =
        λ (q : String) (t : S) (h : member f.same q ps ≡ true). named q t (ground (arith, h)) in
      elim (delete_file-cases p s (named p s (ground (arith, f.same_refl p)))) [
        | inr (r, t, run, bad, same) ↦ (
          neg 1,
          t,
          simp (run, and_then, bad),
          record { answer = inr refl; others = λ q h. same q },
        )
        | inl (t, run, gone) ↦
            (let (r, u, run', rest) = clear_file-Cleared ps t later in
              (
                r,
                u,
                simp (run, and_then, run'),
                record {
                  answer = elim rest.answer [
                    | inr e ↦ inr e
                    | inl (e, all) ↦ inl (
                      e,
                      λ q h. elim (Bool-cases (member f.same q ps)) [
                        | inl m ↦ all q m
                        | inr m ↦ ground (arith, h, rest.others q m, f.remove_done p q s t gone)
                      ],
                    )
                  ];
                  others = λ q h.
                      ground
                        (arith, h, rest.others q (ground (arith, h)), f.remove_done p q s t gone);
                },
              ))
      ]

  -- The regular files with a suffix among some entries.
  abbrev pub chosen : (String → Bool) → String → List String → List String
  chosen is_file suffix [] = []
  chosen is_file suffix (p ∷ ps) =
      let rest = chosen is_file suffix ps in
      if is_file p && same_string (fs.extension p) suffix then p ∷ rest else rest

  module _ (s : S) (is_file : String → Bool)
      (regular : (p : String) → fs.is_regular_file p s ≡ some (is_file p)) where
    with_suffix-chosen :
        (suffix : String) (es : List String)
        → with_suffix fs suffix es s ≡ (done (chosen is_file suffix es), s)
    unfolding with_suffix
    with_suffix-chosen suffix [] = refl
    with_suffix-chosen suffix (e ∷ es) =
        simp (ask, regular e, and_then, with_suffix-chosen suffix es)

    find_file_list_by_suffix-chosen :
        (dir suffix : String) (es : List String)
        → fs.exists dir s ≡ some true
        → fs.is_directory dir s ≡ some true
        → fs.entries dir s ≡ some es
        → find_file_list_by_suffix fs dir suffix s ≡ (done (pos 0, chosen is_file suffix es), s)
    unfolding find_file_list_by_suffix
    find_file_list_by_suffix-chosen dir suffix es found folder walk =
        simp (ask, found, folder, walk, and_then, with_suffix-chosen suffix es)

    -- A request to clear core files, where the log folder can be walked and its core files are always
    -- files: it ends with the answer 0, and then every core file below the folder is gone, or with -3;
    -- either way nothing but core files is touched.
    pub file_clear-core_files :
        (info : TaskFileOperationFileClear) (es : List String)
        → info.src_type ≡ "core_file"
        → fs.exists "/var/log" s ≡ some true
        → fs.is_directory "/var/log" s ≡ some true
        → fs.entries "/var/log" s ≡ some es
        → ((p : String) (t : S)
            → member f.same p (chosen is_file ".core" es) ≡ true
            → fs.is_regular_file p t ≡ fs.exists p t)
        → (r : TaskReturn) × (t : S) × (file_operation_file_clear fs info s ≡ (done r, t))
          × Cleared (pos 0) (neg 3) (chosen is_file ".core" es) s t r.code_value
    unfolding file_operation_file_clear
    file_clear-core_files info es type found folder walk named =
        let (r, t, run, cleared) = clear_file-Cleared (chosen is_file ".core" es) s named in
        let find = find_file_list_by_suffix-chosen "/var/log" ".core" es found folder walk in
        elim cleared.answer [
          | inl (e, gone) ↦ (
            record { code_msg = "success"; code_value = pos 0; task_type = 7 },
            t,
            simp (type, find, and_then, run, e),
            record { answer = inl (refl, gone); others = cleared.others },
          )
          | inr e ↦ (
            record { code_msg = "clear_file fail"; code_value = neg 3; task_type = 6 },
            t,
            simp (type, find, and_then, run, e),
            record { answer = inr refl; others = cleared.others },
          )
        ]
