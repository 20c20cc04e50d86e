-- ===== src/FileSystem/Kept.antt =====
-- What `move_file` of src/target/o_pocket/filesystem/filesystem_impl.inl does to the files, where
-- <filesystem> removes and renames a file as it is documented to.
use device_broker.Prelude.{
  ℕ, String, Bool, true, false, ℤ, Option, none, some, List, ◌≡◌, ◌⊎◌, inl, inr, refl, sym, pos,
  neg, if◌then◌else◌, arith, ◌∙◌, Option-cases,
}
use device_broker.FileSystem.{Disk, normal_path}
use device_broker.FileSystem.Throwing.{
  Outcome, done, catching, ask, attempt, attempted, pure, ◌>>=◌, ◌>>◌,
}
use device_broker.FileSystem.Move.{move_regular, move_file}

-- `content p s` is what the file at the path `p` holds, `none` where there is no such file; `same`
-- tells whether two paths name one file.
pub record Files {S : Type 0} (fs : Disk S) : Type 0 where
  pub content : String → S → Option (List ℕ)
  pub same : String → String → Bool
  pub same_refl : (p : String) → same p p ≡ true
  pub remove_done :
      (p q : String) (s t : S)
      → fs.remove p s ≡ (true, t)
      → content q t ≡ (if same q p then none else content q s)
  pub remove_exists :
      (p : String) (s t : S) → fs.remove p s ≡ (true, t) → fs.exists p t ≡ some false
  pub remove_failed :
      (p q : String) (s t : S) → fs.remove p s ≡ (false, t) → content q t ≡ content q s
  pub rename_done :
      (p q r : String) (x : List ℕ) (s t : S)
      → content p s ≡ some x
      → fs.rename p q s ≡ (true, t)
      → content r t ≡ (if same r q then some x else if same r p then none else content r s)
  pub rename_failed :
      (p q r : String) (s t : S) → fs.rename p q s ≡ (false, t) → content r t ≡ content r s
  pub rename_missing :
      (p q : String) (s : S) → fs.exists p s ≡ some false → (fs.rename p q s).0 ≡ false

-- The source of a move is a file: what the questions before the move answer.
pub record IsFile {S : Type 0} (fs : Disk S) (file src : String) (s : S) : Type 0 where
  pub path : String
  pub found : fs.exists file s ≡ some true
  pub absolute : fs.absolute file s ≡ some path
  pub normal : normal_path fs path s ≡ (done src, s)
  pub regular : fs.is_regular_file src s ≡ some true

-- The file is at the target and nowhere else, or it has stayed where it was.
pub data Moved {S : Type 0} {fs : Disk S} (f : Files fs) (src dst : String) (x : List ℕ) (s : S)
    : Outcome ℤ × S → Type 0 where
  moved :
      (t : S)
      → f.content dst t ≡ some x
      → f.content src t ≡ none
      → ((q : String) → f.same q src ≡ false → f.same q dst ≡ false → f.content q t ≡ f.content q s)
      → Moved f src dst x s (done (pos 0), t)
  stayed :
      (t : S)
      → f.content src t ≡ some x
      → ((q : String) → f.same q dst ≡ false → f.content q t ≡ f.content q s)
      → Moved f src dst x s (done (neg 10), t)

module _ {S : Type 0} where
  pub change-cases : (r : Bool × S) → ((t : S) × (r ≡ (true, t))) ⊎ ((t : S) × (r ≡ (false, t)))
  change-cases (true, t) = inl (t, refl)
  change-cases (false, t) = inr (t, refl)

  module _ (fs : Disk S) where
    move_file-IsFile :
        (n : ℕ) (file src dst : String) (override below : Bool) (s : S)
        → IsFile fs file src s
        → move_file fs n file dst true override below s
          ≡ catching (move_regular fs true override src dst) s
    unfolding move_file
    move_file-IsFile n file src dst override below s h =
        simp (ask, h.found, h.absolute, h.normal, h.regular)

    module _ (f : Files fs) where
      renamed :
          (src dst : String) (x : List ℕ) (s t : S)
          → f.same src dst ≡ false
          → f.content src s ≡ some x
          → ((q : String) → f.same q dst ≡ false → f.content q t ≡ f.content q s)
          → Moved f src dst x s (catching (attempt (fs.rename src dst) >>= λ _. pure (pos 0)) t)
      renamed src dst x s t apart h same =
          let here : f.content src t ≡ some x = same src apart ∙ h in
          elim (change-cases (fs.rename src dst t)) [
            | inl (u, e) ↦
                rw (e, attempted)
                  (moved u (ground (arith, f.same_refl dst, f.rename_done src dst dst x t u here e))
                    (ground (arith, apart, f.same_refl src, f.rename_done src dst src x t u here e))
                    (λ q not_src not_dst. ground (
                      arith,
                      not_src,
                      not_dst,
                      f.rename_done src dst q x t u here e,
                      same q not_dst,
                    )))
            | inr (u, e) ↦
                rw (e, attempted)
                  (stayed u (f.rename_failed src dst src t u e ∙ here)
                    (λ q not_dst. f.rename_failed src dst q t u e ∙ same q not_dst))
          ]

      removed :
          (src dst : String) (x : List ℕ) (s : S)
          → f.same src dst ≡ false
          → f.content src s ≡ some x
          → Moved f src dst x s (
              catching (attempt (fs.remove dst) >> (attempt (fs.rename src dst) >> pure (pos 0))) s)
      removed src dst x s apart h = elim (change-cases (fs.remove dst s)) [
        | inl (t, e) ↦
            rw (e, attempted)
              (renamed src dst x s t apart h
                (λ q not_dst. ground (arith, not_dst, f.remove_done dst q s t e)))
        | inr (t, e) ↦
            rw (e, attempted)
              (stayed t (f.remove_failed dst src s t e ∙ h)
                (λ q not_dst. f.remove_failed dst q s t e))
      ]

      -- However the answers of <filesystem> fall out, moving a file, by a rename and with the leave to
      -- replace what is there, to a path that does not name the file itself ends, and the file is not lost: it is at the target alone and the answer is 0, or it is where it was and the
      -- answer is -10; no third file changes.
      pub move_file-Moved :
          (n : ℕ) (file src dst_folder : String) (below : Bool) (x : List ℕ) (s : S)
          → IsFile fs file src s
          → f.same src (fs.join dst_folder (fs.filename src)) ≡ false
          → f.content src s ≡ some x
          → Moved f src
              (fs.join dst_folder (fs.filename src))
              x
              s
              (move_file fs n file dst_folder true true below s)
      unfolding move_regular
      move_file-Moved n file src dst_folder below x s h apart e =
          let dst : String = fs.join dst_folder (fs.filename src) in
          rw (move_file-IsFile n file src dst_folder true below s h)
            (elim (Option-cases (fs.exists dst s)) [
              | inl e' ↦ rw (e', ask) (stayed s e (λ q _. refl))
              | inr (true, e') ↦ rw (e', ask) (removed src dst x s apart e)
              | inr (false, e') ↦ rw (e', ask) (removed src dst x s apart e)
            ])

      -- A file that is moved to where it is already is lost: where <filesystem> can remove it, the
      -- answer is -10 and there is no such file any more, the move having removed its target first.
      move_file-in_place_lost :
          (n : ℕ) (file src dst_folder : String) (below : Bool) (s t : S)
          → IsFile fs file src s
          → src ≡ fs.join dst_folder (fs.filename src)
          → fs.exists src s ≡ some true
          → fs.remove src s ≡ (true, t)
          → ((move_file fs n file dst_folder true true below s).0 ≡ done (neg 10))
            × (f.content src (move_file fs n file dst_folder true true below s).1 ≡ none)
      unfolding move_regular
      move_file-in_place_lost n file src dst_folder below s t h same found gone =
          rw (move_file-IsFile n file src dst_folder true below s h, sym same)
            (rw (found, ask)
              (rw (gone, attempted)
                (elim (change-cases (fs.rename src src t)) [
                  | inl (u, e) ↦
                      ground (arith, f.rename_missing src src t (f.remove_exists src s t gone), e)
                  | inr (u, e) ↦
                      rw (e, attempted)
                        (
                          refl,
                          ground (
                            arith,
                            f.same_refl src,
                            f.rename_failed src src src t u e,
                            f.remove_done src src s t gone,
                          ),
                        )
                ])))
