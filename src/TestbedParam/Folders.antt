-- ===== src/TestbedParam/Folders.antt =====
-- Which folders a task has when the constructor of
-- src/target/o_pocket/context/logic/objecitve/testbed_param.h has made them, and which command it runs.
use mathlib.Core.Path.{subst}
use device_broker.Prelude.{
  ◌≡◌, refl, sym, ◌⊎◌, inl, inr, String, Bool, true, false, Bool-cases, List, [], ◌∷◌, All, All-map,
  ℤ, pos, neg, eq_ℤ, if◌then◌else◌,
}
use device_broker.FileOpt.{path_below}
use device_broker.TestbedParam.{Env, ensure, require, folders}
use device_broker.TestbedParam.Text.{to_string}
use device_broker.TestbedParam.Command.{
  Names, run_cmd_of, get_testbed_name, module_cmd, assigned, commands,
}

module _ {S : Type 0} (env : Env S) where
  -- `mkdir` as it is documented: a folder that it makes is there, and none goes away.
  pub record Makes : Type 0 where
    pub made :
        (p : String) (s : S) → (env.mkdir p s).0 ≡ true → env.access p (env.mkdir p s).1 ≡ true
    pub kept :
        (p q : String) (s : S) → env.access q s ≡ true → env.access q (env.mkdir p s).1 ≡ true

  -- The status is 0 and the folders are there, or it is -1.
  abbrev pub Ready : List String → ℤ × S → Type 0
  Ready ps st = ((st.0 ≡ pos 0) × All (λ p. env.access p st.1 ≡ true) ps) ⊎ (st.0 ≡ neg 1)

  require-Ready :
      (p : String) (ps : List String) (st : ℤ × S) → Ready ps st → Ready (p ∷ ps) (require env p st)
  unfolding require
  require-Ready p ps (r, s) h = elim (Bool-cases (env.access p s)) [
    | inr e ↦ inr (simp e)
    | inl e ↦ (elim h [ inr b ↦ inr (simp (e, b)) | inl (z, all) ↦ inl (simp (e, z), (e, all)) ])
  ]

  ensure-there : (p : String) (r : ℤ) (s : S) → env.access p s ≡ true → ensure env p (r, s) ≡ (r, s)
  unfolding ensure
  ensure-there p r s e = simp e

  ensure-new :
      (p : String) (r : ℤ) (s : S)
      → env.access p s ≡ false
      → ensure env p (r, s) ≡ (if (env.mkdir p s).0 then r else neg 1, (env.mkdir p s).1)
  unfolding ensure
  ensure-new p r s e = simp e

  ensure-Ready :
      Makes
      → (p : String) (ps : List String) (st : ℤ × S) → Ready ps st
      → Ready (p ∷ ps) (ensure env p st)
  ensure-Ready m p ps (r, s) h = elim (Bool-cases (env.access p s)) [
    | inl e ↦
        subst (Ready (p ∷ ps)) (sym (ensure-there p r s e))
          (elim h [ inr b ↦ inr b | inl (z, all) ↦ inl (z, (e, all)) ])
    | inr e ↦
        subst (Ready (p ∷ ps)) (sym (ensure-new p r s e)) (elim (Bool-cases (env.mkdir p s).0) [
          | inr e' ↦ inr (simp e')
          | inl e' ↦ (elim h [
            | inr b ↦ inr (simp (e', b))
            | inl (z, all) ↦ inl (
              simp (e', z),
              (
                m.made p s e',
                All-map (λ q. env.access q s ≡ true) (λ q. env.access q (env.mkdir p s).1 ≡ true)
                    (λ q. m.kept p q s) ps all,
              ),
            )
          ])
        ])
  ]

  -- Whatever is there before: either the status is 0 and the root, the testbed's folder, the task's and
  -- the message's are all there, and those of the results and of the materials below the message's,
  -- or the status is -1.
  pub folders-Ready :
      Makes
      → (root testbed : String) (task_id msg_id : ℤ) (s : S)
      → let task = path_below testbed (to_string task_id) in
        let message = path_below task (to_string msg_id) in
        Ready
          (path_below message "metrial"
            ∷ message
            ∷ path_below message "result"
            ∷ message
            ∷ task
            ∷ testbed
            ∷ root
            ∷ [])
          (folders env root testbed task_id msg_id (pos 0, s))
  unfolding folders
  folders-Ready m root testbed task_id msg_id s =
      let task : String = path_below testbed (to_string task_id) in
      let message : String = path_below task (to_string msg_id) in
      let above : List String = task ∷ testbed ∷ root ∷ [] in
      let results : List String = path_below message "result" ∷ message ∷ above in
      let make = ensure-Ready m in
      make (path_below message "metrial") (message ∷ results) _ (
        make message results _ (
          make (path_below message "result") (message ∷ above) _ (
            make message above _ (
              make task (testbed ∷ root ∷ []) _ (
                require-Ready testbed (root ∷ []) _
                  (require-Ready root [] (pos 0, s) (inl (refl, tt))))))))

-- For material of the type "register" the command registers a face, whatever the message's number
-- is: the command that deletes all faces, made for the message 0, is never the one that is run.
pub register_never_deletes :
    (exists : Bool) (msg_id : ℤ) (n : Names)
    → run_cmd_of exists "register" msg_id n
      ≡ module_cmd n
          (get_testbed_name exists n.testbed_path).1
          "  "
          "dms"
          "face_Register"
          "task1"
          " --logEnable=false "
unfolding run_cmd_of assigned commands
register_never_deletes exists msg_id n = elim (Bool-cases (eq_ℤ msg_id (pos 0))) [
  | inl e ↦ simp e
  | inr e ↦ simp e
]
