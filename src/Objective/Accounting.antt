-- ===== src/Objective/Accounting.antt =====
-- What the three entities report and count
-- (src/target/o_pocket/context/logic/objecitve/logic_impl_http_service_objective.cpp).
use native.Mathlib.Nat.{add-zero}
use device_broker.Prelude.{
  ℕ, zero, suc, ◌+◌, ◌<◌, ◌≡◌, ◌≢◌, refl, ap, ◌∙◌, true, false, Option, none, some, List, [], ◌∷◌,
  ◌++◌, ℤ, pos, nonzero, ◌⊎◌, inl, inr, Bool-cases, arith, String,
}
use device_broker.Requests.{RabbitmqMsgTaskInfo}
use device_broker.Objective.{
  Entity, download, run, upload, Report, Manager, Outcome, TaskType, retry, fail_stage,
  check_msg_serial_to_clean, call_entity, subtask_download_entity, subtask_run_entity,
  subtask_upload_entity,
}

-- k failed attempts from the one numbered i.
abbrev pub AllFail : (ℕ → ℤ) → ℕ → ℕ → Type 0
AllFail answers i zero = Unit
AllFail answers i (suc k) = (nonzero (answers i) ≡ true) × AllFail answers (i + 1) k

-- A retry loop that may try n + 1 times answers what its last attempt answered: the first that
-- answers 0, all before it having failed, or the last of n + 1 that all failed.
pub retry_lem :
    (answers : ℕ → ℤ) (n i : ℕ) (ret : ℤ)
    → (k : ℕ) × (k < suc n)
      × (retry answers (suc n) i ret ≡ answers (i + k))
      × AllFail answers i k
      × ((nonzero (answers (i + k)) ≡ false) ⊎ (AllFail answers i (suc n)))
unfolding retry
retry_lem answers zero i ret =
    let at : i ≡ i + 0 = omega arith in
    elim (Bool-cases (nonzero (answers i))) [
      | inr ok ↦ (0, omega arith, rw ok (ap answers at), tt, inl (rw (add-zero i) ok))
      | inl bad ↦ (0, omega arith, rw bad (ap answers at), tt, inr (bad, tt))
    ]
retry_lem answers (suc n) i ret =
    let at : i ≡ i + 0 = omega arith in
    elim (Bool-cases (nonzero (answers i))) [
      | inr ok ↦ (0, omega arith, rw ok (ap answers at), tt, inl (rw (add-zero i) ok))
      | inl bad ↦
          let (k, b, e, f, g) = retry_lem answers n (i + 1) (answers i) in
          let on : i + 1 + k ≡ i + suc k = omega arith in
          (
            suc k,
            omega arith,
            rw bad (e ∙ ap answers on),
            (bad, f),
            elim g [ inl ok ↦ inl (rw (← on) ok) | inr all ↦ inr (bad, all) ],
          )
    ]

-- The message that an entity is about, and the entity that a success hands on.
abbrev pub message : Entity → RabbitmqMsgTaskInfo
message (download info) = info
message (run info) = info
message (upload info) = info

abbrev pub successor : Entity → Option Entity
successor (download info) = some (run info)
successor (run info) = some (upload info)
successor (upload info) = none

-- How many messages a step of the chain ends.
abbrev pub ended : Option Entity → ℕ
ended none = 1
ended (some e) = 0

-- What an entity reports and counts, given what it left.
abbrev pub Accounts : Entity → Manager → Outcome → Type 0
Accounts e m o =
    (r : Report) × (o.manager.sent ≡ m.sent ++ r ∷ [])
    × (r.about ≡ message e)
    × (r.code ≡ o.return.code_value)
    × (o.manager.g_task_end ≡ m.g_task_end + ended o.follow)
    × (((nonzero r.code ≡ true)
          × (r.msg ≡ "fail")
          × (o.follow ≡ none)
          × (o.manager.updated_cnt ≡ m.updated_cnt))
        ⊎ ((nonzero r.code ≡ false)
            × (r.msg ≡ "success")
            × (o.follow ≡ successor e)
            × (o.manager.updated_cnt ≡ m.updated_cnt + 1)))

check_keeps :
    (m : Manager)
    → let t = (check_msg_serial_to_clean m).1 in
      (t.sent ≡ m.sent) × (t.g_task_end ≡ m.g_task_end) × (t.updated_cnt ≡ m.updated_cnt)
unfolding check_msg_serial_to_clean
check_keeps m = ground arith

fail-Accounts :
    (e : Entity) (type : TaskType) (ret : ℤ) (content code_msg : String) (m : Manager)
    → nonzero ret ≡ true
    → Accounts e m (fail_stage (message e) type ret content code_msg m)
unfolding fail_stage
fail-Accounts e type ret content code_msg m bad =
    let report : Report = record {
      about = message e;
      code = ret;
      msg = "fail";
      content = content;
    } in
    let (s, g, u) =
      check_keeps (record m { sent = m.sent ++ report ∷ []; g_task_end = m.g_task_end + 1 }) in
    (report, s, refl, refl, g, inl (bad, refl, refl, u))

-- An entity puts exactly one report, about its own message, whose code is its own return value.
-- When that is not 0 the report says "fail", nothing is handed on, the message is counted as
-- ended and the success counter stays; when it is 0 the report says "success", the success counter
-- rises by one, the next stage of the same message is handed on, and the message is counted as
-- ended exactly when there is no next stage.
pub entity-Accounts :
    (answers : ℕ → ℤ) (e : Entity) (m : Manager) → Accounts e m (call_entity answers e m)
unfolding call_entity subtask_download_entity subtask_run_entity subtask_upload_entity
entity-Accounts answers (download info) m =
    elim (Bool-cases (nonzero (retry answers 3 0 (pos 0)))) [
      | inl bad ↦
          rw (bad, subtask_download_entity)
            (fail-Accounts (download info) TaskType.task_type_sub_down _ _ "smb download fail" m
              bad)
      | inr ok ↦
          rw (ok, subtask_download_entity)
            (
              record {
                about = info;
                code = retry answers 3 0 (pos 0);
                msg = "success";
                content = "non";
              },
              refl,
              refl,
              refl,
              omega arith,
              inr (ok, refl, refl, refl),
            )
    ]
entity-Accounts answers (run info) m = elim (Bool-cases (nonzero (retry answers 10 0 (pos 0)))) [
  | inl bad ↦
      rw (bad, subtask_run_entity)
        (fail-Accounts (run info) TaskType.task_type_sub_running _ _ "run testbed fail" m bad)
  | inr ok ↦
      rw (ok, subtask_run_entity)
        (
          record {
            about = info;
            code = retry answers 10 0 (pos 0);
            msg = "success";
            content = "non";
          },
          refl,
          refl,
          refl,
          omega arith,
          inr (ok, refl, refl, refl),
        )
]
entity-Accounts answers (upload info) m = elim (Bool-cases (nonzero (retry answers 3 0 (pos 0)))) [
  | inl bad ↦
      rw (bad, subtask_upload_entity)
        (fail-Accounts (upload info) TaskType.task_type_upload _ _ "result upload fail" m bad)
  | inr ok ↦
      let report : Report = record {
        about = info;
        code = retry answers 3 0 (pos 0);
        msg = "success";
        content = "non";
      } in
      let (s, g, u) = check_keeps (record m {
        sent = m.sent ++ report ∷ [];
        g_task_end = m.g_task_end + 1;
        updated_cnt = m.updated_cnt + 1;
      }) in
      rw (ok, subtask_upload_entity) (report, s, refl, refl, g, inr (ok, refl, refl, u))
]

-- Entities called one after the other, each with what its attempts answer.
abbrev pub call_all : List ((ℕ → ℤ) × Entity) → Manager → Manager
call_all [] m = m
call_all ((answers, e) ∷ es) m = call_all es (call_entity answers e m).manager

check_never :
    (m : Manager) → m.num_init ≡ 0 → m.g_task_end ≢ 0 → check_msg_serial_to_clean m ≡ (false, m)
unfolding check_msg_serial_to_clean
check_never m z g = ground arith

-- The manager's `num_init`, folder clean-ups and flags after an entity.
call_keeps :
    (answers : ℕ → ℤ) (e : Entity) (m : Manager)
    → m.num_init ≡ 0
    → let t = (call_entity answers e m).manager in
      (t.num_init ≡ 0) × (t.cleaned ≡ m.cleaned) × (t.status ≡ m.status)
unfolding call_entity subtask_download_entity subtask_run_entity subtask_upload_entity fail_stage
    check_msg_serial_to_clean
call_keeps answers (download info) m z = ground arith
call_keeps answers (run info) m z = ground arith
call_keeps answers (upload info) m z = ground arith

-- While `num_init` is 0, whatever entities run and whatever they meet, no folder is ever cleaned
-- and the flags stay as they are: the last message is never recognised.
never_cleaned :
    (es : List ((ℕ → ℤ) × Entity)) (m : Manager)
    → m.num_init ≡ 0
    → ((call_all es m).cleaned ≡ m.cleaned) × ((call_all es m).status ≡ m.status)
never_cleaned [] m z = (refl, refl)
never_cleaned ((answers, e) ∷ es) m z =
    let (z', c, f) = call_keeps answers e m z in
    let (c', f') = never_cleaned es (call_entity answers e m).manager z' in (c' ∙ c, f' ∙ f)
