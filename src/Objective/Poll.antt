-- ===== src/Objective/Poll.antt =====
-- rabbitmq_msg_poll_ and is_to_terminate_msg_poll_ of
-- src/target/o_pocket/context/logic/objecitve/logic_impl_http_service_objective.cpp: messages are
-- taken until as many have come as the task has materials, or the task is terminated. What the
-- connection gives, what the JSON library makes of a message and what `to_task_terminate_` holds
-- are given round by round. The download pool takes each entity at once; `Pipeline` has its bound.
use Prim.Native.String.{len}
use device_broker.Prelude.{
  ℕ, zero, suc, ◌+◌, ◌-◌, ◌≤◌, ◌≡◌, refl, ap, sym, ◌∙◌, String, Bool, true, false, ◌||◌, Option,
  none, some, List, [], ◌∷◌, ◌++◌, ℤ, pos, ◌-ℤ◌, ltb_ℤ, nonzero, ◌==◌, if◌then◌else◌, ◌⊎◌, inl, inr,
  Bool-cases, arith,
}
use mathlib.Core.List.{append-nil, append_assoc}
use device_broker.Requests.{RabbitmqMsgTaskInfo}
use device_broker.TaskStatus.{TaskStatus, rabbitmq_ing, replace_task_state}
use device_broker.Objective.{Entity, download}

pub record Round : Type 0 where
  pub to_task_terminate : Bool
  pub cur_subtask_msg : String
  pub ret : ℤ
  pub parsed : Option RabbitmqMsgTaskInfo

pub record Poll : Type 0 where
  pub remain_num : ℤ
  pub posted : List Entity
  pub status : TaskStatus

abbrev pub is_to_terminate_msg_poll : Bool → Poll → Bool
is_to_terminate_msg_poll to_task_terminate p = ltb_ℤ p.remain_num (pos 1) || to_task_terminate

abbrev pub is_dropped : Round → Bool
is_dropped r = (len r.cur_subtask_msg == 0) || nonzero r.ret

-- A message that does not parse has been counted all the same.
post : Option RabbitmqMsgTaskInfo → Poll → Poll
post none p = p
post (some info) p = record p { posted = p.posted ++ download info ∷ [] }

unfoldable pub poll_round : Round → Poll → Poll
unfolding post replace_task_state ◌-ℤ◌
poll_round r p =
    let got = record p { status = replace_task_state rabbitmq_ing p.status } in
    if is_dropped r
    then got
    else post r.parsed (record got { remain_num = got.remain_num -ℤ pos 1 })

-- `none`: the rounds given end before the loop does.
unfoldable pub rabbitmq_msg_poll : List Round → Poll → Option Poll
unfolding poll_round
rabbitmq_msg_poll [] p = if is_to_terminate_msg_poll false p then some p else none
rabbitmq_msg_poll (r ∷ rs) p =
    let rest = rabbitmq_msg_poll rs (poll_round r p) in
    if is_to_terminate_msg_poll r.to_task_terminate p then some p else rest

-- How many messages some rounds bring, and the downloads that they ask for.
abbrev pub weight : Round → ℕ
weight r = if is_dropped r then 0 else 1

abbrev pub received : List Round → ℕ
received [] = 0
received (r ∷ rs) = weight r + received rs

abbrev asked : Option RabbitmqMsgTaskInfo → List Entity
asked none = []
asked (some info) = download info ∷ []

abbrev pub fetched : Round → List Entity
fetched r = if is_dropped r then [] else asked r.parsed

abbrev pub downloads : List Round → List Entity
downloads [] = []
downloads (r ∷ rs) = fetched r ++ downloads rs

-- Why a loop over the rest of the rounds ends: nothing remains, or the task is terminated.
abbrev pub Ends : ℕ → List Round → Type 0
Ends remain [] = remain ≡ 0
Ends remain (r ∷ rs) = (remain ≡ 0) ⊎ (r.to_task_terminate ≡ true)

post_remain : (o : Option RabbitmqMsgTaskInfo) (p : Poll) → (post o p).remain_num ≡ p.remain_num
unfolding post
post_remain none p = refl
post_remain (some info) p = refl

post_posted : (o : Option RabbitmqMsgTaskInfo) (p : Poll) → (post o p).posted ≡ p.posted ++ asked o
unfolding post
post_posted none p = sym (append-nil p.posted)
post_posted (some info) p = refl

poll_round_lem :
    (r : Round) (n : ℕ) (p : Poll)
    → p.remain_num ≡ pos (suc n)
    → ((poll_round r p).remain_num ≡ pos (suc n - weight r))
      × ((poll_round r p).posted ≡ p.posted ++ fetched r)
unfolding poll_round
poll_round_lem r n p e = elim (Bool-cases (is_dropped r)) [
  | inl dropped ↦ rw dropped (ground arith, sym (append-nil p.posted))
  | inr kept ↦
      let got : Poll = record p {
        status = replace_task_state rabbitmq_ing p.status;
        remain_num = p.remain_num -ℤ pos 1;
      } in
      let less : p.remain_num -ℤ pos 1 ≡ pos (suc n - 1) = ground arith in
      rw kept (post_remain r.parsed got ∙ less, post_posted r.parsed got)
]

recount : {a b : ℕ} {z : ℤ} → a ≡ b → z ≡ pos a → z ≡ pos b
recount e f = f ∙ ap pos e

fetched_first :
    (before first rest : List Entity) {between after : List Entity}
    → between ≡ before ++ first
    → after ≡ between ++ rest
    → after ≡ before ++ (first ++ rest)
fetched_first before first rest e f = f ∙ ap (λ l. l ++ rest) e ∙ append_assoc before first rest

-- A loop that starts with n messages to come and ends has used some of the rounds, and stopped
-- before the others: it has received at most n messages, enqueued the download of each that
-- parses, once and in order, counts what is left to come, and stopped because nothing was, or
-- because the task was terminated.
pub poll_lem :
    (rs : List Round) (n : ℕ) (p : Poll) {q : Poll}
    → p.remain_num ≡ pos n
    → rabbitmq_msg_poll rs p ≡ some q
    → (used left : List Round) × (rs ≡ used ++ left)
      × (received used ≤ n)
      × (q.remain_num ≡ pos (n - received used))
      × (q.posted ≡ p.posted ++ downloads used)
      × Ends (n - received used) left
unfolding rabbitmq_msg_poll
poll_lem [] n p {q} e h =
    let same : p ≡ q = ground arith in
    ([], [], refl, omega arith, ground arith, ground (arith, append-nil p.posted), ground arith)
poll_lem (r ∷ rs) zero p {q} e h =
    let same : p ≡ q = ground arith in
    ([], r ∷ rs, refl, omega arith, ground arith, ground (arith, append-nil p.posted), inl refl)
poll_lem (r ∷ rs) (suc n) p {q} e h = elim (Bool-cases r.to_task_terminate) [
  | inl end ↦
      let same : p ≡ q = ground arith in
      ([], r ∷ rs, refl, omega arith, ground arith, ground (arith, append-nil p.posted), inr end)
  | inr go ↦
      let on : rabbitmq_msg_poll rs (poll_round r p) ≡ some q = ground arith in
      let (a, b) = poll_round_lem r n p e in
      let (used, left, split, few, count, fetch, why) =
        poll_lem rs (suc n - weight r) (poll_round r p) a on in
      let less : suc n - weight r - received used ≡ suc n - (weight r + received used) =
        omega arith in
      let light : weight r ≤ suc n = ground arith in
      (
        r ∷ used,
        left,
        cc,
        omega arith,
        recount less count,
        fetched_first p.posted (fetched r) (downloads used) b fetch,
        rw (← less) why,
      )
]

-- A loop that starts with n messages to come ends once its rounds have brought n of them.
pub poll_ends :
    (rs : List Round) (n : ℕ) (p : Poll)
    → p.remain_num ≡ pos n
    → n ≤ received rs
    → (q : Poll) × (rabbitmq_msg_poll rs p ≡ some q)
unfolding rabbitmq_msg_poll
poll_ends [] n p e h = (p, ground arith)
poll_ends (r ∷ rs) zero p e h = (p, ground arith)
poll_ends (r ∷ rs) (suc n) p e h = elim (Bool-cases r.to_task_terminate) [
  | inl end ↦ (p, ground arith)
  | inr go ↦
      let (q, ends) =
        poll_ends rs (suc n - weight r) (poll_round r p) (poll_round_lem r n p e).0 (omega arith) in
      (q, ground arith)
]
