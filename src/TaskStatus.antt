-- ===== src/TaskStatus.antt =====
-- src/target/o_pocket/context/logic/objecitve/task_status.h: the device state and the task state
-- of the service, two sets of flags. `BIT_MATCH_COMBINE_SUBSET`, the enum names and the printing of
-- a number come from code outside the repository (`bit-operator.hpp`, `enum-convert-macro.hpp`,
-- std::to_string): they are arguments of the definitions that use them.
use Prim.Native.Nat.{bit_or}
use Prim.Native.String.{◌++◌}
use device_broker.Prelude.{ℕ, String, Bool, List, [], ◌∷◌, ◌==◌, if◌then◌else◌}

-- enum STATE_DEVICE
abbrev pub device_invalid : ℕ
device_invalid = 0

abbrev pub free : ℕ
free = 1

abbrev pub busy : ℕ
busy = 2

abbrev pub updating : ℕ
updating = 4

abbrev pub updated : ℕ
updated = 8

abbrev pub update_success : ℕ
update_success = 16

abbrev pub update_fail : ℕ
update_fail = 32

abbrev pub rebooting : ℕ
rebooting = 64

abbrev pub reboot_success : ℕ
reboot_success = 128

abbrev pub file_pull : ℕ
file_pull = 256

abbrev pub file_pull_fail : ℕ
file_pull_fail = 512

abbrev pub file_pull_success : ℕ
file_pull_success = 1024

abbrev pub file_clear : ℕ
file_clear = 2048

abbrev pub file_clear_fail : ℕ
file_clear_fail = 4096

abbrev pub file_clear_success : ℕ
file_clear_success = 8192

-- enum STATE_TASK, the members that the service uses
abbrev pub task_invalid : ℕ
task_invalid = 0

abbrev pub divorced : ℕ
divorced = 1

abbrev pub accepted : ℕ
accepted = 2

abbrev pub running : ℕ
running = 4

abbrev pub rabbitmq_success : ℕ
rabbitmq_success = 4096

abbrev pub rabbitmq_fail : ℕ
rabbitmq_fail = 8192

abbrev pub rabbitmq_ing : ℕ
rabbitmq_ing = 16384

abbrev pub rabbitmq_end : ℕ
rabbitmq_end = 32768

pub record TaskStatus : Type 0 where
  pub task_state : ℕ
  pub device_state : ℕ

-- g_task_state(STATE_TASK::DIVORCED, STATE_DEVICE::FREE)
abbrev pub initial : TaskStatus
initial = record { task_state = divorced; device_state = free }

unfoldable pub add_task_state : ℕ → TaskStatus → TaskStatus
add_task_state v s = record s { task_state = bit_or s.task_state v }

unfoldable pub add_device_state : ℕ → TaskStatus → TaskStatus
add_device_state v s = record s { device_state = bit_or s.device_state v }

unfoldable pub reset_task_state : TaskStatus → TaskStatus
reset_task_state s = record s { task_state = task_invalid }

unfoldable pub reset_device_state : TaskStatus → TaskStatus
reset_device_state s = record s { device_state = device_invalid }

unfoldable pub replace_task_state : ℕ → TaskStatus → TaskStatus
replace_task_state v s = record s { task_state = v }

unfoldable pub replace_device_state : ℕ → TaskStatus → TaskStatus
replace_device_state v s = record s { device_state = v }

unfoldable pub is_equal_task_state : ℕ → TaskStatus → Bool
is_equal_task_state v s = s.task_state == v

unfoldable pub is_equal_device_state : ℕ → TaskStatus → Bool
is_equal_device_state v s = s.device_state == v

module _ (subset : ℕ → ℕ → Bool) where
  unfoldable pub is_contain_task_state : ℕ → TaskStatus → Bool
  is_contain_task_state v s = subset s.task_state v

  unfoldable pub is_contain_device_state : ℕ → TaskStatus → Bool
  is_contain_device_state v s = subset s.device_state v

  module _ (enum_to_string to_string : ℕ → String) where
    -- BIT_MATCH_ADD_TO_STRING for one flag after another.
    unfoldable pub add_names : List ℕ → ℕ → String → String
    add_names [] state target = target
    add_names (flag ∷ flags) state target =
        add_names flags state
          (if subset state flag then target ++ (enum_to_string flag ++ " ") else target)

    unfoldable pub get_task_state_str : TaskStatus → String
    unfolding add_names
    get_task_state_str s =
        add_names
          (divorced ∷ accepted ∷ running ∷ rabbitmq_success ∷ rabbitmq_fail ∷ rabbitmq_ing
            ∷ rabbitmq_end ∷ [])
          s.task_state (to_string s.task_state ++ " ")

    unfoldable pub get_device_state_str : TaskStatus → String
    unfolding add_names
    get_device_state_str s =
        add_names
          (free ∷ busy ∷ updating ∷ updated ∷ update_success ∷ update_fail ∷ rebooting
            ∷ reboot_success ∷ file_pull ∷ file_pull_fail ∷ file_pull_success ∷ file_clear
            ∷ file_clear_fail ∷ file_clear_success ∷ [])
          s.device_state (to_string s.device_state ++ " ")
