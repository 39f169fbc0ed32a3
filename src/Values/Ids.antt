-- ===== src/Values/Ids.antt =====
-- The checks of pkg/skald/ids.go on identifiers. `len` counts bytes, as Go's does.
use Prim.Native.String.{len}
use Prim.Native.Char.{Char, code}
use skald.Prelude.{
  ℕ, String, Bool, false, ltb, ◌==◌, nat_eq, string_eq, ◌||◌, if◌then◌else◌, Outcome, ok, err,
}

pub data IdError : Type 0 where
  empty_id too_long has_control_character : IdError

abbrev pub max_workflow_id_len : ℕ
max_workflow_id_len = 512

abbrev pub max_task_queue_len : ℕ
max_task_queue_len = 256

abbrev pub max_type_name_len : ℕ
max_type_name_len = 256

unfoldable pub is_control : Char → Bool
is_control r = ltb (code r) 0x20 || (code r == 0x7f)

-- strings.ContainsFunc(s, isControl)
unfoldable pub contains_control : String → Bool
unfolding is_control
contains_control String.[] = false
contains_control (String.◌∷◌ c s) = is_control c || contains_control s

check_id : ℕ → String → Outcome IdError (Unit {0})
check_id limit s =
    if s == ""
    then err empty_id
    else if ltb limit (len s)
    then err too_long
    else if contains_control s
    then err has_control_character
    else ok tt

-- ValidateWorkflowID
unfoldable pub validate_workflow_id : String → Outcome IdError (Unit {0})
unfolding check_id contains_control
validate_workflow_id id = check_id max_workflow_id_len id

-- ValidateTaskQueue
unfoldable pub validate_task_queue : String → Outcome IdError (Unit {0})
unfolding check_id contains_control
validate_task_queue q = check_id max_task_queue_len q

-- ValidateTypeName
unfoldable pub validate_type_name : String → Outcome IdError (Unit {0})
unfolding check_id contains_control
validate_type_name n = check_id max_type_name_len n
