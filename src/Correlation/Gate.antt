-- ===== src/Correlation/Gate.antt =====
-- RULE 0 of app/middleware/_correlation_helpers.py.
use student_success_intellig.Prelude.{
  if◌then◌else◌, truthy, nonempty, when, String, Bool, true, false, not, ◌&&◌, Option, none, some,
  List, [], ◌++◌,
}
use student_success_intellig.Correlation.Types.{
  Mode, Code, invalid_execution_mode, invalid_execution_type, replay_lineage_incomplete,
  attribution_partial,
}
use student_success_intellig.Governance.{ExecutionType, is_replay_type}

-- `_VALID_EXECUTION_MODES`
abbrev pub is_valid_mode : Mode → Bool
is_valid_mode (Mode.other _) = false
is_valid_mode _ = true

-- `_VALID_EXECUTION_TYPES`
abbrev pub is_valid_type : ExecutionType → Bool
is_valid_type (ExecutionType.other _) = false
is_valid_type _ = true

-- `_check_execution_mode`
unfoldable pub check_execution_mode : Mode → List Code
check_execution_mode mode = when (not (is_valid_mode mode)) invalid_execution_mode

-- `_check_execution_type`
unfoldable pub check_execution_type : ExecutionType → List Code
check_execution_type type = when (not (is_valid_type type)) invalid_execution_type

-- `_check_replay_lineage`
unfoldable pub check_replay_lineage : ExecutionType → Option String → List Code
check_replay_lineage type historical =
    when (is_replay_type type && not (truthy historical)) replay_lineage_incomplete

-- `_check_attribution_partial`
unfoldable pub check_attribution_partial : Option String → Option String → List Code
check_attribution_partial source authority =
    when (if truthy source then not (truthy authority) else truthy authority) attribution_partial

abbrev pub mode_codes : Option Mode → List Code
mode_codes none = []
mode_codes (some mode) = check_execution_mode mode

-- the lineage is checked only where the type is valid
abbrev pub type_codes : Option ExecutionType → Option String → List Code
type_codes none historical = []
type_codes (some type) historical =
    let codes = check_execution_type type in
    codes ++ (if nonempty codes then [] else check_replay_lineage type historical)

-- `_governance_precondition_gate`
unfoldable pub gate_codes :
    Option Mode → Option ExecutionType → Option String → Option String → Option String → List Code
gate_codes mode type historical source authority =
    mode_codes mode ++ type_codes type historical ++ check_attribution_partial source authority
