-- ===== src/Motion/Policy.antt =====
-- components/motion/fault_policy.cpp, fault_policy.h and column_mode.h: fault causes, the escalation
-- of a fault to the whole machine, and the mode of each column. `FaultCause::None` is `no_cause`.
pub mod Columns
use lost_swan_firmware.Common.{
  ℕ, suc, ◌+◌, ◌*◌, ◌≤◌, ◌≡◌, refl, Bool, true, false, not, ◌&&◌, ◌||◌, arith, leb, if◌then◌else◌,
  List, [], ◌∷◌, Option, none, some,
}
use Prim.Native.String.{String}
use text.Mathlib.Text.{◌==◌ as str_eq}

pub data FaultCause : Type 0 where
  no_cause no_hall_ever slip jam : FaultCause

pub data Escalation : Type 0 where
  park_column stop_column drop_enable : Escalation

unfoldable pub fault_cause_name : FaultCause → String
fault_cause_name no_cause = "none"
fault_cause_name no_hall_ever = "no_hall"
fault_cause_name slip = "slip"
fault_cause_name jam = "jam"

unfoldable pub fault_retry_allowed : FaultCause → Bool
fault_retry_allowed no_hall_ever = true
fault_retry_allowed slip = true
fault_retry_allowed _ = false

abbrev is_jam : FaultCause → Bool
is_jam jam = true
is_jam _ = false

unfoldable pub escalate_fault : FaultCause → ℕ → Bool → Escalation
escalate_fault cause faulted_columns during_spin =
    if during_spin
    then drop_enable
    else if leb 2 faulted_columns
    then drop_enable
    else if is_jam cause
    then stop_column
    else park_column

pub data ColumnMode : Type 0 where
  real sim disabled : ColumnMode

unfoldable pub column_mode_name : ColumnMode → String
column_mode_name real = "real"
column_mode_name sim = "sim"
column_mode_name disabled = "disabled"

-- `none` is the result `false`, with `out` left alone.
unfoldable pub column_mode_from_name : String → Option ColumnMode
column_mode_from_name s =
    if str_eq s "real"
    then some real
    else if str_eq s "sim"
    then some sim
    else if str_eq s "disabled" || str_eq s "off"
    then some disabled
    else none

pub record ColumnConfig : Type 0 where
  pub mode : List ColumnMode
  pub maintenance : Bool

abbrev pub same_mode : ColumnMode → ColumnMode → Bool
same_mode real real = true
same_mode sim sim = true
same_mode disabled disabled = true
same_mode _ _ = false

unfoldable pub any_mode : ColumnMode → List ColumnMode → Bool
any_mode m [] = false
any_mode m (x ∷ xs) = same_mode x m || any_mode m xs

unfoldable pub count_mode : ColumnMode → List ColumnMode → ℕ
count_mode m [] = 0
count_mode m (x ∷ xs) = (if same_mode x m then 1 else 0) + count_mode m xs

-- `m |= 1u << i` over the columns, bit 0 first: the bits are distinct, so `|` is `+`.
unfoldable pub excluded_mask : List ColumnMode → ℕ
excluded_mask [] = 0
excluded_mask (x ∷ xs) = (if same_mode x disabled then 1 else 0) + 2 * excluded_mask xs

unfoldable pub maintenance_exit_homes : Bool → Bool → Bool
maintenance_exit_homes was now = was && not now
