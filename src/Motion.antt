-- ===== src/Motion.antt =====
-- com/inc/mot_pap.h and com/inc/lift.h: the messages to the device tasks and the devices' status.
use rtu_com.Common.{ℕ, Bool}

pub data MotPapDirection : Type 0 where
  cw ccw : MotPapDirection

-- `indeterminate n` is what a block from `pvPortMalloc` holds in this field before the field is
-- written, where that is no constant of the enumeration.
pub data MotPapType : Type 0 where
  free_running closed_loop stop : MotPapType
  indeterminate : ℕ → MotPapType

pub record MotPapMsg : Type 0 where
  pub type : MotPapType
  pub free_run_direction : MotPapDirection
  pub free_run_speed : ℕ  -- uint32_t
  pub closed_loop_setpoint : ℕ  -- uint16_t

pub record MotPap : Type 0 where
  pub type : MotPapType
  pub dir : ℕ  -- an enum mot_pap_direction, which is assigned a constant of another enumeration
  pub pos_cmd : ℕ  -- uint16_t
  pub pos_act : ℕ  -- uint16_t
  pub freq : ℕ  -- uint32_t
  pub cw_limit : ℕ  -- uint16_t
  pub ccw_limit : ℕ  -- uint16_t
  pub stalled : Bool

pub data LiftType : Type 0 where
  up down stop : LiftType
  indeterminate : ℕ → LiftType

pub record LiftMsg : Type 0 where
  pub type : LiftType

pub record Lift : Type 0 where
  pub type : LiftType
  pub up_limit : Bool
  pub down_limit : Bool
