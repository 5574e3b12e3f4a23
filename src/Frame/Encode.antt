-- ===== src/Frame/Encode.antt =====
-- The frame that stands for a command, by the comments of `HMIData_t` in com/inc/rtu_com_hmi.h: an
-- independent description of what the HMI sends.
use rtu_com.Common.{String, ◌≡◌, ◌≤◌, codes, length}
use rtu_com.Hmi.{
  HmiData, HmiCmd, Mode, FreeRunAxis, FreeRunDir, Enable, LiftDir, Sign, hmi_netvar_size,
}

abbrev pub mode_text : Mode → String
mode_text Mode.stop = "STOP;"
mode_text Mode.free_run = "FRUN;"
mode_text Mode.auto = "AUTO;"
mode_text Mode.lift = "LIFT;"

abbrev pub free_run_axis_text : FreeRunAxis → String
free_run_axis_text FreeRunAxis.arm = "ARM_;"
free_run_axis_text FreeRunAxis.pole = "POLE;"

abbrev pub free_run_dir_text : FreeRunDir → String
free_run_dir_text FreeRunDir.cw = "CW__;"
free_run_dir_text FreeRunDir.ccw = "CCW_;"

abbrev pub ctrl_en_text : Enable → String
ctrl_en_text Enable.enable = "CTLE;"
ctrl_en_text Enable.desable = "DCTL;"

abbrev pub stall_en_text : Enable → String
stall_en_text Enable.enable = "STLE;"
stall_en_text Enable.desable = "DSTL;"

abbrev pub lift_dir_text : LiftDir → String
lift_dir_text LiftDir.up = "LFUP;"
lift_dir_text LiftDir.down = "LFDW;"

abbrev pub encode : HmiCmd → HmiData
encode c = record {
  pos_cmd_arm = c.pos_cmd_arm;
  pos_cmd_pole = c.pos_cmd_pole;
  vel_cmd_arm = c.vel_cmd_arm;
  vel_cmd_pole = c.vel_cmd_pole;
  mode = codes (mode_text c.mode);
  free_run_axis = codes (free_run_axis_text c.free_run_axis);
  free_run_dir = codes (free_run_dir_text c.free_run_dir);
  ctrl_en = codes (ctrl_en_text c.ctrl_en);
  stall_en = codes (stall_en_text c.stall_en);
  lift_dir = codes (lift_dir_text c.lift_dir);
  client_id = codes "SM13;";
}

-- A command that the HMI may give: it is signed, and its velocities are at most 8.
pub record IsCommand (c : HmiCmd) : Type 0 where
  pub vel_arm : c.vel_cmd_arm ≤ 8
  pub vel_pole : c.vel_cmd_pole ≤ 8
  pub signed : c.client_id ≡ Sign.signed

-- Every `char` array of the struct has its declared size.
pub record IsFrame (d : HmiData) : Type 0 where
  pub mode_size : length d.mode ≡ hmi_netvar_size
  pub axis_size : length d.free_run_axis ≡ hmi_netvar_size
  pub dir_size : length d.free_run_dir ≡ hmi_netvar_size
  pub ctrl_size : length d.ctrl_en ≡ hmi_netvar_size
  pub stall_size : length d.stall_en ≡ hmi_netvar_size
  pub lift_size : length d.lift_dir ≡ hmi_netvar_size
  pub client_size : length d.client_id ≡ hmi_netvar_size
