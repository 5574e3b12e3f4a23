-- ===== src/Hmi.antt =====
-- com/inc/rtu_com_hmi.h: the frame that the HMI sends, the command that it is translated to, and
-- the error identifiers of `iServerStatus`.
use rtu_com.Common.{ℕ, List}

-- ERR_OK of lwIP and the identifiers ERROR_TRAMA_... and ERROR_NETCONN.
abbrev pub err_ok : ℕ
err_ok = 0

abbrev pub error_trama_vacia : ℕ
error_trama_vacia = 0x81

abbrev pub error_trama_largo : ℕ
error_trama_largo = 0x82

abbrev pub error_trama_dato : ℕ
error_trama_dato = 0x83

abbrev pub error_trama_cliente : ℕ
error_trama_cliente = 0x84

abbrev pub error_netconn : ℕ
error_netconn = 0x85

abbrev pub rcv_trama_largo : ℕ
rcv_trama_largo = 41

abbrev pub hmi_netvar_size : ℕ
hmi_netvar_size = 5

abbrev pub rtu_netvar_size : ℕ
rtu_netvar_size = 9

-- The receive buffer read as a struct; a `char` array is the list of its bytes.
pub record HmiData : Type 0 where
  pub pos_cmd_arm : ℕ  -- uint16_t
  pub pos_cmd_pole : ℕ  -- uint16_t
  pub vel_cmd_arm : ℕ  -- uint8_t
  pub vel_cmd_pole : ℕ  -- uint8_t
  pub mode : List ℕ
  pub free_run_axis : List ℕ
  pub free_run_dir : List ℕ
  pub ctrl_en : List ℕ
  pub stall_en : List ℕ
  pub lift_dir : List ℕ
  pub client_id : List ℕ

pub data Mode : Type 0 where
  stop free_run auto lift : Mode

pub data FreeRunAxis : Type 0 where
  arm pole : FreeRunAxis

pub data FreeRunDir : Type 0 where
  cw ccw : FreeRunDir

pub data Enable : Type 0 where
  desable enable : Enable

pub data LiftDir : Type 0 where
  down up : LiftDir

pub data Sign : Type 0 where
  unsigned signed : Sign

pub record HmiCmd : Type 0 where
  pub pos_cmd_arm : ℕ  -- uint16_t
  pub pos_cmd_pole : ℕ  -- uint16_t
  pub vel_cmd_arm : ℕ  -- uint8_t
  pub vel_cmd_pole : ℕ  -- uint8_t
  pub mode : Mode
  pub free_run_axis : FreeRunAxis
  pub free_run_dir : FreeRunDir
  pub ctrl_en : Enable
  pub stall_en : Enable
  pub lift_dir : LiftDir
  pub client_id : Sign
