-- ===== src/Frame.antt =====
-- com/src/net_values.c, the receiving half: `NetValuesReceivedFromHMI` and its guard
-- `prvFormatoTramaRecv`. A function that writes through `HMICmd` takes the old command and returns
-- the new one beside `iServerStatus`.
pub mod Encode
pub mod Steps
pub mod Texts
pub mod Verdict
pub mod Accepts
pub mod Layout
pub mod Packet
pub mod Commands
use rtu_com.Common.{
  ℕ, ◌+◌, ◌*◌, List, Bool, true, false, ◌||◌, ltb, leb, ◌==◌, if◌then◌else◌, strncmp, is_eq, codes,
  String, take, drop, get_or, Ordering,
}
use rtu_com.Hmi.{
  HmiData, HmiCmd, Mode, FreeRunAxis, FreeRunDir, Enable, LiftDir, Sign, err_ok, error_trama_vacia,
  error_trama_largo, error_trama_dato, error_trama_cliente, rcv_trama_largo, hmi_netvar_size,
}

-- `!strncmp(field, text, HMI_NETVAR_SIZE)`
unfoldable pub is_text : List ℕ → String → Bool
unfolding strncmp
is_text field text = is_eq (strncmp field (codes text) hmi_netvar_size)

-- `uiLenDataRecv` is unsigned, so `<= 0` is `== 0`.
unfoldable pub prv_formato_trama_recv : ℕ → ℕ
prv_formato_trama_recv len =
    if leb len 0
    then error_trama_vacia
    else (if len == rcv_trama_largo then err_ok else error_trama_largo)

-- `iServerStatus` and `*HMICmd` between two statements.
abbrev pub Received : Type 0
Received = ℕ × HmiCmd

unfoldable pub client_id_step : HmiData → HmiCmd → Received
client_id_step d c =
    if is_text d.client_id "SM13;"
    then (err_ok, record c { client_id = Sign.signed })
    else (error_trama_cliente, record c { client_id = Sign.unsigned })

-- The four direct assignments.
unfoldable pub assign_targets : HmiData → Received → Received
assign_targets d (st, c) = (
  st,
  record c {
    pos_cmd_arm = d.pos_cmd_arm;
    vel_cmd_arm = d.vel_cmd_arm;
    pos_cmd_pole = d.pos_cmd_pole;
    vel_cmd_pole = d.vel_cmd_pole;
  },
)

-- A velocity is unsigned, so its test `< 0` never holds.
unfoldable pub vel_cmd_step : Received → Received
vel_cmd_step (st, c) =
    let st₁ = if ltb 8 c.vel_cmd_arm || ltb c.vel_cmd_arm 0 then error_trama_dato else st in
    (if ltb 8 c.vel_cmd_pole || ltb c.vel_cmd_pole 0 then error_trama_dato else st₁, c)

unfoldable pub mode_step : HmiData → Received → Received
mode_step d (st, c) =
    if is_text d.mode "STOP;"
    then (st, record c { mode = Mode.stop })
    else (if is_text d.mode "FRUN;"
        then (st, record c { mode = Mode.free_run })
        else (if is_text d.mode "AUTO;"
            then (st, record c { mode = Mode.auto })
            else (if is_text d.mode "LIFT;"
                then (st, record c { mode = Mode.lift })
                else (error_trama_dato, c))))

unfoldable pub free_run_axis_step : HmiData → Received → Received
free_run_axis_step d (st, c) =
    if is_text d.free_run_axis "ARM_;"
    then (st, record c { free_run_axis = FreeRunAxis.arm })
    else (if is_text d.free_run_axis "POLE;"
        then (st, record c { free_run_axis = FreeRunAxis.pole })
        else (error_trama_dato, c))

unfoldable pub free_run_dir_step : HmiData → Received → Received
free_run_dir_step d (st, c) =
    if is_text d.free_run_dir "CW__;"
    then (st, record c { free_run_dir = FreeRunDir.cw })
    else (if is_text d.free_run_dir "CCW_;"
        then (st, record c { free_run_dir = FreeRunDir.ccw })
        else (error_trama_dato, c))

unfoldable pub ctrl_en_step : HmiData → Received → Received
ctrl_en_step d (st, c) =
    if is_text d.ctrl_en "CTLE;"
    then (st, record c { ctrl_en = Enable.enable })
    else (if is_text d.ctrl_en "DCTL;"
        then (st, record c { ctrl_en = Enable.desable })
        else (error_trama_dato, c))

unfoldable pub stall_en_step : HmiData → Received → Received
stall_en_step d (st, c) =
    if is_text d.stall_en "STLE;"
    then (st, record c { stall_en = Enable.enable })
    else (if is_text d.stall_en "DSTL;"
        then (st, record c { stall_en = Enable.desable })
        else (error_trama_dato, c))

unfoldable pub lift_dir_step : HmiData → Received → Received
lift_dir_step d (st, c) =
    if is_text d.lift_dir "LFUP;"
    then (st, record c { lift_dir = LiftDir.up })
    else (if is_text d.lift_dir "LFDW;"
        then (st, record c { lift_dir = LiftDir.down })
        else (error_trama_dato, c))

-- The block under `if (!iServerStatus)`.
unfoldable pub parse_frame : HmiData → HmiCmd → Received
parse_frame d c = lift_dir_step d (
    stall_en_step d (
      ctrl_en_step d (
        free_run_dir_step d
          (free_run_axis_step d (mode_step d (vel_cmd_step (assign_targets d (err_ok, c))))))))

-- Returns `iServerStatus` and the command as the caller finds it afterwards.
unfoldable pub net_values_received_from_hmi : HmiData → HmiCmd → ℕ → Received
unfolding prv_formato_trama_recv client_id_step
net_values_received_from_hmi d c len =
    let format = prv_formato_trama_recv len in
    if format == err_ok
    then (let (st, c₁) = client_id_step d c in if st == 0 then parse_frame d c₁ else (st, c₁))
    else (format, c)
