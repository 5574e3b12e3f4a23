-- ===== src/Tests/Sessions.antt =====
-- The theorems about the reply and about `tcp_thread` at concrete inputs.
use rtu_com.Common.{
  ℕ, ◌+◌, ◌≤◌, List, [], ◌∷◌, ◌++◌, ◌≡◌, ◌≢◌, refl, inl, inr, some, none, true, false, arith, drop,
  length,
}
use rtu_com.Motion.{MotPapType, MotPap, LiftType, Lift}
use rtu_com.Hmi.{HmiCmd, Mode, FreeRunAxis, Enable, LiftDir, error_trama_vacia, error_trama_cliente}
use rtu_com.Kernel.{plenty, DeviceName, ErrT}
use rtu_com.Kernel.Ensures.{Ensures}
use rtu_com.Frame.Encode.{encode, IsCommand}
use rtu_com.Frame.Layout.{wire}
use rtu_com.Trigger.{flag_byte, bit_status}
use rtu_com.Trigger.Orders.{orders, order_calls}
use rtu_com.Trigger.Sequence.{IsStopped}
use rtu_com.Tests.Data.{memory, frun_arm, packet, old_cmd}
use rtu_com.Report.{RtuData, net_values_to_send_from_rtu}
use rtu_com.Report.Fits.{IsRtuData, shown_text}
use rtu_com.Report.Reply.{net_values_fit}
use rtu_com.Report.Reading.{read_reply, reading_of, read_reply-net_values}
use rtu_com.Session.{
  bytes, no_data, Session, Connection, round, rounds, serve, tcp_thread, has_failed,
}
use rtu_com.Session.Stops.{AllStopped, serve-AllStopped, tcp_thread-IsStopped}
use rtu_com.Session.Status.{IsStatus, rounds_failed}
use rtu_com.Session.Commands.{Replied, round_command, round_refused}
use rtu_com.Session.Creates.{queues, tasks, served, tcp_thread-creates}

abbrev full_field : List ℕ
full_field = 1 ∷ 1 ∷ 1 ∷ 1 ∷ 1 ∷ 1 ∷ 1 ∷ 1 ∷ 1 ∷ []

abbrev ten : List ℕ
ten = 6 ∷ 6 ∷ 6 ∷ 6 ∷ 6 ∷ 6 ∷ 6 ∷ 6 ∷ 6 ∷ 6 ∷ []

-- An `RTUData_t` that nothing was written to.
abbrev pub old_tx : RtuData
old_tx = record {
  res_act_arm = 0;
  res_act_pole = 0;
  vel_act_arm = 0;
  vel_act_pole = 0;
  cw_limit_arm = full_field;
  ccw_limit_arm = full_field;
  cw_limit_pole = full_field;
  ccw_limit_pole = full_field;
  limit_up = full_field;
  limit_down = full_field;
  stall_alm = full_field;
  status = 0;
  buffer = ten ++ (ten ++ (ten ++ (ten ++ (ten ++ (ten ++ (ten ++ (ten ++ (ten ++ ten))))))));
}

pub old_tx-IsRtuData : IsRtuData old_tx
old_tx-IsRtuData = record {
  cw_arm_size = refl;
  ccw_arm_size = refl;
  cw_pole_size = refl;
  ccw_pole_size = refl;
  up_size = refl;
  down_size = refl;
  stall_size = refl;
  buffer_size = refl;
}

abbrev motor : MotPap
motor = record {
  type = MotPapType.stop;
  dir = 0;
  pos_cmd = 0;
  pos_act = 65518;
  freq = 70000;
  cw_limit = 1;
  ccw_limit = 0;
  stalled = true;
}

abbrev lift_at_top : Lift
lift_at_top = record { type = LiftType.stop; up_limit = true; down_limit = false }

net_values_fit_example :
    let out = net_values_to_send_from_rtu motor motor lift_at_top 0 old_tx in
    let text = shown_text motor motor lift_at_top 0 in
    IsRtuData out
    × (length text ≤ 91)
    × (out.buffer ≡ text ++ 0 ∷ drop (length text + 1) old_tx.buffer)
net_values_fit_example =
    net_values_fit motor motor lift_at_top 0 old_tx (omega arith) (omega arith) old_tx-IsRtuData

read_reply-net_values_example :
    read_reply (net_values_to_send_from_rtu motor motor lift_at_top 0 old_tx).buffer
    ≡ reading_of motor motor lift_at_top 0
read_reply-net_values_example =
    read_reply-net_values motor motor lift_at_top 0 old_tx (omega arith) (omega arith)
      old_tx-IsRtuData

abbrev pub session : Session
session = record {
  i_server_status = 0;
  cycle_count = 0;
  hmi_cmd = old_cmd;
  rtu_data_tx = old_tx;
  previous_flag_byte = 0;
  arm = motor;
  pole = motor;
  lift = lift_at_top;
}

-- A good packet, then one of two bytes.
abbrev connection : Connection
connection = record {
  buffers =
      record { first = bytes packet; others = [] }
      ∷ record { first = bytes (1 ∷ 2 ∷ []); others = [] }
      ∷ [];
  last_err = ErrT.err_timeout;
  cmd_memory = old_cmd;
  tx_memory = old_tx;
}

-- A connection that ends before anything comes.
abbrev pub silent : Connection
silent = record { buffers = []; last_err = ErrT.err_clsd; cmd_memory = old_cmd; tx_memory = old_tx }

serve-AllStopped_example :
    Ensures (λ s' t'. AllStopped t') (serve (plenty memory) connection session [])
serve-AllStopped_example = serve-AllStopped memory connection session []

tcp_thread-IsStopped_example :
    Ensures
      (λ s' t'. IsStopped t')
      (tcp_thread (plenty memory) (some connection ∷ none ∷ some connection ∷ []) session [])
tcp_thread-IsStopped_example =
    tcp_thread-IsStopped memory (some connection ∷ none ∷ some connection ∷ []) session []
      (record { arm = tt; pole = tt; lift = tt })

tcp_thread-creates_example :
    Ensures
      (λ s' t'.
        (queues DeviceName.pole t'
          ≡ queues DeviceName.pole [] + served (some connection ∷ some connection ∷ []))
        × (tasks DeviceName.pole t'
            ≡ tasks DeviceName.pole [] + served (some connection ∷ some connection ∷ [])))
      (tcp_thread (plenty memory) (some connection ∷ some connection ∷ []) session [])
tcp_thread-creates_example =
    tcp_thread-creates memory DeviceName.pole (some connection ∷ some connection ∷ []) session []

rounds_failed_example :
    Ensures
      (λ s' t'.
        IsStatus s'.i_server_status
        × (has_failed s'.i_server_status ≡ bit_status s'.i_server_status 7))
      (rounds (plenty memory) (bytes packet) (no_data ErrT.err_buf ∷ []) session [])
rounds_failed_example = rounds_failed memory (bytes packet) (no_data ErrT.err_buf ∷ []) session []

round_command_example :
    Ensures
      (Replied memory session (flag_byte Mode.free_run Enable.enable) (
        order_calls frun_arm
          (orders Mode.stop Enable.desable Mode.free_run Enable.enable FreeRunAxis.arm LiftDir.up)
          []))
      (round (plenty memory) (bytes (wire (encode frun_arm))) session [])
round_command_example =
    round_command memory frun_arm Mode.stop Enable.desable session []
      (record { vel_arm = omega arith; vel_pole = omega arith; signed = refl }) (inr (inl refl))
      refl old_tx-IsRtuData

-- Two bytes are the packet of no command.
abbrev two_bytes : List ℕ
two_bytes = 1 ∷ 2 ∷ []

two_bytes_no_command : (c : HmiCmd) → IsCommand c → two_bytes ≢ wire (encode c)
two_bytes_no_command c valid e = cc

round_refused_example :
    Ensures
      (λ r t'.
        (r.1 ≡ true)
        × (t' ≡ [])
        × (r.0.previous_flag_byte ≡ 0)
        × (error_trama_vacia ≤ r.0.i_server_status)
        × (r.0.i_server_status ≤ error_trama_cliente))
      (round (plenty memory) (bytes two_bytes) session [])
round_refused_example = round_refused memory two_bytes session [] (omega arith) two_bytes_no_command
