-- ===== src/Tests.antt =====
-- Each theorem with hypotheses at an input that meets them, and runs of the code on small inputs.
mod Data
mod Sessions
mod Links
mod Startups
mod Debugs
mod Receives
mod Emacs
mod Boards
mod Devices
mod Operators
mod Drivers
use std.Path.{transport}
use rtu_com.Common.{
  ℕ, ◌+◌, ◌*◌, ◌≤◌, List, [], ◌∷◌, ◌++◌, ◌≡◌, ◌≢◌, refl, ◌⊎◌, inl, inr, Option, none, some, true,
  false, arith, codes, drop, length, ◌∙◌, ap,
}
use rtu_com.Motion.{MotPapDirection, MotPapType, MotPapMsg, MotPap, LiftType, LiftMsg, Lift}
use rtu_com.Hmi.{
  HmiData, HmiCmd, Mode, FreeRunAxis, FreeRunDir, Enable, LiftDir, Sign, err_ok, error_trama_vacia,
  error_trama_largo, error_trama_dato, error_trama_cliente, rcv_trama_largo,
}
use rtu_com.Kernel.{
  Memory, Env, plenty, Trace, ErrT, done, fault, malloc_mot_pap_msg, arm_posts, pole_posts,
}
use rtu_com.Kernel.Ensures.{Ensures}
use rtu_com.Frame.{
  net_values_received_from_hmi, is_text, parse_frame, assign_targets, vel_cmd_step, mode_step,
  free_run_axis_step, free_run_dir_step, ctrl_en_step, stall_en_step, lift_dir_step,
}
use rtu_com.Frame.Encode.{encode, IsCommand}
use rtu_com.Frame.Accepts.{received_status}
use rtu_com.Frame.Layout.{wire, AreBytes, hmi_data_of}
use rtu_com.Frame.Packet.{receive_packet, receive_packet-wire, wire-receive_packet}
use rtu_com.Frame.Commands.{Command, Accepted, accepted-commands}
use rtu_com.Trigger.{flag_byte, bit_status, task_trigger_msg}
use rtu_com.Trigger.Orders.{orders, order_calls, stop_all}
use rtu_com.Trigger.Laws.{
  indirect_calls, Untold, task_trigger_msg-orders, task_trigger_msg-disable,
  task_trigger_msg_indirect, task_trigger_msg_null,
}
use rtu_com.Trigger.Sequence.{trigger_all, disabled-IsStopped, IsStopped}
use rtu_com.Trigger.Axis.{arm_start, stop_other_axis}
use Data.{memory, no_memory, frun_arm, auto_cmd, stop_pole, off, old_cmd, packet}

wire-frun_arm : wire (encode frun_arm) ≡ packet
wire-frun_arm = refl

receive_packet_run : receive_packet packet old_cmd ≡ (0, frun_arm)
unfolding net_values_received_from_hmi hmi_data_of is_text parse_frame assign_targets vel_cmd_step
    mode_step free_run_axis_step free_run_dir_step ctrl_en_step stall_en_step lift_dir_step
receive_packet_run = refl

frun_arm-IsCommand : IsCommand frun_arm
frun_arm-IsCommand = record { vel_arm = omega arith; vel_pole = omega arith; signed = refl }

packet-AreBytes : AreBytes packet
packet-AreBytes = omega arith

receive_packet-wire_example : receive_packet (wire (encode frun_arm)) old_cmd ≡ (err_ok, frun_arm)
receive_packet-wire_example = receive_packet-wire frun_arm old_cmd frun_arm-IsCommand

wire-receive_packet_example :
    let c = (receive_packet packet old_cmd).1 in IsCommand c × (packet ≡ wire (encode c))
wire-receive_packet_example =
    wire-receive_packet packet old_cmd packet-AreBytes
      (ap (λ (r : ℕ × HmiCmd). r.0) receive_packet_run)

accepted-commands_example :
    (e : Accepted old_cmd ≡ Command) × ((a : Accepted old_cmd)
      → (transport e a).0 ≡ (receive_packet a.0 old_cmd).1)
accepted-commands_example = accepted-commands old_cmd

abbrev short_len : ℕ
short_len = 12

received_status_example :
    let r = net_values_received_from_hmi (encode frun_arm) old_cmd short_len in
    ((short_len ≡ 0) × (r ≡ (error_trama_vacia, old_cmd)))
    ⊎ (((short_len ≢ 0) × (short_len ≢ rcv_trama_largo) × (r ≡ (error_trama_largo, old_cmd)))
        ⊎ (((short_len ≡ rcv_trama_largo)
              × (is_text (encode frun_arm).client_id "SM13;" ≡ false)
              × (r ≡ (error_trama_cliente, record old_cmd { client_id = Sign.unsigned })))
            ⊎ ((short_len ≡ rcv_trama_largo)
                × (is_text (encode frun_arm).client_id "SM13;" ≡ true)
                × ((r.0 ≡ err_ok) ⊎ (r.0 ≡ error_trama_dato)))))
received_status_example = received_status (encode frun_arm) old_cmd short_len

task_trigger_msg-orders_example :
    task_trigger_msg (plenty memory) (flag_byte Mode.stop Enable.enable) frun_arm []
    ≡ done (flag_byte Mode.free_run Enable.enable) (
        order_calls frun_arm
          (orders Mode.stop Enable.enable Mode.free_run Enable.enable FreeRunAxis.arm LiftDir.up)
          [])
task_trigger_msg-orders_example =
    task_trigger_msg-orders memory Mode.stop Enable.enable frun_arm [] (inr (inl refl))

task_trigger_msg-disable_example :
    (task_trigger_msg (plenty memory) (flag_byte Mode.auto Enable.enable) off []
      ≡ done (flag_byte Mode.free_run Enable.desable) (order_calls off stop_all []))
    × (task_trigger_msg (plenty memory) (flag_byte Mode.auto Enable.desable) off []
        ≡ done (flag_byte Mode.free_run Enable.desable) [])
task_trigger_msg-disable_example = task_trigger_msg-disable memory Mode.auto off [] refl

free_run_not_auto : Mode.free_run ≢ Mode.auto
free_run_not_auto e = cc

free_run_not_stop : Mode.free_run ≢ Mode.stop
free_run_not_stop e = cc

auto_not_stop : Mode.auto ≢ Mode.stop
auto_not_stop e = cc

task_trigger_msg_indirect_example :
    (task_trigger_msg (plenty memory) (flag_byte Mode.free_run Enable.enable) auto_cmd []
      ≡ done
          (flag_byte Mode.auto Enable.enable)
          (indirect_calls memory Mode.free_run Mode.auto auto_cmd []))
    × Untold Mode.free_run Mode.auto [] (indirect_calls memory Mode.free_run Mode.auto auto_cmd [])
task_trigger_msg_indirect_example =
    task_trigger_msg_indirect memory Mode.free_run Enable.enable auto_cmd []
      (free_run_not_auto, free_run_not_stop, auto_not_stop) refl

task_trigger_msg_null_example :
    task_trigger_msg no_memory (flag_byte Mode.free_run Enable.enable) off []
    ≡ fault (malloc_mot_pap_msg ∷ [])
task_trigger_msg_null_example = task_trigger_msg_null no_memory Mode.free_run off [] refl refl

disabled-IsStopped_example :
    (t : Trace) × (trigger_all (plenty memory) 0 ((frun_arm ∷ auto_cmd ∷ []) ++ off ∷ []) []
      ≡ done (flag_byte Mode.free_run Enable.desable) t)
    × IsStopped t
disabled-IsStopped_example = disabled-IsStopped memory (frun_arm ∷ auto_cmd ∷ []) off refl

stop_other_axis_example :
    (t' : Trace) × (trigger_all
        (plenty memory)
        (flag_byte Mode.stop Enable.enable)
        (frun_arm ∷ stop_pole ∷ [])
        []
      ≡ done (flag_byte Mode.stop Enable.enable) t')
    × (arm_posts t' ≡ arm_start frun_arm ∷ [])
stop_other_axis_example =
    stop_other_axis memory Enable.enable frun_arm stop_pole [] refl refl refl refl refl refl
