-- ===== src/Session/Commands.antt =====
-- From the bytes of a packet to the messages of the devices and the reply: one round of the inner
-- loop of `tcp_thread`.
use rtu_com.Common.{
  ℕ, List, ◌∷◌, ◌≡◌, ◌≢◌, refl, arith, ◌≤◌, true, not, if◌then◌else◌, length, ◌+◌, ◌%◌, ◌^◌, inl,
  inr, Bool-cases, ap, ◌∙◌,
}
use rtu_com.Motion.{MotPap}
use rtu_com.Hmi.{HmiCmd, Mode, Enable, error_trama_vacia, error_trama_cliente, error_netconn}
use rtu_com.Kernel.{Memory, plenty, Trace, done, netconn_write}
use rtu_com.Kernel.Ensures.{Ensures, Ensures-bind}
use rtu_com.Frame.Encode.{encode, IsCommand}
use rtu_com.Frame.Layout.{wire, AreBytes}
use rtu_com.Frame.Packet.{receive_packet-wire, packet_refused}
use rtu_com.Trigger.{flag_byte, task_trigger_msg}
use rtu_com.Trigger.Orders.{IsDirect, orders, order_calls}
use rtu_com.Trigger.Laws.{task_trigger_msg-orders}
use rtu_com.Device.{arm_get_status, pole_get_status, lift_get_status}
use rtu_com.Report.Fits.{IsRtuData, IsMotPap}
use rtu_com.Report.Reply.{net_values_fit}
use rtu_com.Report.Reading.{read_reply, reading_of, read_reply-net_values}
use rtu_com.Session.{Session, Round, bytes, round, answer, reply, send_values, is_ok}

-- A packet that is not that of a valid command: the round ends the inner loop, with one of the four
-- frame errors; nothing is posted to a device and no reply is sent.
pub round_refused :
    (mem : Memory) (packet : List ℕ) (s : Session) (t : Trace)
    → AreBytes packet
    → ((c : HmiCmd) → IsCommand c → packet ≢ wire (encode c))
    → Ensures
        (λ r t'.
          (r.1 ≡ true)
          × (t' ≡ t)
          × (r.0.previous_flag_byte ≡ s.previous_flag_byte)
          × (error_trama_vacia ≤ r.0.i_server_status)
          × (r.0.i_server_status ≤ error_trama_cliente))
        (round (plenty mem) (bytes packet) s t)
unfolding round
round_refused mem packet s t small none_such =
    let (lo, hi) = packet_refused packet s.hmi_cmd small none_such in ground arith

-- What a reply leaves: the flag byte, one call of `netconn_write`, a buffer that a client reads to the
-- status of the three devices, and the loop left, with the identifier of the error, where the write
-- failed.
pub record Replied (mem : Memory) (s : Session) (previous : ℕ) (t : Trace) (r : Round) (t' : Trace)
    : Type 0 where
  pub flags : r.0.previous_flag_byte ≡ previous
  pub calls : t' ≡ netconn_write r.0.rtu_data_tx.buffer ∷ t
  pub reply_size : length r.0.rtu_data_tx.buffer ≡ 100
  pub reply_read :
      read_reply r.0.rtu_data_tx.buffer
      ≡ reading_of (pole_get_status s.pole) (arm_get_status s.arm) (lift_get_status s.lift) 0
  pub tx : IsRtuData r.0.rtu_data_tx
  pub left : r.1 ≡ not (is_ok (mem.write_result t))
  pub status : r.0.i_server_status ≡ (if is_ok (mem.write_result t) then 0 else error_netconn)

-- The variables when the frame of a command has been accepted.
abbrev pub accepted : Session → HmiCmd → Session
accepted s cmd = record s {
  cycle_count = (s.cycle_count + 1) % 2 ^ 32;
  i_server_status = 0;
  hmi_cmd = cmd;
}

pole_position : (s : MotPap) → IsMotPap (pole_get_status s)
unfolding pole_get_status
pole_position s = omega arith

arm_position : (s : MotPap) → IsMotPap (arm_get_status s)
unfolding arm_get_status
arm_position s = omega arith

reply-Replied :
    (mem : Memory) (s : Session) (cmd : HmiCmd) (previous : ℕ) (t : Trace)
    → IsRtuData s.rtu_data_tx
    → Ensures (Replied mem s previous t) (reply (plenty mem) (accepted s cmd) previous t)
unfolding reply send_values
reply-Replied mem s cmd previous t tx =
    let pole = pole_get_status s.pole in
    let arm = arm_get_status s.arm in
    let lift = lift_get_status s.lift in
    let hp = pole_position s.pole in
    let ha = arm_position s.arm in
    let fits = (net_values_fit pole arm lift 0 s.rtu_data_tx hp ha tx).0 in
    let read = read_reply-net_values pole arm lift 0 s.rtu_data_tx hp ha tx in
    elim (Bool-cases (is_ok (mem.write_result t))) [
      | inl e ↦ rw e (record {
        flags = refl;
        calls = refl;
        reply_size = fits.buffer_size;
        reply_read = read;
        tx = fits;
        left = rw e refl;
        status = rw e refl;
      })
      | inr e ↦ rw e (record {
        flags = refl;
        calls = refl;
        reply_size = fits.buffer_size;
        reply_read = read;
        tx = fits;
        left = rw e refl;
        status = rw e refl;
      })
    ]

-- Where the heap is not exhausted: a round on the packet of a valid command, from the flag byte of an earlier command and with a direct
-- change of mode: the calls are those that carry out exactly the orders of the change, then one reply
-- of 100 bytes, which a client reads to the status of the three devices. The loop is left, with
-- ERROR_NETCONN, exactly where the reply could not be written.
pub round_command :
    (mem : Memory) (cmd : HmiCmd) (before : Mode) (was : Enable) (s : Session) (t : Trace)
    → IsCommand cmd
    → IsDirect before cmd.mode
    → s.previous_flag_byte ≡ flag_byte before was
    → IsRtuData s.rtu_data_tx
    → Ensures
        (Replied mem s (flag_byte cmd.mode cmd.ctrl_en) (
          order_calls cmd
            (orders before was cmd.mode cmd.ctrl_en cmd.free_run_axis cmd.lift_dir)
            t))
        (round (plenty mem) (bytes (wire (encode cmd))) s t)
unfolding round answer
round_command mem cmd before was s t valid direct flags tx =
    let previous = flag_byte cmd.mode cmd.ctrl_en in
    let calls =
      order_calls cmd (orders before was cmd.mode cmd.ctrl_en cmd.free_run_axis cmd.lift_dir) t in
    let triggered : task_trigger_msg (plenty mem) s.previous_flag_byte cmd t ≡ done previous calls =
      ap (λ p. task_trigger_msg (plenty mem) p cmd t) flags
      ∙ task_trigger_msg-orders mem before was cmd t direct in
    rw (receive_packet-wire cmd s.hmi_cmd valid) (
      Ensures-bind (λ p t'. (p ≡ previous) × (t' ≡ calls)) (Replied mem s previous calls)
        (task_trigger_msg (plenty mem) s.previous_flag_byte cmd)
        (reply (plenty mem) (accepted s cmd)) t (rw triggered (refl, refl))
        (λ p t' h. rw (h.0, h.1) (reply-Replied mem s cmd previous calls tx)))
