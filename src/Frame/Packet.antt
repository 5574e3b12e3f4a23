-- ===== src/Frame/Packet.antt =====
-- `NetValuesReceivedFromHMI` on the bytes of a packet, as `tcp_thread` calls it.
use rtu_com.Common.{ℕ, List, ◌≡◌, ◌≢◌, refl, ◌∙◌, sym, ap, length, ◌≤◌, codes, inl, inr}
use rtu_com.Hmi.{
  HmiCmd, Mode, FreeRunAxis, FreeRunDir, Enable, LiftDir, err_ok, error_trama_vacia,
  error_trama_cliente, hmi_netvar_size,
}
use rtu_com.Frame.{Received, net_values_received_from_hmi}
use rtu_com.Frame.Encode.{
  encode, IsCommand, IsFrame, mode_text, free_run_axis_text, free_run_dir_text, ctrl_en_text,
  stall_en_text, lift_dir_text,
}
use rtu_com.Frame.Accepts.{accepted-encode, encode_accepted, received-ok, received_bounds}
use rtu_com.Frame.Layout.{
  hmi_data_of, wire, AreBytes, hmi_data_of-IsFrame, hmi_data_of-wire, wire-hmi_data_of, length-wire,
}

abbrev pub receive_packet : List ℕ → HmiCmd → Received
receive_packet packet c = net_values_received_from_hmi (hmi_data_of packet) c (length packet)

mode_size : (m : Mode) → length (codes (mode_text m)) ≡ hmi_netvar_size
mode_size = elim [ Mode.stop ↦ refl | Mode.free_run ↦ refl | Mode.auto ↦ refl | Mode.lift ↦ refl ]

axis_size : (a : FreeRunAxis) → length (codes (free_run_axis_text a)) ≡ hmi_netvar_size
axis_size = elim [ FreeRunAxis.arm ↦ refl | FreeRunAxis.pole ↦ refl ]

dir_size : (d : FreeRunDir) → length (codes (free_run_dir_text d)) ≡ hmi_netvar_size
dir_size = elim [ FreeRunDir.cw ↦ refl | FreeRunDir.ccw ↦ refl ]

ctrl_size : (e : Enable) → length (codes (ctrl_en_text e)) ≡ hmi_netvar_size
ctrl_size = elim [ Enable.desable ↦ refl | Enable.enable ↦ refl ]

stall_size : (e : Enable) → length (codes (stall_en_text e)) ≡ hmi_netvar_size
stall_size = elim [ Enable.desable ↦ refl | Enable.enable ↦ refl ]

lift_size : (d : LiftDir) → length (codes (lift_dir_text d)) ≡ hmi_netvar_size
lift_size = elim [ LiftDir.down ↦ refl | LiftDir.up ↦ refl ]

encode-IsFrame : (c : HmiCmd) → IsFrame (encode c)
encode-IsFrame c = record {
  mode_size = mode_size c.mode;
  axis_size = axis_size c.free_run_axis;
  dir_size = dir_size c.free_run_dir;
  ctrl_size = ctrl_size c.ctrl_en;
  stall_size = stall_size c.stall_en;
  lift_size = lift_size c.lift_dir;
  client_size = refl;
}

-- The packet of a valid command is accepted, and read back to that command.
pub receive_packet-wire :
    (c old : HmiCmd) → IsCommand c → receive_packet (wire (encode c)) old ≡ (err_ok, c)
receive_packet-wire c old valid =
    let f = encode-IsFrame c in
    rw (hmi_data_of-wire (encode c) f, length-wire (encode c) f) (encode_accepted c old valid)

-- A packet that is accepted is, byte for byte, the packet of the valid command that is read from it.
pub wire-receive_packet :
    (packet : List ℕ) (old : HmiCmd)
    → AreBytes packet
    → (receive_packet packet old).0 ≡ err_ok
    → let c = (receive_packet packet old).1 in IsCommand c × (packet ≡ wire (encode c))
wire-receive_packet packet old small h =
    let (size, _, _) = received-ok (hmi_data_of packet) old (length packet) h in
    let (_, valid, same) =
      accepted-encode (hmi_data_of packet) old (length packet) (hmi_data_of-IsFrame packet size)
        h in
    (valid, sym (wire-hmi_data_of packet size small) ∙ ap wire same)

-- A packet that is not the packet of a valid command is refused, with one of the four frame errors.
pub packet_refused :
    (packet : List ℕ) (old : HmiCmd)
    → AreBytes packet
    → ((c : HmiCmd) → IsCommand c → packet ≢ wire (encode c))
    → let st = (receive_packet packet old).0 in
      (error_trama_vacia ≤ st) × (st ≤ error_trama_cliente)
packet_refused packet old small none_such =
    elim (received_bounds (hmi_data_of packet) old (length packet)) [
      | inl fine ↦
          let (valid, same) = wire-receive_packet packet old small fine in
          absurd (none_such _ valid same)
      | inr error ↦ error
    ]
