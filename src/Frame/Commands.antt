-- ===== src/Frame/Commands.antt =====
-- The type of the packets that `NetValuesReceivedFromHMI` accepts, and that of the commands that an HMI
-- may give.
use std.Equiv.{Iso, iso_to_equiv}
use std.Univalence.{ua, ua-β}
use std.HLevel.{Σ_prop_path}
use std.Path.{transport}
use native.Mathlib.Bridge.{le_prop}
use rtu_com.Common.{
  ℕ, ◌/◌, ◌%◌, ◌^◌, ◌<◌, ◌≤◌, List, [], ◌∷◌, ◌++◌, ◌≡◌, sym, ap, subst, arith, codes,
}
use rtu_com.Hmi.{HmiCmd, Mode, FreeRunAxis, FreeRunDir, Enable, LiftDir, err_ok}
use rtu_com.Frame.Encode.{
  encode, IsCommand, mode_text, free_run_axis_text, free_run_dir_text, ctrl_en_text, stall_en_text,
  lift_dir_text,
}
use rtu_com.Frame.Layout.{wire, AreBytes}
use rtu_com.Frame.Packet.{receive_packet, receive_packet-wire, wire-receive_packet}

-- The fields of the struct are uint16_t.
pub record IsSendable (c : HmiCmd) : Type 0 where
  pub valid : IsCommand c
  pub arm_target : c.pos_cmd_arm < 2 ^ 16
  pub pole_target : c.pos_cmd_pole < 2 ^ 16

abbrev pub Command : Type 0
Command = (c : HmiCmd) × IsSendable c

-- The packets that are accepted, into whatever the struct of the command held before.
abbrev pub Accepted : HmiCmd → Type 0
Accepted old = (packet : List ℕ) × (AreBytes packet × ((receive_packet packet old).0 ≡ err_ok))

IsSendable-IsProp : (c : HmiCmd) → IsProp (IsSendable c)
IsSendable-IsProp c = hlevel le_prop

AreBytes-IsProp : (packet : List ℕ) → IsProp (AreBytes packet)
AreBytes-IsProp [] = hlevel
AreBytes-IsProp (x ∷ xs) = hlevel (le_prop, AreBytes-IsProp xs)

AreAccepted-IsProp :
    (old : HmiCmd) (packet : List ℕ)
    → IsProp (AreBytes packet × ((receive_packet packet old).0 ≡ err_ok))
AreAccepted-IsProp old packet = hlevel (AreBytes-IsProp packet)

AreBytes-append : (xs ys : List ℕ) → AreBytes xs → AreBytes ys → AreBytes (xs ++ ys)
AreBytes-append [] ys h k = k
AreBytes-append (x ∷ xs) ys (h, hs) k = (h, AreBytes-append xs ys hs k)

mode-AreBytes : (m : Mode) → AreBytes (codes (mode_text m))
mode-AreBytes = elim [
  | Mode.stop ↦ omega arith
  | Mode.free_run ↦ omega arith
  | Mode.auto ↦ omega arith
  | Mode.lift ↦ omega arith
]

axis-AreBytes : (a : FreeRunAxis) → AreBytes (codes (free_run_axis_text a))
axis-AreBytes = elim [ FreeRunAxis.arm ↦ omega arith | FreeRunAxis.pole ↦ omega arith ]

dir-AreBytes : (d : FreeRunDir) → AreBytes (codes (free_run_dir_text d))
dir-AreBytes = elim [ FreeRunDir.cw ↦ omega arith | FreeRunDir.ccw ↦ omega arith ]

ctrl-AreBytes : (e : Enable) → AreBytes (codes (ctrl_en_text e))
ctrl-AreBytes = elim [ Enable.desable ↦ omega arith | Enable.enable ↦ omega arith ]

stall-AreBytes : (e : Enable) → AreBytes (codes (stall_en_text e))
stall-AreBytes = elim [ Enable.desable ↦ omega arith | Enable.enable ↦ omega arith ]

lift-AreBytes : (d : LiftDir) → AreBytes (codes (lift_dir_text d))
lift-AreBytes = elim [ LiftDir.down ↦ omega arith | LiftDir.up ↦ omega arith ]

client-AreBytes : AreBytes (codes "SM13;")
client-AreBytes = omega arith

texts-AreBytes :
    (c : HmiCmd)
    → let d = encode c in
      AreBytes (
        d.mode
        ++ (d.free_run_axis
            ++ (d.free_run_dir ++ (d.ctrl_en ++ (d.stall_en ++ (d.lift_dir ++ d.client_id))))))
texts-AreBytes c = AreBytes-append _ _ (mode-AreBytes c.mode) (
    AreBytes-append _ _ (axis-AreBytes c.free_run_axis) (
      AreBytes-append _ _ (dir-AreBytes c.free_run_dir) (
        AreBytes-append _ _ (ctrl-AreBytes c.ctrl_en) (
          AreBytes-append _ _ (stall-AreBytes c.stall_en)
            (AreBytes-append _ _ (lift-AreBytes c.lift_dir) client-AreBytes)))))

low_byte : (n : ℕ) → n % 256 < 256
low_byte n = omega arith

high_byte : (n : ℕ) → n < 2 ^ 16 → n / 256 < 256
high_byte n h = omega arith

small : (n : ℕ) → n ≤ 8 → n < 256
small n h = omega arith

uint16 : (n : ℕ) → n / 256 < 256 → n < 2 ^ 16
uint16 n h = omega arith

wire-AreBytes : (c : HmiCmd) → IsSendable c → AreBytes (wire (encode c))
wire-AreBytes c s = (
  low_byte c.pos_cmd_arm,
  (
    high_byte c.pos_cmd_arm s.arm_target,
    (
      low_byte c.pos_cmd_pole,
      (
        high_byte c.pos_cmd_pole s.pole_target,
        (
          small c.vel_cmd_arm s.valid.vel_arm,
          (small c.vel_cmd_pole s.valid.vel_pole, texts-AreBytes c),
        ),
      ),
    ),
  ),
)

wire-IsSendable : (c : HmiCmd) → IsCommand c → AreBytes (wire (encode c)) → IsSendable c
wire-IsSendable c valid (_, (arm, (_, (pole, _)))) = record {
  valid = valid;
  arm_target = uint16 c.pos_cmd_arm arm;
  pole_target = uint16 c.pos_cmd_pole pole;
}

module _ (old : HmiCmd) where
  abbrev read_command : Accepted old → Command
  read_command (packet, (small, fine)) =
      let (valid, same) = wire-receive_packet packet old small fine in
      let c = (receive_packet packet old).1 in
      (c, wire-IsSendable c valid (subst AreBytes same small))

  abbrev write_command : Command → Accepted old
  write_command (c, s) =
      (wire (encode c), (wire-AreBytes c s, ap (λ r. r.0) (receive_packet-wire c old s.valid)))

  abbrev command_iso : Iso (Accepted old) Command
  command_iso = record {
    fun = read_command;
    inv = write_command;
    rinv =
        λ (c, s). Σ_prop_path IsSendable-IsProp (ap (λ r. r.1) (receive_packet-wire c old s.valid));
    linv = λ (packet, (small, fine)).
        Σ_prop_path (AreAccepted-IsProp old) (sym (wire-receive_packet packet old small fine).1);
  }

  -- The packets that are accepted, whatever the struct held before, and the commands that an HMI may
  -- give are the same type; and along that equation a packet goes to the command that
  -- `NetValuesReceivedFromHMI` reads from it.
  pub accepted-commands :
      (e : Accepted old ≡ Command) × ((a : Accepted old)
        → (transport e a).0 ≡ (receive_packet a.0 old).1)
  accepted-commands = let e = iso_to_equiv command_iso in (ua e, λ a. ap (λ c. c.0) (ua-β e a))
