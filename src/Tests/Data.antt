-- ===== src/Tests/Data.antt =====
-- Commands, packets and memories for the tests.
use rtu_com.Common.{ℕ, List, ◌∷◌, ◌++◌, none, codes}
use rtu_com.Motion.{MotPapDirection, MotPapType, LiftType}
use rtu_com.Hmi.{HmiCmd, Mode, FreeRunAxis, FreeRunDir, Enable, LiftDir, Sign}
use rtu_com.Kernel.{Memory, Env, ErrT}

-- Blocks that hold an old message.
abbrev pub memory : Memory
memory = record {
  mot_pap_contents = λ t. record {
    type = MotPapType.indeterminate 7;
    free_run_direction = MotPapDirection.ccw;
    free_run_speed = 77;
    closed_loop_setpoint = 99;
  };
  lift_contents = λ t. record { type = LiftType.indeterminate 5 };
  write_result = λ t. ErrT.err_ok;
}

abbrev pub no_memory : Env
no_memory = record {
  mot_pap_block = λ t. none;
  lift_block = λ t. none;
  write_err = λ t. ErrT.err_ok;
}

abbrev pub frun_arm : HmiCmd
frun_arm = record {
  pos_cmd_arm = 513;
  pos_cmd_pole = 1000;
  vel_cmd_arm = 3;
  vel_cmd_pole = 8;
  mode = Mode.free_run;
  free_run_axis = FreeRunAxis.arm;
  free_run_dir = FreeRunDir.ccw;
  ctrl_en = Enable.enable;
  stall_en = Enable.desable;
  lift_dir = LiftDir.up;
  client_id = Sign.signed;
}

abbrev pub auto_cmd : HmiCmd
auto_cmd = record frun_arm { mode = Mode.auto }

abbrev pub stop_pole : HmiCmd
stop_pole = record frun_arm { mode = Mode.stop; free_run_axis = FreeRunAxis.pole }

abbrev pub off : HmiCmd
off = record frun_arm { ctrl_en = Enable.desable }

abbrev pub old_cmd : HmiCmd
old_cmd = record frun_arm { mode = Mode.lift; vel_cmd_arm = 200; client_id = Sign.unsigned }

abbrev pub packet : List ℕ
packet =
    1
    ∷ 2
    ∷ 0xE8
    ∷ 3
    ∷ 3
    ∷ 8
    ∷ (codes "FRUN;"
        ++ (codes "ARM_;"
            ++ (codes "CCW_;"
                ++ (codes "CTLE;" ++ (codes "DSTL;" ++ (codes "LFUP;" ++ codes "SM13;"))))))
