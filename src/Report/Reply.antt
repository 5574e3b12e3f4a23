-- ===== src/Report/Reply.antt =====
-- The buffer that `NetValuesToSendFromRTU` leaves: the whole text, its NUL, and old bytes.
use rtu_com.Common.{
  ℕ, ◌+◌, ◌%◌, ◌≤◌, ◌<◌, ◌∷◌, ◌++◌, ◌≡◌, not, ◌||◌, ◌==◌, arith, length, length-append, drop,
}
use rtu_com.Motion.{MotPap, Lift}
use rtu_com.Report.{RtuData, fill_values, net_values_to_send_from_rtu}
use rtu_com.Report.Decimal.{length-decimal}
use rtu_com.Report.Fits.{
  IsRtuData, IsMotPap, status_of, shown_text, report_text-fill_values, length-shown, snprintf_whole,
  length-limit_text,
}

status_of-lt : (st : ℕ) → status_of st < 256
status_of-lt st = ground arith

length-shown_text :
    (pole arm : MotPap) (lift : Lift) (st : ℕ)
    → IsMotPap pole
    → IsMotPap arm
    → length (shown_text pole arm lift st) ≤ 91
unfolding shown_text
length-shown_text pole arm lift st hp ha = omega (
  arith,
  length-append {0},
  length-decimal 4 arm.pos_act (omega arith),
  length-decimal 4 (arm.freq % 65536) (omega arith),
  length-decimal 4 pole.pos_act (omega arith),
  length-decimal 4 (pole.freq % 65536) (omega arith),
  length-decimal 2 (status_of st) (omega (arith, status_of-lt st)),
  length-shown (not (arm.cw_limit == 0)) "ACW_LIM;" "ACW_RUN;" (omega arith) (omega arith),
  length-shown (not (arm.ccw_limit == 0)) "ACC_LIM;" "ACC_RUN;" (omega arith) (omega arith),
  length-shown (not (pole.cw_limit == 0)) "PCW_LIM;" "PCW_RUN;" (omega arith) (omega arith),
  length-shown (not (pole.ccw_limit == 0)) "PCC_LIM;" "PCC_RUN;" (omega arith) (omega arith),
  length-shown lift.up_limit "LUP_LIM;" "LUP_RUN;" (omega arith) (omega arith),
  length-shown lift.down_limit "LDW_LIM;" "LDW_RUN;" (omega arith) (omega arith),
  length-shown (arm.stalled || pole.stalled) "STL_ALM;" "STL_RUN;" (omega arith) (omega arith),
)

module _ (pole arm : MotPap) (lift : Lift) (st : ℕ) (r : RtuData) (valid : IsRtuData r) where
  fill_values-IsRtuData : IsRtuData (fill_values pole arm lift st r)
  unfolding fill_values
  fill_values-IsRtuData = record {
    cw_arm_size =
        length-limit_text _ "ACW_LIM;" "ACW_RUN;" _ (omega arith) (omega arith) valid.cw_arm_size;
    ccw_arm_size =
        length-limit_text _ "ACC_LIM;" "ACC_RUN;" _ (omega arith) (omega arith) valid.ccw_arm_size;
    cw_pole_size =
        length-limit_text _ "PCW_LIM;" "PCW_RUN;" _ (omega arith) (omega arith) valid.cw_pole_size;
    ccw_pole_size =
        length-limit_text _ "PCC_LIM;" "PCC_RUN;" _ (omega arith) (omega arith) valid.ccw_pole_size;
    up_size = length-limit_text _ "LUP_LIM;" "LUP_RUN;" _ (omega arith) (omega arith) valid.up_size;
    down_size =
        length-limit_text _ "LDW_LIM;" "LDW_RUN;" _ (omega arith) (omega arith) valid.down_size;
    stall_size =
        length-limit_text _ "STL_ALM;" "STL_RUN;" _ (omega arith) (omega arith) valid.stall_size;
    buffer_size = valid.buffer_size;
  }

-- For devices whose position is a uint16_t: no array of the reply is written past its end, and the
-- text of the reply is at most 91 characters, so the buffer of 100 holds all of it with its NUL; the
-- bytes behind the NUL are those that the buffer held before.
pub net_values_fit :
    (pole arm : MotPap) (lift : Lift) (st : ℕ) (r : RtuData)
    → IsMotPap pole
    → IsMotPap arm
    → IsRtuData r
    → let out = net_values_to_send_from_rtu pole arm lift st r in
      let text = shown_text pole arm lift st in
      IsRtuData out
      × (length text ≤ 91)
      × (out.buffer ≡ text ++ 0 ∷ drop (length text + 1) r.buffer)
unfolding net_values_to_send_from_rtu
net_values_fit pole arm lift st r hp ha valid =
    let r' = fill_values pole arm lift st r in
    let filled = fill_values-IsRtuData pole arm lift st r valid in
    let short = length-shown_text pole arm lift st hp ha in
    let (whole, size) =
      snprintf_whole r'.buffer (shown_text pole arm lift st) filled.buffer_size (omega arith) in
    rw (report_text-fill_values pole arm lift st r) (
      record {
        cw_arm_size = filled.cw_arm_size;
        ccw_arm_size = filled.ccw_arm_size;
        cw_pole_size = filled.cw_pole_size;
        ccw_pole_size = filled.ccw_pole_size;
        up_size = filled.up_size;
        down_size = filled.down_size;
        stall_size = filled.stall_size;
        buffer_size = size;
      },
      short,
      (unfold fill_values in whole),
    )
