-- ===== src/Report.antt =====
-- com/src/net_values.c, the sending half: `NetValuesToSendFromRTU`. A `char` array is the list of its
-- bytes. `sprintf` and `snprintf` are those of <stdio.h>, for the formats that the code uses.
pub mod Decimal
pub mod Fits
pub mod Reply
pub mod Reading
use rtu_com.Common.{
  ℕ, zero, suc, ◌+◌, ◌-◌, ◌/◌, ◌%◌, List, [], ◌∷◌, ◌++◌, Bool, not, ◌||◌, ◌==◌, ltb, if◌then◌else◌,
  String, codes, take, drop, length,
}
use rtu_com.Motion.{MotPap, Lift}

pub record RtuData : Type 0 where
  pub res_act_arm : ℕ  -- uint16_t
  pub res_act_pole : ℕ  -- uint16_t
  pub vel_act_arm : ℕ  -- uint16_t
  pub vel_act_pole : ℕ  -- uint16_t
  pub cw_limit_arm : List ℕ
  pub ccw_limit_arm : List ℕ
  pub cw_limit_pole : List ℕ
  pub ccw_limit_pole : List ℕ
  pub limit_up : List ℕ
  pub limit_down : List ℕ
  pub stall_alm : List ℕ
  pub status : ℕ  -- uint8_t
  pub buffer : List ℕ

-- The digits of `%d` for a number that is not negative. Each round takes a digit off, so `n + 1`
-- rounds are enough.
decimal_rounds : ℕ → ℕ → List ℕ
decimal_rounds zero n = []
decimal_rounds (suc f) n =
    let front = decimal_rounds f (n / 10) in
    if ltb n 10 then (n + b'0') ∷ [] else front ++ (n % 10 + b'0') ∷ []

unfoldable pub decimal : ℕ → List ℕ
unfolding decimal_rounds
decimal n = decimal_rounds (suc n) n

-- What `%s` prints: the bytes up to the NUL.
unfoldable pub c_string : List ℕ → List ℕ
c_string [] = []
c_string (c ∷ cs) = if c == 0 then [] else c ∷ c_string cs

-- `sprintf(to, "%s", text)`: the text, its NUL, and what stood behind them.
unfoldable pub sprintf_text : List ℕ → String → List ℕ
sprintf_text to text = codes text ++ 0 ∷ drop (length (codes text) + 1) to

-- `snprintf(to, size, ...)` of a text that is printed: at most `size - 1` characters of it.
unfoldable pub snprintf : List ℕ → ℕ → List ℕ → List ℕ
snprintf to size text = let shown = take (size - 1) text in shown ++ 0 ∷ drop (length shown + 1) to

abbrev pub space : ℕ
space = b' '

-- The text of the format "%d %d %d %d %s %s %s %s %s %s %s %d ".
unfoldable pub report_text : RtuData → List ℕ
report_text r =
    decimal r.res_act_arm
    ++ (space
        ∷ (decimal r.vel_act_arm
            ++ (space
                ∷ (decimal r.res_act_pole
                    ++ (space
                        ∷ (decimal r.vel_act_pole
                            ++ (space
                                ∷ (c_string r.cw_limit_arm
                                    ++ (space
                                        ∷ (c_string r.ccw_limit_arm
                                            ++ (space
                                                ∷ (c_string r.cw_limit_pole
                                                    ++ (space
                                                        ∷ (c_string r.ccw_limit_pole
                                                            ++ (space
                                                            ∷ (c_string r.limit_up
                                                            ++ (space
                                                            ∷ (c_string r.limit_down
                                                            ++ (space
                                                            ∷ (c_string r.stall_alm
                                                            ++ (space
                                                            ∷ (decimal r.status
                                                            ++ (space ∷ [])))))))))))))))))))))))

abbrev pub limit_text : Bool → String → String → List ℕ → List ℕ
limit_text reached lim run to = sprintf_text to (if reached then lim else run)

-- The fields, in the order of the assignments. `iServerStatus` is given as its 16 bits.
unfoldable pub fill_values : MotPap → MotPap → Lift → ℕ → RtuData → RtuData
fill_values pole arm lift i_server_status r = record r {
  res_act_arm = arm.pos_act;
  res_act_pole = pole.pos_act;
  vel_act_arm = arm.freq % 65536;
  vel_act_pole = pole.freq % 65536;
  cw_limit_arm = limit_text (not (arm.cw_limit == 0)) "ACW_LIM;" "ACW_RUN;" r.cw_limit_arm;
  ccw_limit_arm = limit_text (not (arm.ccw_limit == 0)) "ACC_LIM;" "ACC_RUN;" r.ccw_limit_arm;
  cw_limit_pole = limit_text (not (pole.cw_limit == 0)) "PCW_LIM;" "PCW_RUN;" r.cw_limit_pole;
  ccw_limit_pole = limit_text (not (pole.ccw_limit == 0)) "PCC_LIM;" "PCC_RUN;" r.ccw_limit_pole;
  limit_up = limit_text lift.up_limit "LUP_LIM;" "LUP_RUN;" r.limit_up;
  limit_down = limit_text lift.down_limit "LDW_LIM;" "LDW_RUN;" r.limit_down;
  stall_alm = limit_text (arm.stalled || pole.stalled) "STL_ALM;" "STL_RUN;" r.stall_alm;
  status = if not (i_server_status == 0) then i_server_status % 256 else 0x00;
}

unfoldable pub net_values_to_send_from_rtu : MotPap → MotPap → Lift → ℕ → RtuData → RtuData
net_values_to_send_from_rtu pole arm lift i_server_status r =
    let r' = fill_values pole arm lift i_server_status r in
    record r' { buffer = snprintf r'.buffer 100 (report_text r') }
