-- ===== src/Report/Fits.antt =====
-- Every array that `NetValuesToSendFromRTU` prints into is large enough, and the reply is never cut.
use rtu_com.Common.{
  ℕ, ◌+◌, ◌%◌, ◌≤◌, ◌<◌, List, [], ◌∷◌, ◌++◌, ◌≡◌, refl, ◌≢◌, Bool, true, false, not, ◌||◌, ◌==◌,
  String, codes, arith, length, length-append, length-drop, take_all, drop, All, if◌then◌else◌,
}
use rtu_com.Motion.{MotPap, Lift}
use rtu_com.Hmi.{rtu_netvar_size}
use rtu_com.Report.{
  RtuData, decimal, c_string, sprintf_text, snprintf, report_text, fill_values, limit_text, space,
}

-- The arrays of an `RTUData_t` have their declared sizes.
pub record IsRtuData (r : RtuData) : Type 0 where
  pub cw_arm_size : length r.cw_limit_arm ≡ rtu_netvar_size
  pub ccw_arm_size : length r.ccw_limit_arm ≡ rtu_netvar_size
  pub cw_pole_size : length r.cw_limit_pole ≡ rtu_netvar_size
  pub ccw_pole_size : length r.ccw_limit_pole ≡ rtu_netvar_size
  pub up_size : length r.limit_up ≡ rtu_netvar_size
  pub down_size : length r.limit_down ≡ rtu_netvar_size
  pub stall_size : length r.stall_alm ≡ rtu_netvar_size
  pub buffer_size : length r.buffer ≡ 100

-- The values of the status structs lie in their types.
pub record IsMotPap (s : MotPap) : Type 0 where
  pub pos_range : s.pos_act < 65536

-- `pRTUDataTx->status`.
abbrev pub status_of : ℕ → ℕ
status_of st = if not (st == 0) then st % 256 else 0x00

-- A text that fills a field of nine bytes with its NUL.
pub record IsField (t : String) : Type 0 where
  pub size : length (codes t) ≡ 8
  pub no_nul : All (λ c. c ≢ 0) (codes t)

length-sprintf_text :
    (to : List ℕ) (t : String)
    → length (codes t) ≡ 8
    → length to ≡ rtu_netvar_size
    → length (sprintf_text to t) ≡ rtu_netvar_size
unfolding sprintf_text
length-sprintf_text to t h k = omega (
  arith,
  length-append (codes t) (0 ∷ drop (length (codes t) + 1) to),
  length-drop (length (codes t) + 1) to,
)

pub length-limit_text :
    (b : Bool) (lim run : String) (to : List ℕ)
    → IsField lim
    → IsField run
    → length to ≡ rtu_netvar_size
    → length (limit_text b lim run to) ≡ rtu_netvar_size
length-limit_text true lim run to l r h = length-sprintf_text to lim l.size h
length-limit_text false lim run to l r h = length-sprintf_text to run r.size h

c_string_lem : (cs rest : List ℕ) → All (λ c. c ≢ 0) cs → c_string (cs ++ 0 ∷ rest) ≡ cs
unfolding c_string
c_string_lem [] rest h = refl
c_string_lem (c ∷ cs) rest h = ground (arith, c_string_lem cs rest h.1)

-- What `%s` prints of a field.
pub c_string-limit_text :
    (b : Bool) (lim run : String) (to : List ℕ)
    → IsField lim
    → IsField run
    → c_string (limit_text b lim run to) ≡ codes (if b then lim else run)
unfolding sprintf_text
c_string-limit_text true lim run to l r = c_string_lem (codes lim) _ l.no_nul
c_string-limit_text false lim run to l r = c_string_lem (codes run) _ r.no_nul

pub length-shown :
    (b : Bool) (lim run : String)
    → IsField lim
    → IsField run
    → length (codes (if b then lim else run)) ≡ 8
length-shown true lim run l r = l.size
length-shown false lim run l r = r.size

pub snprintf_whole :
    (to text : List ℕ)
    → length to ≡ 100
    → length text ≤ 99
    → (snprintf to 100 text ≡ text ++ 0 ∷ drop (length text + 1) to)
      × (length (snprintf to 100 text) ≡ 100)
unfolding snprintf
snprintf_whole to text h k =
    let rest = drop (length text + 1) to in
    let size : length (text ++ 0 ∷ rest) ≡ 100 =
      omega (arith, length-append text (0 ∷ rest), length-drop (length text + 1) to) in
    rw (take_all 99 text k) (refl, size)

module _ (pole arm : MotPap) (lift : Lift) (st : ℕ) where
  -- The text of a reply, from the status of the devices.
  unfoldable pub shown_text : List ℕ
  shown_text =
      decimal arm.pos_act
      ++ (space
          ∷ (decimal (arm.freq % 65536)
              ++ (space
                  ∷ (decimal pole.pos_act
                      ++ (space
                          ∷ (decimal (pole.freq % 65536)
                              ++ (space
                                  ∷ (codes
                                        (if not (arm.cw_limit == 0) then "ACW_LIM;" else "ACW_RUN;")
                                      ++ (space
                                          ∷ (codes (
                                                if not (arm.ccw_limit == 0)
                                                then "ACC_LIM;"
                                                else "ACC_RUN;")
                                              ++ (space
                                                  ∷ (codes (
                                                        if not (pole.cw_limit == 0)
                                                        then "PCW_LIM;"
                                                        else "PCW_RUN;")
                                                      ++ (space
                                                          ∷ (codes (
                                                            if not (pole.ccw_limit == 0)
                                                            then "PCC_LIM;"
                                                            else "PCC_RUN;")
                                                            ++ (space
                                                            ∷ (codes (
                                                            if lift.up_limit
                                                            then "LUP_LIM;"
                                                            else "LUP_RUN;")
                                                            ++ (space
                                                            ∷ (codes (
                                                            if lift.down_limit
                                                            then "LDW_LIM;"
                                                            else "LDW_RUN;")
                                                            ++ (space
                                                            ∷ (codes (
                                                            if arm.stalled || pole.stalled
                                                            then "STL_ALM;"
                                                            else "STL_RUN;")
                                                            ++ (space
                                                            ∷ (decimal (status_of st)
                                                            ++ (space ∷ [])))))))))))))))))))))))

  pub report_text-fill_values :
      (r : RtuData) → report_text (fill_values pole arm lift st r) ≡ shown_text
  unfolding report_text fill_values shown_text
  report_text-fill_values r = rw (
    c_string-limit_text (not (arm.cw_limit == 0)) "ACW_LIM;" "ACW_RUN;" r.cw_limit_arm (omega arith)
        (omega arith),
    c_string-limit_text (not (arm.ccw_limit == 0)) "ACC_LIM;" "ACC_RUN;" r.ccw_limit_arm
        (omega arith) (omega arith),
    c_string-limit_text (not (pole.cw_limit == 0)) "PCW_LIM;" "PCW_RUN;" r.cw_limit_pole
        (omega arith) (omega arith),
    c_string-limit_text (not (pole.ccw_limit == 0)) "PCC_LIM;" "PCC_RUN;" r.ccw_limit_pole
        (omega arith) (omega arith),
    c_string-limit_text lift.up_limit "LUP_LIM;" "LUP_RUN;" r.limit_up (omega arith) (omega arith),
    c_string-limit_text lift.down_limit "LDW_LIM;" "LDW_RUN;" r.limit_down (omega arith)
        (omega arith),
    c_string-limit_text (arm.stalled || pole.stalled) "STL_ALM;" "STL_RUN;" r.stall_alm
        (omega arith) (omega arith),
  )
