-- ===== src/Report/Reading.antt =====
-- A client that reads the reply: twelve words, each ended by a space, numbers in decimal.
use rtu_com.Common.{
  ℕ, ◌%◌, List, [], ◌∷◌, ◌++◌, ◌≡◌, refl, ◌≢◌, Bool, true, false, not, ◌||◌, ◌==◌, String, codes,
  arith, All, if◌then◌else◌, append_assoc,
}
use rtu_com.Motion.{MotPap, Lift}
use rtu_com.Report.{RtuData, decimal, net_values_to_send_from_rtu, space}
use rtu_com.Report.Decimal.{value, value-decimal, AreDigits, decimal-AreDigits}
use rtu_com.Report.Fits.{IsRtuData, IsMotPap, status_of, shown_text}
use rtu_com.Report.Reply.{net_values_fit}

-- The word up to the next space, and what follows that space.
pub word : List ℕ → List ℕ × List ℕ
word [] = ([], [])
word (c ∷ cs) = let (w, rest) = word cs in if c == space then ([], cs) else (c ∷ w, rest)

pub record Reading : Type 0 where
  pub res_arm : ℕ
  pub vel_arm : ℕ
  pub res_pole : ℕ
  pub vel_pole : ℕ
  pub cw_arm : List ℕ
  pub ccw_arm : List ℕ
  pub cw_pole : List ℕ
  pub ccw_pole : List ℕ
  pub up : List ℕ
  pub down : List ℕ
  pub stall : List ℕ
  pub status : ℕ

unfoldable pub read_reply : List ℕ → Reading
read_reply bytes =
    let (res_arm, b₁) = word bytes in
    let (vel_arm, b₂) = word b₁ in
    let (res_pole, b₃) = word b₂ in
    let (vel_pole, b₄) = word b₃ in
    let (cw_arm, b₅) = word b₄ in
    let (ccw_arm, b₆) = word b₅ in
    let (cw_pole, b₇) = word b₆ in
    let (ccw_pole, b₈) = word b₇ in
    let (up, b₉) = word b₈ in
    let (down, b₁₀) = word b₉ in
    let (stall, b₁₁) = word b₁₀ in
    let (status, _) = word b₁₁ in
    record {
      res_arm = value res_arm;
      vel_arm = value vel_arm;
      res_pole = value res_pole;
      vel_pole = value vel_pole;
      cw_arm = cw_arm;
      ccw_arm = ccw_arm;
      cw_pole = cw_pole;
      ccw_pole = ccw_pole;
      up = up;
      down = down;
      stall = stall;
      status = value status;
    }

word-append : (w rest : List ℕ) → All (λ c. c ≢ space) w → word (w ++ space ∷ rest) ≡ (w, rest)
unfolding word
word-append [] rest h = refl
word-append (c ∷ cs) rest h = ground (arith, word-append cs rest h.1)

AreDigits-no_space : (w : List ℕ) → AreDigits w → All (λ c. c ≢ space) w
AreDigits-no_space [] h = tt
AreDigits-no_space (c ∷ cs) h = ((omega arith), AreDigits-no_space cs h.1)

word-decimal : (n : ℕ) (rest : List ℕ) → word (decimal n ++ space ∷ rest) ≡ (decimal n, rest)
word-decimal n rest =
    word-append (decimal n) rest (AreDigits-no_space (decimal n) (decimal-AreDigits n))

word-shown :
    (b : Bool) (lim run : String)
    → All (λ c. c ≢ space) (codes lim)
    → All (λ c. c ≢ space) (codes run)
    → (rest : List ℕ)
    → word (codes (if b then lim else run) ++ space ∷ rest) ≡ (codes (if b then lim else run), rest)
word-shown true lim run l r rest = word-append (codes lim) rest l
word-shown false lim run l r rest = word-append (codes run) rest r

-- What the devices say.
abbrev pub reading_of : MotPap → MotPap → Lift → ℕ → Reading
reading_of pole arm lift st = record {
  res_arm = arm.pos_act;
  vel_arm = arm.freq % 65536;
  res_pole = pole.pos_act;
  vel_pole = pole.freq % 65536;
  cw_arm = codes (if not (arm.cw_limit == 0) then "ACW_LIM;" else "ACW_RUN;");
  ccw_arm = codes (if not (arm.ccw_limit == 0) then "ACC_LIM;" else "ACC_RUN;");
  cw_pole = codes (if not (pole.cw_limit == 0) then "PCW_LIM;" else "PCW_RUN;");
  ccw_pole = codes (if not (pole.ccw_limit == 0) then "PCC_LIM;" else "PCC_RUN;");
  up = codes (if lift.up_limit then "LUP_LIM;" else "LUP_RUN;");
  down = codes (if lift.down_limit then "LDW_LIM;" else "LDW_RUN;");
  stall = codes (if arm.stalled || pole.stalled then "STL_ALM;" else "STL_RUN;");
  status = status_of st;
}

read_reply-shown_text :
    (pole arm : MotPap) (lift : Lift) (st : ℕ) (rest : List ℕ)
    → read_reply (shown_text pole arm lift st ++ rest) ≡ reading_of pole arm lift st
unfolding read_reply shown_text
read_reply-shown_text pole arm lift st rest = simp (
  append_assoc,
  word-decimal,
  value-decimal,
  word-shown (not (arm.cw_limit == 0)) "ACW_LIM;" "ACW_RUN;" (omega arith) (omega arith),
  word-shown (not (arm.ccw_limit == 0)) "ACC_LIM;" "ACC_RUN;" (omega arith) (omega arith),
  word-shown (not (pole.cw_limit == 0)) "PCW_LIM;" "PCW_RUN;" (omega arith) (omega arith),
  word-shown (not (pole.ccw_limit == 0)) "PCC_LIM;" "PCC_RUN;" (omega arith) (omega arith),
  word-shown lift.up_limit "LUP_LIM;" "LUP_RUN;" (omega arith) (omega arith),
  word-shown lift.down_limit "LDW_LIM;" "LDW_RUN;" (omega arith) (omega arith),
  word-shown (arm.stalled || pole.stalled) "STL_ALM;" "STL_RUN;" (omega arith) (omega arith),
)

-- For devices whose position is a uint16_t, the buffer of a reply reads back, word by word, to the
-- positions, the frequencies modulo 2 ^ 16, the texts of the limits and the alarm, and the status.
pub read_reply-net_values :
    (pole arm : MotPap) (lift : Lift) (st : ℕ) (r : RtuData)
    → IsMotPap pole
    → IsMotPap arm
    → IsRtuData r
    → read_reply (net_values_to_send_from_rtu pole arm lift st r).buffer
      ≡ reading_of pole arm lift st
read_reply-net_values pole arm lift st r hp ha valid =
    rw ((net_values_fit pole arm lift st r hp ha valid).2)
      (read_reply-shown_text pole arm lift st _)
