-- ===== src/Frame/Layout.antt =====
-- The bytes of a packet read through a `HMIData_t *`: the members of the struct in order, with no
-- padding before the last one, `uint16_t` least significant byte first (Cortex-M4).
use rtu_com.Common.{
  ℕ, ◌+◌, ◌*◌, ◌/◌, ◌%◌, ◌<◌, ◌≤◌, List, [], ◌∷◌, ◌++◌, ◌≡◌, refl, arith, take, drop, get_or,
  length, All, length-append, length-take, length-drop, drop-drop, take-append-drop, take_all,
  take_append, drop_append, ap, ◌∙◌,
}
use rtu_com.Hmi.{HmiData, rcv_trama_largo, hmi_netvar_size}
use rtu_com.Frame.Encode.{IsFrame}

abbrev uint8_at : ℕ → List ℕ → ℕ
uint8_at off bytes = get_or bytes off 0

abbrev uint16_at : ℕ → List ℕ → ℕ
uint16_at off bytes = get_or bytes off 0 + 256 * get_or bytes (off + 1) 0

abbrev char_array_at : ℕ → List ℕ → List ℕ
char_array_at off bytes = take hmi_netvar_size (drop off bytes)

unfoldable pub hmi_data_of : List ℕ → HmiData
hmi_data_of bytes = record {
  pos_cmd_arm = uint16_at 0 bytes;
  pos_cmd_pole = uint16_at 2 bytes;
  vel_cmd_arm = uint8_at 4 bytes;
  vel_cmd_pole = uint8_at 5 bytes;
  mode = char_array_at 6 bytes;
  free_run_axis = char_array_at 11 bytes;
  free_run_dir = char_array_at 16 bytes;
  ctrl_en = char_array_at 21 bytes;
  stall_en = char_array_at 26 bytes;
  lift_dir = char_array_at 31 bytes;
  client_id = char_array_at 36 bytes;
}

abbrev uint16_bytes : ℕ → List ℕ
uint16_bytes n = (n % 256) ∷ (n / 256) ∷ []

-- The bytes of a struct, in the order in which it is sent.
abbrev pub wire : HmiData → List ℕ
wire d =
    uint16_bytes d.pos_cmd_arm
    ++ (uint16_bytes d.pos_cmd_pole
        ++ (d.vel_cmd_arm
            ∷ d.vel_cmd_pole
            ∷ (d.mode
                ++ (d.free_run_axis
                    ++ (d.free_run_dir
                        ++ (d.ctrl_en ++ (d.stall_en ++ (d.lift_dir ++ d.client_id))))))))

-- Read from a packet of the right length, every array has its size: no read passes the packet's end.
pub hmi_data_of-IsFrame :
    (bytes : List ℕ) → length bytes ≡ rcv_trama_largo → IsFrame (hmi_data_of bytes)
unfolding hmi_data_of
hmi_data_of-IsFrame bytes h = record {
  mode_size = array 6 (omega arith);
  axis_size = array 11 (omega arith);
  dir_size = array 16 (omega arith);
  ctrl_size = array 21 (omega arith);
  stall_size = array 26 (omega arith);
  lift_size = array 31 (omega arith);
  client_size = array 36 (omega arith);
}
  where
    array : (off : ℕ) → off + 5 ≤ 41 → length (char_array_at off bytes) ≡ 5
    array off p = length-take 5 (drop off bytes) (omega (arith, length-drop off bytes))

-- One array and what follows it.
array_next :
    (off : ℕ) (bytes : List ℕ) → take 5 (drop off bytes) ++ drop (off + 5) bytes ≡ drop off bytes
array_next off bytes = rw (← drop-drop off 5 bytes) (take-append-drop 5 (drop off bytes))

-- The seven arrays make up the rest of the packet.
arrays :
    (rest : List ℕ)
    → length rest ≡ 35
    → take 5 rest
        ++ (take 5 (drop 5 rest)
            ++ (take 5 (drop 10 rest)
                ++ (take 5 (drop 15 rest)
                    ++ (take 5 (drop 20 rest)
                        ++ (take 5 (drop 25 rest) ++ take 5 (drop 30 rest))))))
      ≡ rest
arrays rest h =
    rw
      (
        take_all 5 (drop 30 rest) (omega (arith, length-drop 30 rest)),
        array_next 25 rest,
        array_next 20 rest,
        array_next 15 rest,
        array_next 10 rest,
        array_next 5 rest,
      )
      (array_next 0 rest)

abbrev pub AreBytes : List ℕ → Type 0
AreBytes = All (λ b. b < 256)

uint16_bytes_of :
    (a b : ℕ) → a < 256 → b < 256 → ((a + 256 * b) % 256 ≡ a) × ((a + 256 * b) / 256 ≡ b)
uint16_bytes_of a b h k = omega arith

-- A packet of the right length is the bytes of the struct that is read from it.
pub wire-hmi_data_of :
    (bytes : List ℕ)
    → length bytes ≡ rcv_trama_largo
    → AreBytes bytes
    → wire (hmi_data_of bytes) ≡ bytes
unfolding hmi_data_of
wire-hmi_data_of (a ∷ b ∷ c ∷ d ∷ e ∷ f ∷ rest) h (a_lt, (b_lt, (c_lt, (d_lt, _)))) =
    let (a_eq, b_eq) = uint16_bytes_of a b a_lt b_lt in
    let (c_eq, d_eq) = uint16_bytes_of c d c_lt d_lt in
    λ i. a_eq i ∷ b_eq i ∷ c_eq i ∷ d_eq i ∷ e ∷ f ∷ arrays rest (omega arith) i
wire-hmi_data_of _ h lt = absurd (omega arith)

-- The packet of a struct whose arrays have their sizes has the length of the struct.
pub length-wire : (d : HmiData) → IsFrame d → length (wire d) ≡ rcv_trama_largo
length-wire d f = omega (arith, length-append {0})

-- An array at an offset, and what stands behind it.
array_read :
    (off : ℕ) (bytes xs ys : List ℕ)
    → drop off bytes ≡ xs ++ ys
    → length xs ≡ 5
    → (take 5 (drop off bytes) ≡ xs) × (drop (off + 5) bytes ≡ ys)
array_read off bytes xs ys e h =
    (rw e (take_append 5 xs ys h), rw (← drop-drop off 5 bytes, e) (drop_append 5 xs ys h))

-- The struct that is read from the packet of a struct is that struct.
pub hmi_data_of-wire : (d : HmiData) → IsFrame d → hmi_data_of (wire d) ≡ d
unfolding hmi_data_of
hmi_data_of-wire d f =
    let rest₆ = d.lift_dir ++ d.client_id in
    let rest₅ = d.stall_en ++ rest₆ in
    let rest₄ = d.ctrl_en ++ rest₅ in
    let rest₃ = d.free_run_dir ++ rest₄ in
    let rest₂ = d.free_run_axis ++ rest₃ in
    let rest₁ = d.mode ++ rest₂ in
    let (mode, next₁) = array_read 0 rest₁ d.mode rest₂ refl f.mode_size in
    let (axis, next₂) = array_read 5 rest₁ d.free_run_axis rest₃ next₁ f.axis_size in
    let (dir, next₃) = array_read 10 rest₁ d.free_run_dir rest₄ next₂ f.dir_size in
    let (ctrl, next₄) = array_read 15 rest₁ d.ctrl_en rest₅ next₃ f.ctrl_size in
    let (stall, next₅) = array_read 20 rest₁ d.stall_en rest₆ next₄ f.stall_size in
    let (lift, next₆) = array_read 25 rest₁ d.lift_dir d.client_id next₅ f.lift_size in
    let arm : d.pos_cmd_arm % 256 + 256 * (d.pos_cmd_arm / 256) ≡ d.pos_cmd_arm = omega arith in
    let pole : d.pos_cmd_pole % 256 + 256 * (d.pos_cmd_pole / 256) ≡ d.pos_cmd_pole = omega arith in
    λ i. record {
      pos_cmd_arm = arm i;
      pos_cmd_pole = pole i;
      vel_cmd_arm = d.vel_cmd_arm;
      vel_cmd_pole = d.vel_cmd_pole;
      mode = mode i;
      free_run_axis = axis i;
      free_run_dir = dir i;
      ctrl_en = ctrl i;
      stall_en = stall i;
      lift_dir = lift i;
      client_id = (ap (take 5) next₆ ∙ take_all 5 d.client_id (omega arith)) i;
    }
