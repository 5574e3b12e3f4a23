-- ===== src/Session.antt =====
-- com/src/rtu_com_hmi.c: `tcp_thread`, which serves one HMI after the other, and `prvEmergencyStop`.
-- What arrives from the network is given: for each call of `netconn_accept` its outcome, and for a
-- connection the buffers that `netconn_recv` returns and the error that ends them.
pub mod Keeps
pub mod Stops
pub mod Status
pub mod Commands
pub mod Creates
pub mod Pole
pub mod Errors
pub mod Conversation
use rtu_com.Common.{
  ℕ, ◌+◌, ◌%◌, ◌^◌, List, [], ◌∷◌, Bool, true, false, not, ◌&&◌, ◌==◌, if◌then◌else◌, length,
  Option, none, some,
}
use rtu_com.Motion.{MotPapType, MotPap, LiftType, Lift}
use rtu_com.Hmi.{HmiCmd, error_netconn}
use rtu_com.Kernel.{
  Env, M, ErrT, pure, ◌>>=◌, ◌>>◌, call, malloc_mot_pap, malloc_lift, send_arm, send_pole,
  send_lift, netconn_write, netbuf_delete, netconn_close, netconn_delete, done,
}
use rtu_com.Frame.{net_values_received_from_hmi}
use rtu_com.Frame.Layout.{hmi_data_of}
use rtu_com.Trigger.{task_trigger_msg}
use rtu_com.Device.{
  arm_init, pole_init, lift_init, arm_get_status, pole_get_status, lift_get_status,
}
use rtu_com.Report.{RtuData, net_values_to_send_from_rtu}

-- One piece of a received buffer, as `netbuf_data` gives it: its bytes, or an error.
pub data Chunk : Type 0 where
  bytes : List ℕ → Chunk
  no_data : ErrT → Chunk

-- A received buffer has a first piece; `netbuf_next` goes through the others.
pub record NetBuf : Type 0 where
  pub first : Chunk
  pub others : List Chunk

-- The variables of a session, with the static ones that outlive it: the flag byte of
-- `TaskTriggerMsg` and the status structs of the devices.
pub record Session : Type 0 where
  pub i_server_status : ℕ
  pub cycle_count : ℕ  -- uint32_t
  pub hmi_cmd : HmiCmd
  pub rtu_data_tx : RtuData
  pub previous_flag_byte : ℕ
  pub arm : MotPap
  pub pole : MotPap
  pub lift : Lift

-- A connection: the buffers and the last answer of `netconn_recv`, and what the memory of the two
-- local variables that are not initialised holds.
pub record Connection : Type 0 where
  pub buffers : List NetBuf
  pub last_err : ErrT
  pub cmd_memory : HmiCmd
  pub tx_memory : RtuData

-- `NetValuesToSendFromRTU` with the status functions that it calls.
unfoldable pub send_values : Session → Session
send_values s =
    let pole = pole_get_status s.pole in
    let arm = arm_get_status s.arm in
    let lift = lift_get_status s.lift in
    record s {
      pole = pole;
      arm = arm;
      lift = lift;
      rtu_data_tx = net_values_to_send_from_rtu pole arm lift s.i_server_status s.rtu_data_tx;
    }

abbrev pub is_ok : ErrT → Bool
is_ok ErrT.err_ok = true
is_ok _ = false

-- `netconn_write`: whether it returned ERR_OK.
abbrev pub write : Env → List ℕ → M Bool
write env buffer t = done (is_ok (env.write_err t)) (netconn_write buffer ∷ t)

-- The result of a round of the inner loop: the variables, and whether it left by `break`.
abbrev pub Round : Type 0
Round = Session × Bool

-- The reply to a command that has been carried out.
unfoldable pub reply : Env → Session → ℕ → M Round
reply env s previous = do
  let s₁ = send_values (record s { previous_flag_byte = previous })
  sent ← write env s₁.rtu_data_tx.buffer
  pure (if sent then (s₁, false) else (record s₁ { i_server_status = error_netconn }, true))

-- An accepted frame: the command is carried out and the reply is sent.
unfoldable pub answer : Env → Session → M Round
answer env s = do
  previous ← task_trigger_msg env s.previous_flag_byte s.hmi_cmd
  reply env s previous

-- The body of the inner loop for one piece of a buffer.
unfoldable pub round : Env → Chunk → Session → M Round
round env (no_data err) s =
    let s₁ = record s { cycle_count = (s.cycle_count + 1) % 2 ^ 32 } in
    pure (record s₁ { i_server_status = error_netconn }, true)
round env (bytes frame) s =
    let (st, cmd) = net_values_received_from_hmi (hmi_data_of frame) s.hmi_cmd (length frame) in
    let s₁ = record s {
      cycle_count = (s.cycle_count + 1) % 2 ^ 32;
      i_server_status = st;
      hmi_cmd = cmd;
    } in
    if st == 0 then answer env s₁ else pure (s₁, true)

-- `do { ... } while (netbuf_next(buf) >= 0)`
unfoldable pub rounds : Env → Chunk → List Chunk → Session → M Session
rounds env c [] s = do r ← round env c s; pure r.0
rounds env c (c' ∷ cs) s = do
  r ← round env c s
  elim r.1 [ true ↦ pure r.0 | false ↦ rounds env c' cs r.0 ]

-- `(iServerStatus && 0x80) != ERR_OK`, with the logical `&&` of the source.
abbrev pub has_failed : ℕ → Bool
has_failed st = not (st == 0) && not (0x80 == 0)

-- `while ((err_recv = netconn_recv(newconn, &buf)) == ERR_OK) { ... }`
unfoldable pub receive : Env → List NetBuf → Session → M Session
receive env [] s = pure s
receive env (b ∷ bs) s = do
  s₁ ← rounds env b.first b.others s
  call netbuf_delete
  elim (has_failed s₁.i_server_status) [ true ↦ pure s₁ | false ↦ receive env bs s₁ ]

-- Only the type of a message is written; the other fields keep what the block held.
unfoldable pub prv_emergency_stop : Env → M (Unit {0})
prv_emergency_stop env = do
  arm_msg ← malloc_mot_pap env
  call (send_arm (record arm_msg { type = MotPapType.stop }))
  pole_msg ← malloc_mot_pap env
  call (send_pole (record pole_msg { type = MotPapType.stop }))
  lift_msg ← malloc_lift env
  call (send_lift (record lift_msg { type = LiftType.stop }))

-- The variables at the start of a connection.
abbrev pub start_session : Connection → Session → Session
start_session conn s = record s {
  i_server_status = 0x00;
  cycle_count = 0;
  hmi_cmd = conn.cmd_memory;
  rtu_data_tx = conn.tx_memory;
}

-- What is done for an accepted connection.
unfoldable pub serve : Env → Connection → Session → M Session
serve env conn s = do
  arm_init
  pole_init
  lift_init
  s₁ ← receive env conn.buffers (start_session conn s)
  prv_emergency_stop env
  call netconn_close
  call netconn_delete
  pure s₁

-- The endless loop of `tcp_thread` over the outcomes of `netconn_accept`; `none` is an error, after
-- which the thread accepts again.
unfoldable pub tcp_thread : Env → List (Option Connection) → Session → M Session
tcp_thread env [] s = pure s
tcp_thread env (none ∷ cs) s = tcp_thread env cs s
tcp_thread env (some conn ∷ cs) s = do s₁ ← serve env conn s; tcp_thread env cs s₁
