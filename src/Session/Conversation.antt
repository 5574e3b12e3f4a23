-- ===== src/Session/Conversation.antt =====
-- A whole connection on which an operator sends one command after the other, a packet to a buffer.
use rtu_com.Common.{List, [], ◌∷◌, ◌≡◌, refl, ap, ◌∙◌, map, Option, none, some, true, false}
use rtu_com.Motion.{MotPapType, MotPapMsg, LiftType, LiftMsg}
use rtu_com.Hmi.{HmiCmd, Mode, Enable}
use rtu_com.Kernel.{
  Memory, plenty, Trace, ErrT, M, pure, send_arm, send_pole, malloc_mot_pap_msg, ◌>>◌, call,
  arm_posts, pole_posts, lift_posts, netbuf_delete, netconn_close, netconn_delete,
}
use rtu_com.Kernel.Ensures.{Ensures, Ensures-bind}
use rtu_com.Frame.Encode.{encode, IsCommand}
use rtu_com.Frame.Layout.{wire}
use rtu_com.Trigger.{flag_byte}
use rtu_com.Trigger.Orders.{
  Orders, IsDirect, orders, order_calls, arm_calls, pole_calls, lift_calls,
}
use rtu_com.Device.{arm_init, pole_init, lift_init}
use rtu_com.Report.Fits.{IsRtuData}
use rtu_com.Session.{
  NetBuf, bytes, Session, Connection, round, rounds, has_failed, receive, prv_emergency_stop,
  start_session, serve,
}
use rtu_com.Session.Commands.{Replied, round_command}

-- The buffer of a command: one packet.
abbrev pub buffer_of : HmiCmd → NetBuf
buffer_of c = record { first = bytes (wire (encode c)); others = [] }

-- Commands that an operator may give one after the other, from a mode on: each changes the mode directly.
abbrev pub IsConversation : Mode → List HmiCmd → Type 0
IsConversation before [] = Unit
IsConversation before (c ∷ cs) = IsDirect before c.mode × (IsCommand c × IsConversation c.mode cs)

-- The calls that carry out what the commands order, from a mode and a control flag on.
abbrev pub ordered : Mode → Enable → List HmiCmd → Trace → Trace
ordered before was [] t = t
ordered before was (c ∷ cs) t =
    ordered c.mode c.ctrl_en cs
      (order_calls c (orders before was c.mode c.ctrl_en c.free_run_axis c.lift_dir) t)

-- Two traces with the same messages on each queue.
pub record SamePosts (t u : Trace) : Type 0 where
  pub arm : arm_posts t ≡ arm_posts u
  pub pole : pole_posts t ≡ pole_posts u
  pub lift : lift_posts t ≡ lift_posts u

module _ {t u : Trace} (same : SamePosts t u) where
  arm_calls-SamePosts :
      (c : HmiCmd) (o : Option MotPapType) → SamePosts (arm_calls c o t) (arm_calls c o u)
  arm_calls-SamePosts c none = same
  arm_calls-SamePosts c (some type) = record {
    arm = rw same.arm refl;
    pole = same.pole;
    lift = same.lift;
  }

  pole_calls-SamePosts :
      (c : HmiCmd) (o : Option MotPapType) → SamePosts (pole_calls c o t) (pole_calls c o u)
  pole_calls-SamePosts c none = same
  pole_calls-SamePosts c (some type) = record {
    arm = same.arm;
    pole = rw same.pole refl;
    lift = same.lift;
  }

  lift_calls-SamePosts : (o : Option LiftType) → SamePosts (lift_calls o t) (lift_calls o u)
  lift_calls-SamePosts none = same
  lift_calls-SamePosts (some type) = record {
    arm = same.arm;
    pole = same.pole;
    lift = rw same.lift refl;
  }

order_calls-SamePosts :
    {t u : Trace} (c : HmiCmd) (o : Orders)
    → SamePosts t u
    → SamePosts (order_calls c o t) (order_calls c o u)
order_calls-SamePosts c o same =
    lift_calls-SamePosts (pole_calls-SamePosts (arm_calls-SamePosts same c o.arm) c o.pole) o.lift

-- What a command leaves for the next one.
record Served (c : HmiCmd) (u : Trace) (s : Session) (t : Trace) : Type 0 where
  flags : s.previous_flag_byte ≡ flag_byte c.mode c.ctrl_en
  tx : IsRtuData s.rtu_data_tx
  status : s.i_server_status ≡ 0
  posts : SamePosts t u

module _ (mem : Memory) (writes : (t : Trace) → mem.write_result t ≡ ErrT.err_ok) where
  rounds-Served :
      (c : HmiCmd) (before : Mode) (was : Enable) (s : Session) {t u : Trace}
      → IsDirect before c.mode
      → IsCommand c
      → s.previous_flag_byte ≡ flag_byte before was
      → IsRtuData s.rtu_data_tx
      → SamePosts t u
      → Ensures
          (Served c
            (order_calls c (orders before was c.mode c.ctrl_en c.free_run_axis c.lift_dir) u))
          (rounds (plenty mem) (bytes (wire (encode c))) [] s t)
  unfolding rounds
  rounds-Served c before was s {t} {u} direct valid flags tx same =
      let o = orders before was c.mode c.ctrl_en c.free_run_axis c.lift_dir in
      Ensures-bind (Replied mem s (flag_byte c.mode c.ctrl_en) (order_calls c o t))
        (Served c (order_calls c o u)) (round (plenty mem) (bytes (wire (encode c))) s)
        (λ r. pure r.0) t (round_command mem c before was s t valid direct flags tx)
        (λ r t' h.
          let posts = order_calls-SamePosts c o same in
          record {
            flags = h.flags;
            tx = h.tx;
            status = h.status ∙ rw (writes (order_calls c o t)) refl;
            posts = record {
              arm = ap arm_posts h.calls ∙ posts.arm;
              pole = ap pole_posts h.calls ∙ posts.pole;
              lift = ap lift_posts h.calls ∙ posts.lift;
            };
          })

  receive-SamePosts :
      (cs : List HmiCmd) (before : Mode) (was : Enable) (s : Session) {t u : Trace}
      → IsConversation before cs
      → s.previous_flag_byte ≡ flag_byte before was
      → IsRtuData s.rtu_data_tx
      → SamePosts t u
      → Ensures
          (λ _ t'. SamePosts t' (ordered before was cs u))
          (receive (plenty mem) (map buffer_of cs) s t)
  unfolding receive
  receive-SamePosts [] before was s ok flags tx same = same
  receive-SamePosts (c ∷ cs) before was s {t} {u} (direct, (valid, more)) flags tx same =
      let o = orders before was c.mode c.ctrl_en c.free_run_axis c.lift_dir in
      Ensures-bind (Served c (order_calls c o u))
        (λ _ t'. SamePosts t' (ordered before was (c ∷ cs) u))
        (rounds (plenty mem) (bytes (wire (encode c))) [] s)
        (λ s₁. call netbuf_delete >> elim (has_failed s₁.i_server_status) as (λ _. M Session) [
          | true ↦ pure s₁
          | false ↦ receive (plenty mem) (map buffer_of cs) s₁
        ])
        t (rounds-Served c before was s direct valid flags tx same)
        (λ s₁ t₁ h. rw (h.status) (
          receive-SamePosts cs c.mode c.ctrl_en s₁ more h.flags h.tx
            (record { arm = h.posts.arm; pole = h.posts.pole; lift = h.posts.lift })))

-- The messages of a trace, and behind them a stop for each device.
pub record AreStopped (u t : Trace) : Type 0 where
  pub arm : (m : MotPapMsg) × ((m.type ≡ MotPapType.stop) × (arm_posts t ≡ m ∷ arm_posts u))
  pub pole : (m : MotPapMsg) × ((m.type ≡ MotPapType.stop) × (pole_posts t ≡ m ∷ pole_posts u))
  pub lift : (m : LiftMsg) × ((m.type ≡ LiftType.stop) × (lift_posts t ≡ m ∷ lift_posts u))

stop-AreStopped :
    (mem : Memory) (s : Session) (t : Trace) {u : Trace}
    → SamePosts t u
    → Ensures
        (λ _ t'. AreStopped u t')
        ((prv_emergency_stop (plenty mem)
            >> (call netconn_close >> (call netconn_delete >> pure s)))
          t)
unfolding prv_emergency_stop
stop-AreStopped mem s t same =
    let arm = record (mem.mot_pap_contents t) { type = MotPapType.stop } in
    let t₁ = send_arm arm ∷ malloc_mot_pap_msg ∷ t in
    let pole = record (mem.mot_pap_contents t₁) { type = MotPapType.stop } in
    let t₂ = send_pole pole ∷ malloc_mot_pap_msg ∷ t₁ in
    let lift = record (mem.lift_contents t₂) { type = LiftType.stop } in
    record {
      arm = (arm, (refl, rw same.arm refl));
      pole = (pole, (refl, rw same.pole refl));
      lift = (lift, (refl, rw same.lift refl));
    }

-- An operator connects, sends one valid command after the other, each with a direct change of mode,
-- and goes. Where the heap is not exhausted and the replies can be written, serving the connection
-- returns, and it has posted on each queue exactly the messages that carry out the orders of those
-- commands, in their order and with the commands' data, from the flag byte on that the connection
-- before had left, and then one stop.
pub serve-ordered :
    (mem : Memory) (conn : Connection) (cs : List HmiCmd) (before : Mode) (was : Enable)
    (s : Session) (t : Trace)
    → ((u : Trace) → mem.write_result u ≡ ErrT.err_ok)
    → conn.buffers ≡ map buffer_of cs
    → IsConversation before cs
    → s.previous_flag_byte ≡ flag_byte before was
    → IsRtuData conn.tx_memory
    → Ensures (λ _ t'. AreStopped (ordered before was cs t) t') (serve (plenty mem) conn s t)
unfolding serve arm_init pole_init lift_init
serve-ordered mem conn cs before was s t writes sent ok flags tx = rw sent (
    Ensures-bind (λ _ t'. SamePosts t' (ordered before was cs t))
      (λ _ t'. AreStopped (ordered before was cs t) t')
      (receive (plenty mem) (map buffer_of cs) (start_session conn s))
      (λ s₁.
        prv_emergency_stop (plenty mem) >> (call netconn_close >> (call netconn_delete >> pure s₁)))
      _
      (receive-SamePosts mem writes cs before was (start_session conn s) ok flags tx
        (record { arm = refl; pole = refl; lift = refl }))
      (λ s₁ t₁ same. stop-AreStopped mem s₁ t₁ same))
