-- ===== src/Session/Keeps.antt =====
-- Predicates of the trace that serving a connection keeps: those that a message, allocated and posted,
-- and the calls of the network keep.
use rtu_com.Common.{List, [], ◌∷◌, Bool, true, false, Bool-cases, inl, inr, length, ◌==◌, ℕ}
use rtu_com.Motion.{MotPapMsg, LiftMsg}
use rtu_com.Hmi.{HmiCmd}
use rtu_com.Kernel.{
  Memory, plenty, Trace, M, pure, ◌>>=◌, ◌>>◌, call, malloc_mot_pap_msg, malloc_lift_msg, send_arm,
  send_pole, send_lift, netconn_write, netbuf_delete,
}
use rtu_com.Kernel.Ensures.{Ensures, Ensures-bind}
use rtu_com.Frame.{net_values_received_from_hmi}
use rtu_com.Frame.Layout.{hmi_data_of}
use rtu_com.Trigger.{
  Locals, conditions, trigger_arm, trigger_pole, trigger_lift, task_trigger_msg, flag_byte,
}
use rtu_com.Session.{
  Chunk, bytes, no_data, NetBuf, Session, reply, answer, round, rounds, has_failed, receive,
  prv_emergency_stop,
}

pub record IsClosed (P : Trace → Type 0) : Type 0 where
  pub arm : (m : MotPapMsg) (t : Trace) → P t → P (send_arm m ∷ malloc_mot_pap_msg ∷ t)
  pub pole : (m : MotPapMsg) (t : Trace) → P t → P (send_pole m ∷ malloc_mot_pap_msg ∷ t)
  pub lift : (m : LiftMsg) (t : Trace) → P t → P (send_lift m ∷ malloc_lift_msg ∷ t)
  pub write : (buffer : List ℕ) (t : Trace) → P t → P (netconn_write buffer ∷ t)
  pub delete : (t : Trace) → P t → P (netbuf_delete ∷ t)

-- A run that returns and keeps `P`.
abbrev pub Keeps {ℓ} : {A : Type ℓ} → (Trace → Type 0) → M A → Type 0
Keeps P m = (t : Trace) → P t → Ensures (λ _ t'. P t') (m t)

pub Keeps-bind {ℓ κ} :
    {A : Type ℓ} {B : Type κ} {P : Trace → Type 0} (m : M A) (f : A → M B)
    → Keeps P m
    → ((a : A) → Keeps P (f a))
    → Keeps P (m >>= f)
Keeps-bind {P} m f hm hf t h =
    Ensures-bind (λ _ t'. P t') (λ _ t'. P t') m f t (hm t h) (λ a t' h'. hf a t' h')

leave_or :
    {P : Trace → Type 0} (left : Bool) (s : Session) (more : M Session)
    → Keeps P more
    → Keeps P (elim left as (λ _. M Session) [ true ↦ pure s | false ↦ more ])
leave_or true s more h t p = p
leave_or false s more h t p = h t p

module _ (mem : Memory) (P : Trace → Type 0) (closed : IsClosed P) where
  trigger_arm-Keeps : (l : Locals) (cmd : HmiCmd) → Keeps P (trigger_arm (plenty mem) l cmd)
  unfolding trigger_arm
  trigger_arm-Keeps l cmd t h = elim (Bool-cases l.send_to_arm) [
    | inl e ↦ rw e (closed.arm _ t h)
    | inr e ↦ rw e h
  ]

  trigger_pole-Keeps : (l : Locals) (cmd : HmiCmd) → Keeps P (trigger_pole (plenty mem) l cmd)
  unfolding trigger_pole
  trigger_pole-Keeps l cmd t h = elim (Bool-cases l.send_to_pole) [
    | inl e ↦ rw e (closed.pole _ t h)
    | inr e ↦ rw e h
  ]

  trigger_lift-Keeps : (l : Locals) → Keeps P (trigger_lift (plenty mem) l)
  unfolding trigger_lift
  trigger_lift-Keeps l t h = elim (Bool-cases l.send_to_lift) [
    | inl e ↦ rw e (closed.lift _ t h)
    | inr e ↦ rw e h
  ]

  task_trigger_msg-Keeps :
      (previous : ℕ) (cmd : HmiCmd) → Keeps P (task_trigger_msg (plenty mem) previous cmd)
  unfolding task_trigger_msg
  task_trigger_msg-Keeps previous cmd =
      let l = conditions previous cmd in
      let flags = flag_byte cmd.mode cmd.ctrl_en in
      let lift_part = trigger_lift (plenty mem) l >> pure flags in
      Keeps-bind (trigger_arm (plenty mem) l cmd)
        (λ _. trigger_pole (plenty mem) l cmd >> lift_part) (trigger_arm-Keeps l cmd)
        (λ _.
          Keeps-bind (trigger_pole (plenty mem) l cmd) (λ _. lift_part) (trigger_pole-Keeps l cmd)
            (λ _.
              Keeps-bind (trigger_lift (plenty mem) l) (λ _. pure flags) (trigger_lift-Keeps l)
                (λ _ t h. h)))

  reply-Keeps : (s : Session) (previous : ℕ) → Keeps P (reply (plenty mem) s previous)
  unfolding reply
  reply-Keeps s previous t h = closed.write _ t h

  answer-Keeps : (s : Session) → Keeps P (answer (plenty mem) s)
  unfolding answer
  answer-Keeps s =
      Keeps-bind (task_trigger_msg (plenty mem) s.previous_flag_byte s.hmi_cmd)
        (reply (plenty mem) s) (task_trigger_msg-Keeps s.previous_flag_byte s.hmi_cmd)
        (reply-Keeps s)

  round-Keeps : (c : Chunk) (s : Session) → Keeps P (round (plenty mem) c s)
  unfolding round
  round-Keeps (no_data err) s t h = h
  round-Keeps (bytes frame) s t h =
      let r = net_values_received_from_hmi (hmi_data_of frame) s.hmi_cmd (length frame) in
      elim (Bool-cases (r.0 == 0)) [ inl e ↦ rw e (answer-Keeps _ t h) | inr e ↦ rw e h ]

  rounds-Keeps : (c : Chunk) (cs : List Chunk) (s : Session) → Keeps P (rounds (plenty mem) c cs s)
  unfolding rounds
  rounds-Keeps c [] s =
      Keeps-bind (round (plenty mem) c s) (λ r. pure r.0) (round-Keeps c s) (λ r t h. h)
  rounds-Keeps c (c' ∷ cs) s =
      Keeps-bind (round (plenty mem) c s)
        (λ r. elim r.1 [ true ↦ pure r.0 | false ↦ rounds (plenty mem) c' cs r.0 ])
        (round-Keeps c s)
        (λ r. leave_or r.1 r.0 (rounds (plenty mem) c' cs r.0) (rounds-Keeps c' cs r.0))

  pub receive-Keeps : (bs : List NetBuf) (s : Session) → Keeps P (receive (plenty mem) bs s)
  unfolding receive
  receive-Keeps [] s = λ t h. h
  receive-Keeps (b ∷ bs) s =
      let rest = λ (s₁ : Session). elim (has_failed s₁.i_server_status) as (λ _. M Session) [
        | true ↦ pure s₁
        | false ↦ receive (plenty mem) bs s₁
      ] in
      Keeps-bind (rounds (plenty mem) b.first b.others s) (λ s₁. call netbuf_delete >> rest s₁)
        (rounds-Keeps b.first b.others s)
        (λ s₁.
          Keeps-bind (call netbuf_delete) (λ _. rest s₁) (λ t h. closed.delete t h)
            (λ _.
              leave_or (has_failed s₁.i_server_status) s₁ (receive (plenty mem) bs s₁)
                (receive-Keeps bs s₁)))

  pub prv_emergency_stop-Keeps : Keeps P (prv_emergency_stop (plenty mem))
  unfolding prv_emergency_stop
  prv_emergency_stop-Keeps t h = closed.lift _ _ (closed.pole _ _ (closed.arm _ t h))
