-- ===== src/Session/Status.antt =====
-- The identifiers that `iServerStatus` takes in a session, and the test that ends it.
use rtu_com.Common.{
  ℕ, zero, suc, ◌+◌, ◌-◌, List, [], ◌∷◌, ◌≡◌, refl, ◌⊎◌, inl, inr, ◌≤◌, ◌==◌, Bool, true, false,
  arith, Bool-cases, length,
}
use rtu_com.Hmi.{error_trama_vacia, error_netconn}
use rtu_com.Kernel.{Memory, plenty, Trace, M, pure, ◌>>◌, call, netbuf_delete}
use rtu_com.Kernel.Ensures.{Ensures, Ensures-bind, Ensures-weaken}
use rtu_com.Frame.{net_values_received_from_hmi}
use rtu_com.Frame.Layout.{hmi_data_of}
use rtu_com.Frame.Accepts.{received_bounds}
use rtu_com.Trigger.{bit_status, task_trigger_msg}
use rtu_com.Trigger.Sequence.{task_trigger_msg-done}
use rtu_com.Session.{
  Chunk, bytes, no_data, NetBuf, Session, Round, send_values, reply, answer, round, rounds, receive,
  has_failed,
}

-- ERR_OK or one of the five identifiers.
abbrev pub IsStatus : ℕ → Type 0
IsStatus st = (st ≡ 0) ⊎ ((error_trama_vacia ≤ st) × (st ≤ error_netconn))

abbrev HasStatus : Session → Trace → Type 0
HasStatus s t = IsStatus s.i_server_status

abbrev RoundStatus : Round → Trace → Type 0
RoundStatus r t = IsStatus r.0.i_server_status

failed_bit : (k : ℕ) → k ≤ 4 → has_failed (129 + k) ≡ bit_status (129 + k) 7
failed_bit zero h = refl
failed_bit (suc zero) h = refl
failed_bit (suc (suc zero)) h = refl
failed_bit (suc (suc (suc zero))) h = refl
failed_bit (suc (suc (suc (suc zero)))) h = refl
failed_bit (suc (suc (suc (suc (suc k))))) h = absurd (omega arith)

-- The test of the source, which is logical where its operand is a mask, finds the same sessions as the
-- test of bit 7.
has_failed-bit_status : (st : ℕ) → IsStatus st → has_failed st ≡ bit_status st 7
has_failed-bit_status st (inl e) = rw e
has_failed-bit_status st (inr h) =
    let e : st ≡ 129 + (st - 129) = omega arith in rw e (failed_bit (st - 129) (omega arith))

module _ (mem : Memory) where
  reply_status :
      (s : Session) (previous : ℕ) (t : Trace)
      → s.i_server_status ≡ 0
      → Ensures RoundStatus (reply (plenty mem) s previous t)
  unfolding reply send_values
  reply_status s previous t h = ground arith

  answer_status :
      (s : Session) (t : Trace)
      → s.i_server_status ≡ 0
      → Ensures RoundStatus (answer (plenty mem) s t)
  unfolding answer
  answer_status s t h =
      Ensures-bind (λ p t'. Unit {0}) RoundStatus
        (task_trigger_msg (plenty mem) s.previous_flag_byte s.hmi_cmd) (reply (plenty mem) s) t
        (rw (task_trigger_msg-done mem s.previous_flag_byte s.hmi_cmd t) tt)
        (λ p t' _. reply_status s p t' h)

  round_status :
      (c : Chunk) (s : Session) (t : Trace) → Ensures RoundStatus (round (plenty mem) c s t)
  unfolding round
  round_status (no_data err) s t = inr (omega arith)
  round_status (bytes frame) s t =
      let r = net_values_received_from_hmi (hmi_data_of frame) s.hmi_cmd (length frame) in
      elim (Bool-cases (r.0 == 0)) [
        | inl e ↦ rw e (answer_status _ t (ground arith))
        | inr e ↦ rw e (elim (received_bounds (hmi_data_of frame) s.hmi_cmd (length frame)) [
          | inl f ↦ inl f
          | inr f ↦ inr (f.0, omega arith)
        ])
      ]

  pub rounds_status :
      (c : Chunk) (cs : List Chunk) (s : Session) (t : Trace)
      → Ensures HasStatus (rounds (plenty mem) c cs s t)
  unfolding rounds
  rounds_status c [] s t =
      Ensures-bind RoundStatus HasStatus (round (plenty mem) c s) (λ r. pure r.0) t
        (round_status c s t) (λ r t' h. h)
  rounds_status c (c' ∷ cs) s t =
      Ensures-bind RoundStatus HasStatus (round (plenty mem) c s)
        (λ r. elim r.1 [ true ↦ pure r.0 | false ↦ rounds (plenty mem) c' cs r.0 ]) t
        (round_status c s t) (λ r t' h. next r.1 r.0 t' h (rounds_status c' cs))
    where
      next :
          (left : Bool) (s' : Session) (t' : Trace)
          → IsStatus s'.i_server_status
          → ((s₁ : Session) (t₁ : Trace) → Ensures HasStatus (rounds (plenty mem) c' cs s₁ t₁))
          → Ensures HasStatus (
              (elim left as (λ _. M Session) [
                | true ↦ pure s'
                | false ↦ rounds (plenty mem) c' cs s'
              ])
                t')
      next true s' t' h ih = h
      next false s' t' h ih = ih s' t'

  pub receive_status :
      (bs : List NetBuf) (s : Session) (t : Trace)
      → IsStatus s.i_server_status
      → Ensures HasStatus (receive (plenty mem) bs s t)
  unfolding receive
  receive_status [] s t h = h
  receive_status (b ∷ bs) s t h =
      Ensures-bind HasStatus HasStatus (rounds (plenty mem) b.first b.others s)
        (λ s₁. call netbuf_delete >> elim (has_failed s₁.i_server_status) [
          | true ↦ pure s₁
          | false ↦ receive (plenty mem) bs s₁
        ])
        t (rounds_status b.first b.others s t)
        (λ s₁ t' h₁.
          next (has_failed s₁.i_server_status) s₁ (netbuf_delete ∷ t') h₁ (receive_status bs))
    where
      next :
          (failed : Bool) (s' : Session) (t' : Trace)
          → IsStatus s'.i_server_status
          → ((s₁ : Session) (t₁ : Trace)
              → IsStatus s₁.i_server_status
              → Ensures HasStatus (receive (plenty mem) bs s₁ t₁))
          → Ensures HasStatus (
              (elim failed as (λ _. M Session) [
                | true ↦ pure s'
                | false ↦ receive (plenty mem) bs s'
              ])
                t')
      next true s' t' h₁ ih = h₁
      next false s' t' h₁ ih = ih s' t' h₁

-- After the pieces of a buffer, whatever they hold, the status is ERR_OK or one of the identifiers,
-- and the test that ends the session, `iServerStatus && 0x80`, agrees with the test of bit 7.
pub rounds_failed :
    (mem : Memory) (c : Chunk) (cs : List Chunk) (s : Session) (t : Trace)
    → Ensures
        (λ s' t'.
          IsStatus s'.i_server_status
          × (has_failed s'.i_server_status ≡ bit_status s'.i_server_status 7))
        (rounds (plenty mem) c cs s t)
rounds_failed mem c cs s t =
    Ensures-weaken HasStatus _ (rounds (plenty mem) c cs s t) (rounds_status mem c cs s t)
      (λ s' t' h. (h, has_failed-bit_status s'.i_server_status h))
