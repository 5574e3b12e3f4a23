-- ===== src/Kernel.antt =====
-- The calls of FreeRTOS that the firmware's threads make, and what they answer. FreeRTOS itself is a
-- parameter: an `Env` says what `pvPortMalloc` returns at each point of a run. A call that only acts
-- is recorded in the trace of the run, the last call first.
pub mod Ensures
use rtu_com.Common.{ℕ, List, [], ◌∷◌, Option, none, some, ◌≡◌}
use rtu_com.Motion.{MotPapMsg, LiftMsg}

pub data DeviceName : Type 0 where
  arm pole lift : DeviceName

-- `err_t` of lwIP, as far as the code tells its values apart.
pub data ErrT : Type 0 where
  err_ok err_timeout err_arg err_conn err_clsd err_buf err_other : ErrT

-- A message is posted by its pointer, and nothing writes to it afterwards, so the call shows its
-- contents. The answer of `xQueueSend` is only logged; with `portMAX_DELAY` it comes when the queue
-- has taken the pointer.
pub data Call : Type 0 where
  malloc_mot_pap_msg : Call
  malloc_lift_msg : Call
  send_arm : MotPapMsg → Call
  send_pole : MotPapMsg → Call
  send_lift : LiftMsg → Call
  queue_create : DeviceName → Call
  task_create : DeviceName → Call
  netconn_write : List ℕ → Call
  netbuf_delete : Call
  netconn_close : Call
  netconn_delete : Call

abbrev pub Trace : Type 0
Trace = List Call

-- What `pvPortMalloc` returns after the calls so far, NULL or a block with what it holds, and what
-- `netconn_write` returns.
pub record Env : Type 0 where
  pub mot_pap_block : Trace → Option MotPapMsg
  pub lift_block : Trace → Option LiftMsg
  pub write_err : Trace → ErrT

-- A heap that is never exhausted: blocks of any contents.
pub record Memory : Type 0 where
  pub mot_pap_contents : Trace → MotPapMsg
  pub lift_contents : Trace → LiftMsg
  pub write_result : Trace → ErrT

abbrev pub plenty : Memory → Env
plenty m = record {
  mot_pap_block = λ t. some (m.mot_pap_contents t);
  lift_block = λ t. some (m.lift_contents t);
  write_err = m.write_result;
}

-- `fault` is a write through a null pointer.
pub data Out {ℓ} (A : Type ℓ) : Type ℓ where
  done : A → Trace → Out A
  fault : Trace → Out A

abbrev pub M {ℓ} : Type ℓ → Type ℓ
M A = Trace → Out A

abbrev pub pure {ℓ} : {A : Type ℓ} → A → M A
pure a t = done a t

infixl 5 ◌>>=◌ ◌>>◌
abbrev pub ◌>>=◌ {ℓ κ} : {A : Type ℓ} {B : Type κ} → M A → (A → M B) → M B
◌>>=◌ m f t = elim (m t) [ done a t' ↦ f a t' | fault t' ↦ fault t' ]

abbrev pub ◌>>◌ {ℓ} : {B : Type ℓ} → M (Unit {0}) → M B → M B
m >> k = m >>= λ _. k

abbrev pub call : Call → M (Unit {0})
call c t = done tt (c ∷ t)

abbrev deref {ℓ} : {A : Type ℓ} → Option A → M A
deref none t = fault t
deref (some a) t = done a t

-- `p = pvPortMalloc(sizeof *p)` and the first write through `p`.
abbrev pub malloc_mot_pap : Env → M MotPapMsg
malloc_mot_pap env t = deref (env.mot_pap_block t) (malloc_mot_pap_msg ∷ t)

abbrev pub malloc_lift : Env → M LiftMsg
malloc_lift env t = deref (env.lift_block t) (malloc_lift_msg ∷ t)

pub >>=-done {ℓ κ} :
    {A : Type ℓ} {B : Type κ} (m : M A) (f : A → M B) (t : Trace) {a : A} {t' : Trace} {r : Out B}
    → m t ≡ done a t'
    → f a t' ≡ r
    → (m >>= f) t ≡ r
>>=-done m f t e h = rw (e, ◌>>=◌) h

-- Where a run stands when it returns or faults.
abbrev pub trace_of {ℓ} : {A : Type ℓ} → Out A → Trace
trace_of (done a t) = t
trace_of (fault t) = t

-- What a run has posted on each queue, the last message first.
abbrev pub arm_posts : Trace → List MotPapMsg
arm_posts [] = []
arm_posts (send_arm m ∷ t) = m ∷ arm_posts t
arm_posts (_ ∷ t) = arm_posts t

abbrev pub pole_posts : Trace → List MotPapMsg
pole_posts [] = []
pole_posts (send_pole m ∷ t) = m ∷ pole_posts t
pole_posts (_ ∷ t) = pole_posts t

abbrev pub lift_posts : Trace → List LiftMsg
lift_posts [] = []
lift_posts (send_lift m ∷ t) = m ∷ lift_posts t
lift_posts (_ ∷ t) = lift_posts t
