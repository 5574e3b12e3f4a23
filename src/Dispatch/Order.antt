-- ===== src/Dispatch/Order.antt =====
-- The tasks of a device (com/src/arm.c, pole.c, lift.c): when one is on the queue of the handle and when
-- one is left on an older queue, and how each kind of step moves the newest task, by the phase.
use rtu_com.Common.{ℕ, suc, ◌<◌, List, [], ◌∷◌, ◌≡◌, ◌≢◌, ◌⊎◌, refl, subst, arith}
use rtu_com.Emac.Ring.{set}
use rtu_com.Dispatch.{
  Act, new_queue, new_task, post, TaskState, absent, at_loop, waiting, IsBlocked,
}
use rtu_com.Dispatch.Phases.{Phase, bare, queued, served, wrong, next_phase, IsRight}

-- The messages among some acts, and what the bodies of the tasks make of them.
abbrev pub posts : {M : Type 0} → List (Act M) → List M
posts [] = []
posts (post m ∷ more) = m ∷ posts more
posts (_ ∷ more) = posts more

abbrev pub carry_out : {M S : Type 0} → (M → S → S) → S → List M → S
carry_out body s [] = s
carry_out body s (m ∷ ms) = body m (carry_out body s ms)

-- A task that will not wake again, and one that reads the queue of the handle.
abbrev pub IsOld : ℕ → TaskState → Type 0
IsOld h absent = Unit
IsOld h at_loop = ⊥
IsOld h (waiting q) = q < h

abbrev pub IsOn : ℕ → TaskState → Type 0
IsOn h absent = ⊥
IsOn h at_loop = Unit
IsOn h (waiting q) = q ≡ h

-- The newest task, by the phase.
abbrev pub Attends : {M : Type 0} → ℕ → List M → TaskState → Phase → Type 0
Attends h queue task served = IsOn h task
Attends h queue task wrong = ⊥
Attends h queue task _ = (queue ≡ []) × IsOld h task

pub same_or : (i j : ℕ) → (i ≡ j) ⊎ (i ≢ j)
same_or i j = ground arith

-- What a write leaves at its own index.
module _ {A : Type 0} where
  pub set_at : (f : ℕ → A) (i : ℕ) (x : A) {j : ℕ} → j ≡ i → set f i x j ≡ x
  set_at f i x e = ground arith

pub IsOld-grows : (h : ℕ) (t : TaskState) → IsOld h t → IsOld (suc h) t
IsOld-grows h absent o = tt
IsOld-grows h at_loop o = absurd o
IsOld-grows h (waiting q) o = omega arith

module _ {M : Type 0} where
  pub read_phase :
      (h : ℕ) (q : List M) (ph : Phase) → Attends h q at_loop ph → Attends h q (waiting h) ph
  read_phase h q bare (e, o) = absurd o
  read_phase h q queued (e, o) = absurd o
  read_phase h q served o = refl
  read_phase h q wrong o = o

  pub take_phase :
      (h q : ℕ) (m : M) (ms : List M) (ph : Phase)
      → Attends h (m ∷ ms) (waiting q) ph
      → Attends h ms at_loop ph
  take_phase h q m ms bare (e, o) = cc
  take_phase h q m ms queued (e, o) = cc
  take_phase h q m ms served o = tt
  take_phase h q m ms wrong o = o

  pub idle_phase :
      (queues : ℕ → List M) (h : ℕ) (t : TaskState) (ph : Phase)
      → IsBlocked queues t
      → Attends h (queues h) t ph
      → queues h ≡ []
  idle_phase queues h t bare b (e, o) = e
  idle_phase queues h t queued b (e, o) = e
  idle_phase queues h absent served b o = absurd o
  idle_phase queues h at_loop served b o = absurd b
  idle_phase queues h (waiting q) served b o = subst (λ j. queues j ≡ []) o b
  idle_phase queues h t wrong b o = absurd o

  pub queue_phase :
      (queues : ℕ → List M) (h : ℕ) (t : TaskState) (ph : Phase)
      → IsRight (next_phase {M = M} new_queue ph)
      → IsBlocked queues t
      → Attends h (queues h) t ph
      → queues (suc h) ≡ []
      → Attends (suc h) (queues (suc h)) t (next_phase {M = M} new_queue ph)
  queue_phase queues h t bare r b (e, o) fresh = (fresh, IsOld-grows h t o)
  queue_phase queues h absent served r b o fresh = absurd o
  queue_phase queues h at_loop served r b o fresh = absurd b
  queue_phase queues h (waiting q) served r b o fresh = (fresh, omega arith)
  queue_phase queues h t queued r b o fresh = absurd r
  queue_phase queues h t wrong r b o fresh = absurd r

  pub task_phase :
      (h : ℕ) (q : List M) (t : TaskState) (ph : Phase)
      → IsRight (next_phase {M = M} new_task ph)
      → Attends h q t ph
      → IsOld h t × Attends h q at_loop (next_phase {M = M} new_task ph)
  task_phase h q t queued r (e, o) = (o, tt)
  task_phase h q t bare r o = absurd r
  task_phase h q t served r o = absurd r
  task_phase h q t wrong r o = absurd r

  pub post_phase :
      (h : ℕ) (q q' : List M) (t : TaskState) (m : M) (ph : Phase)
      → IsRight (next_phase (post m) ph)
      → Attends h q t ph
      → Attends h q' t (next_phase (post m) ph)
  post_phase h q q' t m served r o = o
  post_phase h q q' t m bare r o = absurd r
  post_phase h q q' t m queued r o = absurd r
  post_phase h q q' t m wrong r o = absurd r
