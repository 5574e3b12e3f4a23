-- ===== src/Dispatch/Settles.antt =====
-- How the runs of a device's tasks (com/src/arm.c, pole.c, lift.c) go on, and how they end.
use rtu_com.Common.{
  ℕ, zero, suc, ◌+◌, ◌*◌, ◌<◌, ◌≤◌, List, [], ◌∷◌, ◌++◌, ◌≡◌, ◌⊎◌, inl, inr, refl, sym, ap, subst,
  ◌∙◌, length, arith,
}
use rtu_com.Dispatch.{
  Act, new_queue, new_task, post, TaskState, absent, at_loop, waiting, Port, IsBlocked, IsIdle, act,
  Accepts, take_message, read_handle, Step, reads, takes, acts, Run, here, next, begins,
}
use rtu_com.Dispatch.Phases.{InTurn, reverse_onto}
use rtu_com.Dispatch.Order.{posts, carry_out, IsOld, set_at, same_or}
use rtu_com.Dispatch.Sound.{Sound, reader, taker_queue, taker, idle_queue}
use rtu_com.Dispatch.Steps.{Step-Sound, begins-Sound}

abbrev ready : TaskState → ℕ
ready at_loop = 1
ready _ = 0

abbrev work : {M S : Type 0} → Port M S → ℕ
work p = 3 * length p.todo + 2 * length (p.queues p.handle) + ready (p.tasks p.made)

length-reverse_onto :
    {A : Type 0} (xs ys : List A) → length (reverse_onto xs ys) ≡ length xs + length ys
length-reverse_onto [] ys = omega arith
length-reverse_onto (x ∷ xs) ys = omega (arith, length-reverse_onto xs (x ∷ ys))

-- All the acts are done, every queue is empty, the messages have been handled in their order and freed, and every
-- task waits.
pub record IsSettled {M S : Type 0} (body : M → S → S) (start : S) (all : List (Act M))
    (p : Port M S) : Type 0 where
  pub acted : p.done ≡ all
  pub through : p.todo ≡ []
  pub empty : (q : ℕ) → p.queues q ≡ []
  pub handled : p.handled ≡ posts all
  pub freed : p.freed ≡ posts all
  pub device : p.device ≡ carry_out body start (posts all)
  pub idle : IsIdle p

-- The queue that a task waits for.
abbrev queue_of : {M S : Type 0} → Port M S → TaskState → List M
queue_of p (waiting q) = p.queues q
queue_of p _ = []

waited_queue :
    {M S : Type 0} (p : Port M S) (t : TaskState) (q : ℕ)
    → t ≡ waiting q
    → p.queues q ≡ queue_of p t
waited_queue p t q e = subst (λ t'. p.queues q ≡ queue_of p t') (sym e) refl

module _ {M S : Type 0} {body : M → S → S} {start : S} {all : List (Act M)} where
  act_work :
      {p : Port M S} (a : Act M) (more : List (Act M))
      → IsIdle p
      → p.todo ≡ a ∷ more
      → Sound body start all p
      → work (act a more p) < work p
  unfolding act
  act_work {p} new_queue more idle e h =
      let len = ap length e in
      let fresh = ap length (h.others (suc p.handle) (omega arith)) in omega arith
  act_work {p} new_task more idle e h =
      let len = ap length e in
      let task = ap ready (set_at p.tasks (suc p.made) at_loop refl) in omega arith
  act_work {p} (post m) more idle e h =
      let len = ap length e in
      let cur = ap (λ (c : List M). length (c ++ (m ∷ []))) (idle_queue h idle) in
      let queue = ap length (set_at p.queues p.handle (p.queues p.handle ++ (m ∷ [])) refl) in
      omega arith

  Step-work : {p u : Port M S} → Step body p u → Sound body start all p → work u < work p
  unfolding take_message read_handle
  Step-work {p} (reads i e) h =
      let same = reader i h e in
      let was = ap ready (ap p.tasks (sym same) ∙ e) in
      let now = ap ready (set_at p.tasks i (waiting p.handle) (sym same)) in omega arith
  Step-work {p} (takes i q m ms e full) h =
      let on = taker_queue q h full in
      let same = taker i q h e on in
      let was = ap length (ap p.queues (sym on) ∙ full) in
      let now = ap length (set_at p.queues q ms (sym on)) in
      let task = ap ready (set_at p.tasks i at_loop (sym same)) in omega arith
  Step-work (acts a more idle e accepts) h = act_work a more idle e h

  old-IsBlocked :
      {p : Port M S}
      → Sound body start all p
      → (t : TaskState) → IsOld p.handle t
      → IsBlocked p.queues t
  old-IsBlocked h absent o = tt
  old-IsBlocked h at_loop o = o
  old-IsBlocked h (waiting q) o = h.others q (omega arith)

  all_idle :
      {p : Port M S} → Sound body start all p → IsBlocked p.queues (p.tasks p.made) → IsIdle p
  all_idle {p} h b i = elim (same_or i p.made) [
    | inl same ↦ subst (λ j. IsBlocked p.queues (p.tasks j)) (sym same) b
    | inr ne ↦ old-IsBlocked h (p.tasks i) (h.old i ne)
  ]

  accepts : {p : Port M S} (a : Act M) → Sound body start all p → Accepts a p
  accepts new_queue h = tt
  accepts new_task h = tt
  accepts (post m) h = let one = h.one in omega arith

  empty_queues : {p : Port M S} → Sound body start all p → IsIdle p → (q : ℕ) → p.queues q ≡ []
  empty_queues {p} h idle q = elim (same_or q p.handle) [
    | inl same ↦ ap p.queues same ∙ idle_queue h idle
    | inr ne ↦ h.others q ne
  ]

  idle_handled : {p : Port M S} → Sound body start all p → IsIdle p → p.handled ≡ posts p.done
  idle_handled {p} h idle =
      subst (λ c. c ++ p.handled ≡ posts p.done) (idle_queue h idle) h.in_order

  waits_or_goes :
      {p : Port M S} (todo : List (Act M))
      → p.todo ≡ todo
      → Sound body start all p
      → IsIdle p
      → ((u : Port M S) × Step body p u) ⊎ IsSettled body start all p
  waits_or_goes {p} (a ∷ more) e h idle = inl (act a more p, acts a more idle e (accepts a h))
  waits_or_goes {p} [] e h idle =
      let acted = subst (λ l. reverse_onto l p.done ≡ all) e h.ahead in
      let handled = idle_handled h idle ∙ ap posts acted in
      inr (record {
        acted = acted;
        through = e;
        empty = empty_queues h idle;
        handled = handled;
        freed = h.freed ∙ handled;
        device = h.device ∙ ap (carry_out body start) handled;
        idle = idle;
      })

  goes_on_task :
      {p : Port M S} (t : TaskState) (queue : List M)
      → p.tasks p.made ≡ t
      → ((q : ℕ) → t ≡ waiting q → p.queues q ≡ queue)
      → Sound body start all p
      → ((u : Port M S) × Step body p u) ⊎ IsSettled body start all p
  goes_on_task {p} absent queue e at h =
      waits_or_goes p.todo refl h (all_idle h (subst (IsBlocked p.queues) (sym e) tt))
  goes_on_task {p} at_loop queue e at h = inl (read_handle p.made p, reads p.made e)
  goes_on_task {p} (waiting q) [] e at h =
      waits_or_goes p.todo refl h (all_idle h (subst (IsBlocked p.queues) (sym e) (at q refl)))
  goes_on_task {p} (waiting q) (m ∷ ms) e at h =
      inl (take_message body p.made q m ms p, takes p.made q m ms e (at q refl))

  goes_on :
      {p : Port M S}
      → Sound body start all p
      → ((u : Port M S) × Step body p u) ⊎ IsSettled body start all p
  goes_on {p} h = let t = p.tasks p.made in goes_on_task t (queue_of p t) refl (waited_queue p t) h

-- Where the tasks wait for empty queues and the thread is through, nothing moves.
pub settled_ends :
    {M S : Type 0} (body : M → S → S) (p : Port M S)
    → IsIdle p
    → ((q : ℕ) → p.queues q ≡ [])
    → p.todo ≡ []
    → ¬ ((u : Port M S) × Step body p u)
settled_ends body p idle empty through (u, reads i e) = subst (IsBlocked p.queues) e (idle i)
settled_ends body p idle empty through (u, takes i q m ms e full) = let none_left = empty q in cc
settled_ends body p idle empty through (u, acts a more waits e accepts) = cc

module _ {M S : Type 0} (body : M → S → S) (start : S) (all : List (Act M))
    (turn : InTurn all) where
  Run-Sound :
      {n : ℕ} {p : Port M S}
      → Run body (begins start (reverse_onto all [])) n p
      → Sound body start all p
  Run-Sound here = begins-Sound body start all
  Run-Sound (next run st) = Step-Sound turn st (Run-Sound run)

  Run-work :
      {n : ℕ} {p : Port M S}
      → Run body (begins start (reverse_onto all [])) n p
      → n + work p ≤ 3 * length all
  Run-work here = let len = length-reverse_onto all [] in omega arith
  Run-work (next run st) =
      let less = Step-work st (Run-Sound run) in let so_far = Run-work run in omega arith

  -- Whatever the thread does to a device, if it makes a queue, then a task for it, and only then posts:
  -- wherever the thread can go on, the tasks have handled every message that it has posted, in order,
  -- and every queue is empty, so that `xQueueSend` does not wait.
  pub Run-handled :
      {n : ℕ} {p : Port M S}
      → Run body (begins start (reverse_onto all [])) n p
      → IsIdle p
      → (p.handled ≡ posts p.done) × ((q : ℕ) → p.queues q ≡ [])
  Run-handled run idle = (idle_handled (Run-Sound run) idle, empty_queues (Run-Sound run) idle)

  -- A run of the thread's acts with the tasks, if the acts come in that order, takes at most three steps
  -- for each act. Until everything is settled there is a next step: no task is left behind on the queue
  -- of the handle, and the thread is never stuck.
  pub Run-settles :
      {n : ℕ} {p : Port M S}
      → Run body (begins start (reverse_onto all [])) n p
      → (n ≤ 3 * length all) × (((u : Port M S) × Step body p u) ⊎ IsSettled body start all p)
  Run-settles run = let bound = Run-work run in (omega arith, goes_on (Run-Sound run))

  finish :
      (fuel : ℕ) {n : ℕ} {p : Port M S}
      → Run body (begins start (reverse_onto all [])) n p
      → work p ≤ fuel
      → (m : ℕ) × ((u : Port M S) × (Run body (begins start (reverse_onto all [])) m u
            × IsSettled body start all u))
  finish zero {n} {p} run enough = elim (goes_on (Run-Sound run)) [
    | inr settled ↦ (n, (p, (run, settled)))
    | inl (u, st) ↦ let less = Step-work st (Run-Sound run) in absurd (omega arith)
  ]
  finish (suc fuel) {n} {p} run enough = elim (goes_on (Run-Sound run)) [
    | inr settled ↦ (n, (p, (run, settled)))
    | inl (u, st) ↦
        let less = Step-work st (Run-Sound run) in finish fuel (next run st) (omega arith)
  ]

  -- There is such a run to its end.
  pub Run-finishes :
      (n : ℕ) × ((p : Port M S) × (Run body (begins start (reverse_onto all [])) n p
          × IsSettled body start all p))
  Run-finishes = finish (work (begins start (reverse_onto all []))) here (omega arith)
