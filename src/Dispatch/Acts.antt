-- ===== src/Dispatch/Acts.antt =====
-- The acts of a trace of `tcp_thread` on the three devices, and the message blocks that it has
-- allocated.
use rtu_com.Common.{ℕ, suc, ◌+◌, [], ◌∷◌, ◌≡◌, refl, sym, ap, subst, length, arith}
use rtu_com.Kernel.{
  Trace, DeviceName, malloc_mot_pap_msg, malloc_lift_msg, send_arm, send_pole, send_lift,
  queue_create, task_create, netconn_write, netbuf_delete, netconn_close, netconn_delete, arm_posts,
  pole_posts, lift_posts,
}
use rtu_com.Dispatch.{new_queue, new_task, post, arm_acts, pole_acts, lift_acts}
use rtu_com.Dispatch.Order.{posts}
use rtu_com.Dispatch.Phases.{Phase, bare, queued, served, wrong, next_phase, phase, IsRight}
use rtu_com.Session.Keeps.{IsClosed}

-- The blocks that `pvPortMalloc` has given out.
abbrev pub mot_pap_blocks : Trace → ℕ
mot_pap_blocks [] = 0
mot_pap_blocks (malloc_mot_pap_msg ∷ t) = suc (mot_pap_blocks t)
mot_pap_blocks (_ ∷ t) = mot_pap_blocks t

abbrev pub lift_blocks : Trace → ℕ
lift_blocks [] = 0
lift_blocks (malloc_lift_msg ∷ t) = suc (lift_blocks t)
lift_blocks (_ ∷ t) = lift_blocks t

pub arm_posts_lem : (t : Trace) → posts (arm_acts t) ≡ arm_posts t
arm_posts_lem [] = refl
arm_posts_lem (malloc_mot_pap_msg ∷ t) = arm_posts_lem t
arm_posts_lem (malloc_lift_msg ∷ t) = arm_posts_lem t
arm_posts_lem (send_arm m ∷ t) = ap (λ ms. m ∷ ms) (arm_posts_lem t)
arm_posts_lem (send_pole m ∷ t) = arm_posts_lem t
arm_posts_lem (send_lift m ∷ t) = arm_posts_lem t
arm_posts_lem (netconn_write b ∷ t) = arm_posts_lem t
arm_posts_lem (netbuf_delete ∷ t) = arm_posts_lem t
arm_posts_lem (netconn_close ∷ t) = arm_posts_lem t
arm_posts_lem (netconn_delete ∷ t) = arm_posts_lem t
arm_posts_lem (queue_create DeviceName.arm ∷ t) = arm_posts_lem t
arm_posts_lem (queue_create DeviceName.pole ∷ t) = arm_posts_lem t
arm_posts_lem (queue_create DeviceName.lift ∷ t) = arm_posts_lem t
arm_posts_lem (task_create DeviceName.arm ∷ t) = arm_posts_lem t
arm_posts_lem (task_create DeviceName.pole ∷ t) = arm_posts_lem t
arm_posts_lem (task_create DeviceName.lift ∷ t) = arm_posts_lem t

pub pole_posts_lem : (t : Trace) → posts (pole_acts t) ≡ pole_posts t
pole_posts_lem [] = refl
pole_posts_lem (malloc_mot_pap_msg ∷ t) = pole_posts_lem t
pole_posts_lem (malloc_lift_msg ∷ t) = pole_posts_lem t
pole_posts_lem (send_arm m ∷ t) = pole_posts_lem t
pole_posts_lem (send_pole m ∷ t) = ap (λ ms. m ∷ ms) (pole_posts_lem t)
pole_posts_lem (send_lift m ∷ t) = pole_posts_lem t
pole_posts_lem (netconn_write b ∷ t) = pole_posts_lem t
pole_posts_lem (netbuf_delete ∷ t) = pole_posts_lem t
pole_posts_lem (netconn_close ∷ t) = pole_posts_lem t
pole_posts_lem (netconn_delete ∷ t) = pole_posts_lem t
pole_posts_lem (queue_create DeviceName.arm ∷ t) = pole_posts_lem t
pole_posts_lem (queue_create DeviceName.pole ∷ t) = pole_posts_lem t
pole_posts_lem (queue_create DeviceName.lift ∷ t) = pole_posts_lem t
pole_posts_lem (task_create DeviceName.arm ∷ t) = pole_posts_lem t
pole_posts_lem (task_create DeviceName.pole ∷ t) = pole_posts_lem t
pole_posts_lem (task_create DeviceName.lift ∷ t) = pole_posts_lem t

pub lift_posts_lem : (t : Trace) → posts (lift_acts t) ≡ lift_posts t
lift_posts_lem [] = refl
lift_posts_lem (malloc_mot_pap_msg ∷ t) = lift_posts_lem t
lift_posts_lem (malloc_lift_msg ∷ t) = lift_posts_lem t
lift_posts_lem (send_arm m ∷ t) = lift_posts_lem t
lift_posts_lem (send_pole m ∷ t) = lift_posts_lem t
lift_posts_lem (send_lift m ∷ t) = ap (λ ms. m ∷ ms) (lift_posts_lem t)
lift_posts_lem (netconn_write b ∷ t) = lift_posts_lem t
lift_posts_lem (netbuf_delete ∷ t) = lift_posts_lem t
lift_posts_lem (netconn_close ∷ t) = lift_posts_lem t
lift_posts_lem (netconn_delete ∷ t) = lift_posts_lem t
lift_posts_lem (queue_create DeviceName.arm ∷ t) = lift_posts_lem t
lift_posts_lem (queue_create DeviceName.pole ∷ t) = lift_posts_lem t
lift_posts_lem (queue_create DeviceName.lift ∷ t) = lift_posts_lem t
lift_posts_lem (task_create DeviceName.arm ∷ t) = lift_posts_lem t
lift_posts_lem (task_create DeviceName.pole ∷ t) = lift_posts_lem t
lift_posts_lem (task_create DeviceName.lift ∷ t) = lift_posts_lem t

-- A device that can be posted to, and one that waits for its next connection.
abbrev IsOpen : Phase → Type 0
IsOpen p = p ≡ served

abbrev IsBetween : Phase → Type 0
IsBetween bare = Unit
IsBetween served = Unit
IsBetween _ = ⊥

-- Every block holds a message that was posted.
pub record Posted (t : Trace) : Type 0 where
  pub mot_pap : mot_pap_blocks t ≡ length (arm_posts t) + length (pole_posts t)
  pub lift : lift_blocks t ≡ length (lift_posts t)

pub record Open (t : Trace) : Type 0 where
  pub arm : IsOpen (phase (arm_acts t))
  pub pole : IsOpen (phase (pole_acts t))
  pub lift : IsOpen (phase (lift_acts t))
  pub posted : Posted t

pub record Between (t : Trace) : Type 0 where
  pub arm : IsBetween (phase (arm_acts t))
  pub pole : IsBetween (phase (pole_acts t))
  pub lift : IsBetween (phase (lift_acts t))
  pub posted : Posted t

-- What an init function does to the phase.
pub init_phase :
    (M : Type 0) (p : Phase)
    → IsBetween p
    → next_phase {M = M} new_task (next_phase {M = M} new_queue p) ≡ served
init_phase M bare h = refl
init_phase M served h = refl
init_phase M queued h = absurd h
init_phase M wrong h = absurd h

IsOpen-IsBetween : (p : Phase) → IsOpen p → IsBetween p
IsOpen-IsBetween p h = subst IsBetween (sym h) tt

pub Open-Between : {t : Trace} → Open t → Between t
Open-Between h = record {
  arm = IsOpen-IsBetween _ h.arm;
  pole = IsOpen-IsBetween _ h.pole;
  lift = IsOpen-IsBetween _ h.lift;
  posted = h.posted;
}

pub IsBetween-InTurn : (p : Phase) → IsBetween p → IsRight p
IsBetween-InTurn bare h = tt
IsBetween-InTurn served h = tt
IsBetween-InTurn queued h = absurd h
IsBetween-InTurn wrong h = absurd h

pub Open-IsClosed : IsClosed Open
Open-IsClosed = record {
  arm = λ m t h. record {
    arm = ap (next_phase (post m)) h.arm;
    pole = h.pole;
    lift = h.lift;
    posted = record { mot_pap = let e = h.posted.mot_pap in omega arith; lift = h.posted.lift };
  };
  pole = λ m t h. record {
    arm = h.arm;
    pole = ap (next_phase (post m)) h.pole;
    lift = h.lift;
    posted = record { mot_pap = let e = h.posted.mot_pap in omega arith; lift = h.posted.lift };
  };
  lift = λ m t h. record {
    arm = h.arm;
    pole = h.pole;
    lift = ap (next_phase (post m)) h.lift;
    posted = record { mot_pap = h.posted.mot_pap; lift = ap suc h.posted.lift };
  };
  write = λ buffer t h. record {
    arm = h.arm;
    pole = h.pole;
    lift = h.lift;
    posted = record { mot_pap = h.posted.mot_pap; lift = h.posted.lift };
  };
  delete = λ t h. record {
    arm = h.arm;
    pole = h.pole;
    lift = h.lift;
    posted = record { mot_pap = h.posted.mot_pap; lift = h.posted.lift };
  };
}
