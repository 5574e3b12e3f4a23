-- ===== src/Dispatch/Steps.antt =====
-- The steps of a device's queues and tasks (com/src/arm.c, pole.c, lift.c) and their invariant: the calls
-- of `tcp_thread` that come in turn, and the loops of the tasks.
use rtu_com.Common.{
  suc, ◌≤◌, List, [], ◌∷◌, ◌++◌, ◌≡◌, inl, inr, refl, sym, ap, subst, ◌∙◌, length, arith,
}
use rtu_com.Emac.Ring.{set_other}
use rtu_com.Dispatch.{
  Act, new_queue, new_task, post, at_loop, Port, IsIdle, act, Step, reads, takes, acts, begins,
}
use rtu_com.Dispatch.Phases.{
  next_phase, phase, IsRight, InTurn, reverse_onto, reverse_onto-InTurn, reverse_onto-twice,
}
use rtu_com.Dispatch.Order.{
  posts, IsOld, Attends, set_at, same_or, IsOld-grows, queue_phase, task_phase, post_phase,
}
use rtu_com.Dispatch.Sound.{Sound, idle_queue, read_handle-Sound, take_message-Sound}

module _ {M S : Type 0} {body : M → S → S} {start : S} {all : List (Act M)}
    (turn : InTurn all) where
  -- The next act comes in turn.
  right :
      {p : Port M S} (a : Act M) (more : List (Act M))
      → Sound body start all p
      → p.todo ≡ a ∷ more
      → IsRight (next_phase a (phase p.done))
  right {p} a more h e = reverse_onto-InTurn more (a ∷ p.done) (
      subst (λ l. IsRight (phase (reverse_onto l p.done))) e
        (subst (λ l. IsRight (phase l)) (sym h.ahead) turn))

  new_queue-Sound :
      {p : Port M S} (more : List (Act M))
      → IsIdle p
      → p.todo ≡ new_queue ∷ more
      → Sound body start all p
      → Sound body start all (act new_queue more p)
  unfolding act
  new_queue-Sound {p} more idle e h =
      let r = right new_queue more h e in
      let cur = idle_queue h idle in
      let fresh = h.others (suc p.handle) (omega arith) in
      record {
        in_order = subst (λ c. c ++ p.handled ≡ posts p.done) (cur ∙ sym fresh) h.in_order;
        one = subst (λ c. length c ≤ 1) (cur ∙ sym fresh) h.one;
        others = λ q ne. elim (same_or q p.handle) [
          | inl eq ↦ ap p.queues eq ∙ cur
          | inr other ↦ h.others q other
        ];
        old = λ i ne. IsOld-grows p.handle (p.tasks i) (h.old i ne);
        newest =
            queue_phase p.queues p.handle (p.tasks p.made) (phase p.done) r (idle p.made) h.newest
              fresh;
        freed = h.freed;
        device = h.device;
        ahead = subst (λ l. reverse_onto l p.done ≡ all) e h.ahead;
      }

  new_task-Sound :
      {p : Port M S} (more : List (Act M))
      → IsIdle p
      → p.todo ≡ new_task ∷ more
      → Sound body start all p
      → Sound body start all (act new_task more p)
  unfolding act
  new_task-Sound {p} more idle e h =
      let r = right new_task more h e in
      let (was_old, on) =
        task_phase p.handle (p.queues p.handle) (p.tasks p.made) (phase p.done) r h.newest in
      record {
        in_order = h.in_order;
        one = h.one;
        others = h.others;
        old = λ i ne.
            subst (IsOld p.handle) (sym (set_other p.tasks (suc p.made) _ at_loop ne))
              (elim (same_or i p.made) [
                | inl eq ↦ subst (λ j. IsOld p.handle (p.tasks j)) (sym eq) was_old
                | inr other ↦ h.old i other
              ]);
        newest =
            subst
              (λ t.
                Attends p.handle (p.queues p.handle) t (next_phase {M = M} new_task (phase p.done)))
              (sym (set_at p.tasks (suc p.made) at_loop refl)) on;
        freed = h.freed;
        device = h.device;
        ahead = subst (λ l. reverse_onto l p.done ≡ all) e h.ahead;
      }

  post-Sound :
      {p : Port M S} (m : M) (more : List (Act M))
      → IsIdle p
      → p.todo ≡ post m ∷ more
      → Sound body start all p
      → Sound body start all (act (post m) more p)
  unfolding act
  post-Sound {p} m more idle e h =
      let r = right (post m) more h e in
      let cur = idle_queue h idle in
      let posted = p.queues p.handle ++ (m ∷ []) in
      let one_more = ap (λ c. c ++ (m ∷ [])) cur in
      let queue = set_at p.queues p.handle posted refl ∙ one_more in
      record {
        in_order =
            subst (λ c. c ++ p.handled ≡ m ∷ posts p.done) (sym queue)
              (ap (λ l. m ∷ l) (subst (λ c. c ++ p.handled ≡ posts p.done) cur h.in_order));
        one = subst (λ c. length c ≤ 1) (sym queue) (omega arith);
        others = λ q ne. set_other p.queues p.handle _ posted ne ∙ h.others q ne;
        old = h.old;
        newest =
            post_phase p.handle (p.queues p.handle) _ (p.tasks p.made) m (phase p.done) r h.newest;
        freed = h.freed;
        device = h.device;
        ahead = subst (λ l. reverse_onto l p.done ≡ all) e h.ahead;
      }

  act-Sound :
      {p : Port M S} (a : Act M) (more : List (Act M))
      → IsIdle p
      → p.todo ≡ a ∷ more
      → Sound body start all p
      → Sound body start all (act a more p)
  act-Sound new_queue more idle e h = new_queue-Sound more idle e h
  act-Sound new_task more idle e h = new_task-Sound more idle e h
  act-Sound (post m) more idle e h = post-Sound m more idle e h

  pub Step-Sound :
      {p u : Port M S} → Step body p u → Sound body start all p → Sound body start all u
  Step-Sound (reads i e) h = read_handle-Sound i e h
  Step-Sound (takes i q m ms e full) h = take_message-Sound i q m ms e full h
  Step-Sound (acts a more idle e accepts) h = act-Sound a more idle e h

pub begins-Sound :
    {M S : Type 0} (body : M → S → S) (start : S) (all : List (Act M))
    → Sound body start all (begins start (reverse_onto all []))
begins-Sound body start all = record {
  in_order = refl;
  one = omega arith;
  others = λ q ne. refl;
  old = λ i ne. tt;
  newest = (refl, tt);
  freed = refl;
  device = refl;
  ahead = reverse_onto-twice all [];
}
