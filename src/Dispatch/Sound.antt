-- ===== src/Dispatch/Sound.antt =====
-- The invariant of a device's queues and tasks (com/src/arm.c, pole.c, lift.c) beside `tcp_thread`.
use rtu_com.Common.{
  ℕ, ◌≤◌, List, [], ◌∷◌, ◌++◌, ◌≡◌, ◌≢◌, inl, inr, refl, sym, ap, subst, ◌∙◌, length, arith,
}
use rtu_com.Emac.Ring.{set, set_other}
use rtu_com.Dispatch.{Act, TaskState, at_loop, waiting, Port, IsIdle, take_message, read_handle}
use rtu_com.Dispatch.Phases.{phase, reverse_onto}
use rtu_com.Dispatch.Order.{
  posts, carry_out, IsOld, Attends, set_at, same_or, read_phase, take_phase, idle_phase,
}

module _ {M S : Type 0} (body : M → S → S) (start : S) (all : List (Act M)) where
  pub record Sound (p : Port M S) : Type 0 where
    pub in_order : p.queues p.handle ++ p.handled ≡ posts p.done
    pub one : length (p.queues p.handle) ≤ 1
    pub others : (q : ℕ) → q ≢ p.handle → p.queues q ≡ []
    pub old : (i : ℕ) → i ≢ p.made → IsOld p.handle (p.tasks i)
    pub newest : Attends p.handle (p.queues p.handle) (p.tasks p.made) (phase p.done)
    pub freed : p.freed ≡ p.handled
    pub device : p.device ≡ carry_out body start p.handled
    pub ahead : reverse_onto p.todo p.done ≡ all

taken :
    {M : Type 0} (m : M) (cur ms handled posted : List M)
    → cur ≡ m ∷ ms
    → length cur ≤ 1
    → cur ++ handled ≡ posted
    → (ms ≡ []) × (m ∷ handled ≡ posted)
taken m cur [] handled posted e one h = (refl, subst (λ c. c ++ handled ≡ posted) e h)
taken m cur (m' ∷ ms) handled posted e one h =
    let long = subst (λ c. length c ≤ 1) e one in absurd (omega arith)

module _ {M S : Type 0} {body : M → S → S} {start : S} {all : List (Act M)} where
  -- Only the newest task takes part.
  pub reader : {p : Port M S} (i : ℕ) → Sound body start all p → p.tasks i ≡ at_loop → i ≡ p.made
  reader {p} i h e = elim (same_or i p.made) [
    | inl same ↦ same
    | inr ne ↦ absurd (subst (IsOld p.handle) e (h.old i ne))
  ]

  pub taker_queue :
      {p : Port M S} (q : ℕ) {m : M} {ms : List M}
      → Sound body start all p
      → p.queues q ≡ m ∷ ms
      → q ≡ p.handle
  taker_queue {p} q h full = elim (same_or q p.handle) [
    | inl same ↦ same
    | inr ne ↦ let empty = h.others q ne in cc
  ]

  pub taker :
      {p : Port M S} (i q : ℕ)
      → Sound body start all p
      → p.tasks i ≡ waiting q
      → q ≡ p.handle
      → i ≡ p.made
  taker {p} i q h e on = elim (same_or i p.made) [
    | inl same ↦ same
    | inr ne ↦ let less = subst (IsOld p.handle) e (h.old i ne) in omega arith
  ]

  pub idle_queue : {p : Port M S} → Sound body start all p → IsIdle p → p.queues p.handle ≡ []
  idle_queue {p} h idle =
      idle_phase p.queues p.handle (p.tasks p.made) (phase p.done) (idle p.made) h.newest

  pub read_handle-Sound :
      {p : Port M S} (i : ℕ)
      → p.tasks i ≡ at_loop
      → Sound body start all p
      → Sound body start all (read_handle i p)
  unfolding read_handle
  read_handle-Sound {p} i e h =
      let same = reader i h e in
      let new = set_at p.tasks i (waiting p.handle) (sym same) in
      let att = λ (t : TaskState). Attends p.handle (p.queues p.handle) t (phase p.done) in
      record {
        in_order = h.in_order;
        one = h.one;
        others = h.others;
        old = λ j ne.
            subst (IsOld p.handle)
              (sym (set_other p.tasks i _ (waiting p.handle) (λ eq. ne (eq ∙ same)))) (h.old j ne);
        newest = subst att (sym new) (
            read_phase p.handle (p.queues p.handle) (phase p.done)
              (subst att (ap p.tasks (sym same) ∙ e) h.newest));
        freed = h.freed;
        device = h.device;
        ahead = h.ahead;
      }

  pub take_message-Sound :
      {p : Port M S} (i q : ℕ) (m : M) (ms : List M)
      → p.tasks i ≡ waiting q
      → p.queues q ≡ m ∷ ms
      → Sound body start all p
      → Sound body start all (take_message body i q m ms p)
  unfolding take_message
  take_message-Sound {p} i q m ms e full h =
      let on = taker_queue q h full in
      let same = taker i q h e on in
      let cur = ap p.queues (sym on) ∙ full in
      let (none_left, in_order) = taken m _ ms p.handled (posts p.done) cur h.one h.in_order in
      let queue = set_at p.queues q ms (sym on) in
      let empty = queue ∙ none_left in
      let task = set_at p.tasks i at_loop (sym same) in
      record {
        in_order = subst (λ c. c ++ (m ∷ p.handled) ≡ posts p.done) (sym empty) in_order;
        one = subst (λ c. length c ≤ 1) (sym empty) (omega arith);
        others = λ r ne. set_other p.queues q _ ms (λ eq. ne (eq ∙ on)) ∙ h.others r ne;
        old = λ j ne.
            subst (IsOld p.handle) (sym (set_other p.tasks i _ at_loop (λ eq. ne (eq ∙ same))))
              (h.old j ne);
        newest =
            subst (λ c. Attends p.handle c (set p.tasks i at_loop p.made) (phase p.done))
              (sym queue)
              (subst (λ t. Attends p.handle ms t (phase p.done)) (sym task)
                (take_phase p.handle q m ms (phase p.done) (
                  subst (λ c. Attends p.handle c (waiting q) (phase p.done)) cur
                    (subst (λ t. Attends p.handle (p.queues p.handle) t (phase p.done))
                      (ap p.tasks (sym same) ∙ e) h.newest))));
        freed = ap (λ l. m ∷ l) h.freed;
        device = ap (body m) h.device;
        ahead = h.ahead;
      }
