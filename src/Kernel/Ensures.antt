-- ===== src/Kernel/Ensures.antt =====
-- Total correctness of a run: it returns, and the postcondition holds of its result and trace.
use rtu_com.Kernel.{Out, done, fault, M, Trace, ◌>>=◌}

abbrev pub Ensures {ℓ} : {A : Type ℓ} → (A → Trace → Type 0) → Out A → Type 0
Ensures P (done a t) = P a t
Ensures P (fault t) = ⊥

pub Ensures-bind {ℓ κ} :
    {A : Type ℓ} {B : Type κ} (P : A → Trace → Type 0) (Q : B → Trace → Type 0) (m : M A)
    (f : A → M B) (t : Trace)
    → Ensures P (m t)
    → ((a : A) (t' : Trace) → P a t' → Ensures Q (f a t'))
    → Ensures Q ((m >>= f) t)
Ensures-bind {A} {B} P Q m f t h k = on_result (m t) h
  where
    on_result :
        (r : Out A)
        → Ensures P r
        → Ensures Q (elim r as (λ (x : Out A). Out B) [ done a t' ↦ f a t' | fault t' ↦ fault t' ])
    on_result (done a t') p = k a t' p
    on_result (fault t') p = absurd p

pub Ensures-weaken {ℓ} :
    {A : Type ℓ} (P Q : A → Trace → Type 0) (r : Out A)
    → Ensures P r
    → ((a : A) (t : Trace) → P a t → Q a t)
    → Ensures Q r
Ensures-weaken P Q (done a t) h k = k a t h
Ensures-weaken P Q (fault t) h k = absurd h
