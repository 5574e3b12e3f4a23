-- ===== src/Dispatch/Phases.antt =====
-- The order in which `tcp_thread` acts on a device: a queue, then a task for it, and then messages.
use rtu_com.Common.{List, [], ◌∷◌, ◌≡◌, refl}
use rtu_com.Dispatch.{Act, new_queue, new_task, post}

pub data Phase : Type 0 where
  bare queued served wrong : Phase

abbrev pub next_phase : {M : Type 0} → Act M → Phase → Phase
next_phase new_queue bare = queued
next_phase new_queue served = queued
next_phase new_task queued = served
next_phase (post m) served = served
next_phase _ _ = wrong

-- The phase after some acts, the last first.
abbrev pub phase : {M : Type 0} → List (Act M) → Phase
phase [] = bare
phase (a ∷ more) = next_phase a (phase more)

-- No act came out of turn.
abbrev pub IsRight : Phase → Type 0
IsRight wrong = ⊥
IsRight _ = Unit

abbrev pub InTurn : {M : Type 0} → List (Act M) → Type 0
InTurn more = IsRight (phase more)

-- A list reversed onto another.
abbrev pub reverse_onto {ℓ} : {A : Type ℓ} → List A → List A → List A
reverse_onto [] ys = ys
reverse_onto (x ∷ xs) ys = reverse_onto xs (x ∷ ys)

next_phase-wrong : {M : Type 0} → (a : Act M) (p : Phase) → IsRight (next_phase a p) → IsRight p
next_phase-wrong new_queue wrong h = h
next_phase-wrong new_task wrong h = h
next_phase-wrong (post m) wrong h = h
next_phase-wrong a bare h = tt
next_phase-wrong a queued h = tt
next_phase-wrong a served h = tt

pub reverse_onto-InTurn :
    {M : Type 0} → (todo acted : List (Act M)) → InTurn (reverse_onto todo acted) → InTurn acted
reverse_onto-InTurn [] acted h = h
reverse_onto-InTurn (a ∷ more) acted h =
    next_phase-wrong a (phase acted) (reverse_onto-InTurn more (a ∷ acted) h)

pub reverse_onto-twice {ℓ} :
    {A : Type ℓ} (xs ys : List A) → reverse_onto (reverse_onto xs ys) [] ≡ reverse_onto ys xs
reverse_onto-twice [] ys = refl
reverse_onto-twice (x ∷ xs) ys = reverse_onto-twice xs (x ∷ ys)
