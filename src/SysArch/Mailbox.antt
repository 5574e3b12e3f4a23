-- ===== src/SysArch/Mailbox.antt =====
-- A mailbox of lwIP beside a bounded queue.
use rtu_com.Common.{
  ℕ, ◌≡◌, ◌∙◌, ap, ap₂, refl, List, [], ◌∷◌, ◌++◌, ltb, if◌then◌else◌, length, Option, none, some,
  arith, Bool-cases, inl, inr,
}
use rtu_com.SysArch.{
  QueueApi, ErrT, err_ok, err_mem, sys_mbox_empty, sys_mbox_trypost, sys_arch_mbox_tryfetch,
}

-- The calls, and what a thread sees of them.
pub data Op : Type 0 where
  trypost : ℕ → Op
  tryfetch : Op

pub data Seen : Type 0 where
  posted : ErrT → Seen
  fetched : ℕ → Option ℕ → Seen

-- A bounded queue: the most it holds, and what it holds.
abbrev pub post : ℕ → ℕ → List ℕ → Seen × List ℕ
post size msg xs =
    if ltb (length xs) size then (posted err_ok, xs ++ (msg ∷ [])) else (posted err_mem, xs)

abbrev pub fetch : List ℕ → Seen × List ℕ
fetch [] = (fetched sys_mbox_empty none, [])
fetch (x ∷ xs) = (fetched 0 (some x), xs)

pub bounded_queue : ℕ → List ℕ → List Op → List Seen
bounded_queue size xs [] = []
bounded_queue size xs (trypost msg ∷ ops) =
    let r = post size msg xs in r.0 ∷ bounded_queue size r.1 ops
bounded_queue size xs (tryfetch ∷ ops) = let r = fetch xs in r.0 ∷ bounded_queue size r.1 ops

module _ (api : QueueApi) where
  open api use {
    Queue, items, size, create, send, receive, send_full, send_room, receive_empty, receive_item,
  }

  pub mailbox : Queue → List Op → List Seen
  mailbox q [] = []
  mailbox q (trypost msg ∷ ops) = let r = sys_mbox_trypost api q msg in posted r.0 ∷ mailbox r.1 ops
  mailbox q (tryfetch ∷ ops) =
      let r = sys_arch_mbox_tryfetch api q in fetched r.0 r.1 ∷ mailbox r.2 ops

  fetch_step :
      (q : Queue) (xs : List ℕ) (ops : List Op)
      → items q ≡ xs
      → ((q' : Queue) → size q' ≡ size q → mailbox q' ops ≡ bounded_queue (size q) (items q') ops)
      → mailbox q (tryfetch ∷ ops) ≡ bounded_queue (size q) xs (tryfetch ∷ ops)
  unfolding mailbox bounded_queue sys_arch_mbox_tryfetch
  fetch_step q [] ops e rest =
      rw (receive_empty q e, sys_arch_mbox_tryfetch)
        (ap (λ s. fetched sys_mbox_empty none ∷ s)
          (rest q refl ∙ ap (λ xs. bounded_queue (size q) xs ops) e))
  fetch_step q (x ∷ xs) ops e rest =
      let (q', got, left, same) = receive_item q x xs e in
      rw (got, sys_arch_mbox_tryfetch)
        (ap (λ s. fetched 0 (some x) ∷ s)
          (rest q' same ∙ ap (λ ys. bounded_queue (size q) ys ops) left))

  -- No sequence of calls that do not wait tells a mailbox from the bounded queue of its contents.
  pub mailbox-bounded_queue :
      (ops : List Op) (q : Queue) → mailbox q ops ≡ bounded_queue (size q) (items q) ops
  unfolding mailbox bounded_queue sys_mbox_trypost
  mailbox-bounded_queue [] q = refl
  mailbox-bounded_queue (tryfetch ∷ ops) q =
      fetch_step q (items q) ops refl
        (λ q' same. mailbox-bounded_queue ops q' ∙ ap (λ n. bounded_queue n (items q') ops) same)
  mailbox-bounded_queue (trypost msg ∷ ops) q =
      elim (Bool-cases (ltb (length (items q)) (size q))) [
        | inl e ↦
            let (q', sent, content, same) = send_room q msg (ground arith) in
            rw (sent, e, sys_mbox_trypost)
              (ap (λ s. posted err_ok ∷ s)
                (mailbox-bounded_queue ops q' ∙ ap₂ (λ n xs. bounded_queue n xs ops) same content))
        | inr e ↦
            rw (send_full q msg (ground arith), e, sys_mbox_trypost)
              (ap (λ s. posted err_mem ∷ s) (mailbox-bounded_queue ops q))
      ]
