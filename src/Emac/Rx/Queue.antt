-- ===== src/Emac/Rx/Queue.antt =====
-- The pbufs that the receiver has put into its descriptors, oldest first, through its operations.
use rtu_com.Common.{
  ℕ, zero, suc, ◌+◌, ◌-◌, ◌≤◌, ◌<◌, ◌≡◌, ◌∙◌, ◌⊎◌, inl, inr, ap, ap₂, refl, sym, List, [], ◌∷◌,
  ◌++◌, ltb, ◌==◌, if◌then◌else◌, none, some, arith, Bool-cases, Option-cases,
}
use rtu_com.Emac.{next_idx}
use rtu_com.Emac.Ring.{walk, window, next-walk, window-set_end, set}
use rtu_com.Emac.Rx.{
  Pbuf, Rx, RxCall, Env, log, pbuf_alloc_ram, pbuf_free, netif_input, lpc_rxqueue_pbuf,
  rx_queue_loop,
}

-- The pbufs in the descriptors in use.
abbrev pub queued : Rx → List Pbuf
queued r = window r.rxpbufs r.rx_get_idx (8 - r.rx_free_descs)

-- How often the pbuf `x` is in a list, was allocated, and was given away or freed.
abbrev pub tally : ℕ → ℕ → ℕ
tally x p = if p == x then 1 else 0

abbrev pub count : ℕ → List Pbuf → ℕ
count x [] = 0
count x (p ∷ ps) = tally x p.ref + count x ps

abbrev pub allocs : ℕ → List RxCall → ℕ
allocs x [] = 0
allocs x (pbuf_alloc_ram p ∷ cs) = tally x p + allocs x cs
allocs x (c ∷ cs) = allocs x cs

abbrev pub gone : ℕ → List RxCall → ℕ
gone x [] = 0
gone x (pbuf_free p ∷ cs) = tally x p + gone x cs
gone x (netif_input p ∷ cs) = tally x p + gone x cs
gone x (c ∷ cs) = gone x cs

pub count-append : (x : ℕ) (ps qs : List Pbuf) → count x (ps ++ qs) ≡ count x ps + count x qs
count-append x [] qs = omega arith
count-append x (p ∷ ps) qs = omega (arith, count-append x ps qs)

pub record IsRing (r : Rx) : Type 0 where
  pub free : r.rx_free_descs ≤ 8
  pub get : r.rx_get_idx < 8
  pub next : r.rx_next_idx ≡ walk (8 - r.rx_free_descs) r.rx_get_idx

-- A pbuf joins the queue behind the others.
pub record IsQueued (p : Pbuf) (r r' : Rx) : Type 0 where
  pub ring : IsRing r'
  pub free : r'.rx_free_descs + 1 ≡ r.rx_free_descs
  pub content : queued r' ≡ queued r ++ (p ∷ [])
  pub calls : r'.calls ≡ r.calls

pub lpc_rxqueue_pbuf-IsQueued :
    (p : Pbuf) (r : Rx) → IsRing r → 0 < r.rx_free_descs → IsQueued p r (lpc_rxqueue_pbuf p r)
unfolding lpc_rxqueue_pbuf
lpc_rxqueue_pbuf-IsQueued p r ring some_free =
    let less : 8 - r.rx_free_descs < 8 = omega (arith, ring.free) in
    let free : (lpc_rxqueue_pbuf p r).rx_free_descs + 1 ≡ r.rx_free_descs =
      omega (arith, ring.free) in
    let in_use : 8 - (lpc_rxqueue_pbuf p r).rx_free_descs ≡ suc (8 - r.rx_free_descs) =
      omega (arith, ring.free) in
    record {
      ring = record {
        free = omega (arith, ring.free);
        get = ring.get;
        next =
            ap (next_idx 8) ring.next
            ∙ next-walk (8 - r.rx_free_descs) r.rx_get_idx
            ∙ ap (λ n. walk n r.rx_get_idx) (sym in_use);
      };
      free = free;
      content =
          ap₂ (λ i n. window (set r.rxpbufs i p) r.rx_get_idx n) ring.next in_use
          ∙ window-set_end r.rxpbufs p (8 - r.rx_free_descs) r.rx_get_idx ring.get less;
      calls = refl;
    }

-- What `lpc_rx_queue` leaves: the pbufs that it allocated are in the ring, and it stopped because the
-- ring is full or there is no memory.
pub record IsRefilled (env : Env) (r r' : Rx) : Type 0 where
  pub ring : IsRing r'
  pub less : r'.rx_free_descs ≤ r.rx_free_descs
  pub stop : (r'.rx_free_descs ≡ 0) ⊎ (env.pbuf_alloc r'.calls ≡ none)
  pub took :
      (x : ℕ) → allocs x r'.calls + count x (queued r) ≡ allocs x r.calls + count x (queued r')
  pub gave : (x : ℕ) → gone x r'.calls ≡ gone x r.calls

pub rx_queue_loop-IsRefilled :
    (fuel : ℕ) (env : Env) (q : ℕ) (r : Rx)
    → r.rx_free_descs < fuel
    → IsRing r
    → (q' : ℕ) × (r' : Rx) × (rx_queue_loop fuel env q r ≡ some (q', r'))
      × (q' + r'.rx_free_descs ≡ q + r.rx_free_descs)
      × IsRefilled env r r'
unfolding rx_queue_loop
rx_queue_loop-IsRefilled zero env q r enough ring = absurd (omega arith)
rx_queue_loop-IsRefilled (suc fuel) env q r enough ring =
    elim (Bool-cases (ltb 0 r.rx_free_descs)) [
      | inr full ↦ (
        q,
        r,
        rw (full, rx_queue_loop) refl,
        refl,
        record {
          ring = ring;
          less = omega arith;
          stop = inl (ground arith);
          took = λ x. refl;
          gave = λ x. refl;
        },
      )
      | inl more ↦ elim (Option-cases (env.pbuf_alloc r.calls)) [
        | inl empty ↦ (
          q,
          r,
          rw (more, empty, rx_queue_loop) refl,
          refl,
          record {
            ring = ring;
            less = omega arith;
            stop = inr empty;
            took = λ x. refl;
            gave = λ x. refl;
          },
        )
        | inr (p, e) ↦
            let r₁ = log (pbuf_alloc_ram p.ref) r in
            let ring₁ : IsRing r₁ = record { free = ring.free; get = ring.get; next = ring.next } in
            let one = lpc_rxqueue_pbuf-IsQueued p r₁ ring₁ (ground arith) in
            let (q', r', ends, sum, h) =
              rx_queue_loop-IsRefilled fuel env (q + 1) (lpc_rxqueue_pbuf p r₁)
                (omega (arith, one.free)) one.ring in
            (
              q',
              r',
              rw (more, e, rx_queue_loop) ends,
              omega (arith, sum, one.free),
              record {
                ring = h.ring;
                less = omega (arith, h.less, one.free);
                stop = h.stop;
                took = λ x. omega (
                  arith,
                  h.took x,
                  ap (count x) one.content,
                  count-append x (queued r) (p ∷ []),
                  ap (allocs x) one.calls,
                );
                gave = λ x. h.gave x ∙ ap (gone x) one.calls;
              },
            )
      ]
    ]
