-- ===== src/Emac/Rx.antt =====
-- The receiving half of lwip/src/arch/lpc18xx_43xx_emac.c: `lpc_rx_setup`, `lpc_rx_queue`,
-- `lpc_low_level_input` and `lpc_enetif_input`. A status word is the record of the bits that the driver
-- tests, with the frame length. What `pbuf_alloc` and `netif->input` answer is a function of the calls
-- so far (`Env`).
pub mod Queue
pub mod Sound
pub mod Runs
pub mod Errors
pub mod Task
use rtu_com.Common.{
  ℕ, zero, suc, ◌+◌, ◌-◌, ◌%◌, ◌^◌, List, [], ◌∷◌, Bool, true, false, not, ◌&&◌, ◌||◌, ltb, ◌==◌,
  if◌then◌else◌, Option, none, some,
}
use rtu_com.Emac.{num_buff_rxdescs, next_idx}
use rtu_com.Emac.Ring.{set}

-- A `struct pbuf` of one piece.
pub record Pbuf : Type 0 where
  pub ref : ℕ
  pub payload : ℕ
  pub len : ℕ

-- The bits of STATUS, RDES_OWN and so on, and RDES_FLMSK.
pub record RxStatus : Type 0 where
  pub own : Bool
  pub es : Bool
  pub le : Bool
  pub ft : Bool
  pub ce : Bool
  pub ls : Bool
  pub de : Bool
  pub re : Bool
  pub rwt : Bool
  pub lc : Bool
  pub oe : Bool
  pub saf : Bool
  pub afm : Bool
  pub frame_len : ℕ

-- `RDES_OWN`, with all other bits 0; and `memset` to 0.
abbrev pub only_own : Bool → RxStatus
only_own b = record {
  own = b;
  es = false;
  le = false;
  ft = false;
  ce = false;
  ls = false;
  de = false;
  re = false;
  rwt = false;
  lc = false;
  oe = false;
  saf = false;
  afm = false;
  frame_len = 0;
}

-- `ENET_ENHRXDESC_T`.
pub record RxDesc : Type 0 where
  pub status : RxStatus
  pub rch : Bool  -- RDES_ENH_RCH
  pub rer : Bool  -- RDES_ENH_RER
  pub bs1 : ℕ  -- RDES_ENH_BS1
  pub b1add : ℕ
  pub b2add : ℕ  -- the index of the descriptor that it points to

pub data RxCall : Type 0 where
  pbuf_alloc_ram : ℕ → RxCall
  pbuf_free : ℕ → RxCall
  netif_input : ℕ → RxCall  -- with ERR_OK
  netif_input_err : ℕ → RxCall
  poll_demand : RxCall

-- The receiving fields of `struct lpc_enetdata`, and the calls so far, the last call first.
pub record Rx : Type 0 where
  pub prdesc : ℕ → RxDesc
  pub rxpbufs : ℕ → Pbuf
  pub rx_free_descs : ℕ
  pub rx_get_idx : ℕ
  pub rx_next_idx : ℕ
  pub calls : List RxCall

-- The answers of `pbuf_alloc` and of `netif->input` after the calls so far, and the type field of
-- the frame in a pbuf, in host order.
pub record Env : Type 0 where
  pub pbuf_alloc : List RxCall → Option Pbuf
  pub input_ok : List RxCall → Bool
  pub eth_type : List RxCall → ℕ

abbrev pub log : RxCall → Rx → Rx
log c r = record r { calls = c ∷ r.calls }

unfoldable pub lpc_rxqueue_pbuf : Pbuf → Rx → Rx
lpc_rxqueue_pbuf p r =
    let idx = r.rx_next_idx in
    let d = r.prdesc idx in
    let d' = record d {
      status = only_own true;
      rch = true;
      rer = idx == num_buff_rxdescs - 1;
      bs1 = p.len;
      b1add = p.payload;
    } in
    record r {
      rxpbufs = set r.rxpbufs idx p;
      prdesc = set r.prdesc idx d';
      rx_free_descs = (r.rx_free_descs + 2 ^ 32 - 1) % 2 ^ 32;
      rx_next_idx = next_idx num_buff_rxdescs idx;
    }

-- The loop of `lpc_rx_queue`, with fuel: how many pbufs it queued; `none` is a loop that has not ended.
unfoldable pub rx_queue_loop : ℕ → Env → ℕ → Rx → Option (ℕ × Rx)
rx_queue_loop zero env queued r = none
rx_queue_loop (suc fuel) env queued r = elim (ltb 0 r.rx_free_descs) [
  | false ↦ some (queued, r)
  | true ↦ elim (env.pbuf_alloc r.calls) [
    | none ↦ some (queued, r)
    | some p ↦
        rx_queue_loop fuel env (queued + 1) (lpc_rxqueue_pbuf p (log (pbuf_alloc_ram p.ref) r))
  ]
]

abbrev pub lpc_rx_queue : ℕ → Env → Rx → Option (ℕ × Rx)
lpc_rx_queue fuel env r = rx_queue_loop fuel env 0 r

-- A descriptor as `lpc_rx_setup` links it.
abbrev pub setup_desc : ℕ → RxDesc
setup_desc idx = record {
  status = only_own false;
  rch = true;
  rer = idx == num_buff_rxdescs - 1;
  bs1 = 0;
  b1add = 0;
  b2add = if idx == num_buff_rxdescs - 1 then 0 else idx + 1;
}

abbrev pub empty_ring : Rx → Rx
empty_ring r = record r {
  prdesc = setup_desc;
  rx_free_descs = num_buff_rxdescs;
  rx_get_idx = 0;
  rx_next_idx = 0;
}

-- It returns ERR_OK; a warning is all that a short queue brings.
unfoldable pub lpc_rx_setup : ℕ → Env → Rx → Option Rx
unfolding rx_queue_loop
lpc_rx_setup fuel env r = elim (lpc_rx_queue fuel env (empty_ring r)) [
  | none ↦ none
  | some (queued, r') ↦ some r'
]

-- `status & intMask`, as `low_level_init` sets it: RDES_DE is in it only with USE_RMII.
abbrev pub in_mask : Bool → RxStatus → Bool
in_mask use_rmii s = s.ce || (use_rmii && s.de) || s.re || s.rwt || s.lc || s.oe || s.saf || s.afm

-- `rxerr`; the third argument is the bit MAC_CFG_DM of MAC_CONFIG.
unfoldable pub rx_error : Bool → RxStatus → Bool → Bool
rx_error use_rmii s full_duplex =
    if s.es
    then (let err₁ =
          if in_mask use_rmii s
          then true
          else (if s.le && not s.ft then true else (if s.ce && s.ls then true else false)) in
        if s.de && s.ls then true else (if s.de && not full_duplex then true else err₁))
    else false

-- `lpc_low_level_input`: the pbuf that it returns, if any.
unfoldable pub lpc_low_level_input : ℕ → Env → Bool → Bool → Rx → Option (Option Pbuf × Rx)
unfolding rx_queue_loop lpc_rxqueue_pbuf rx_error
lpc_low_level_input fuel env use_rmii full_duplex r = elim (r.rx_free_descs == num_buff_rxdescs) [
  | true ↦ elim (lpc_rx_queue fuel env r) [ none ↦ none | some (queued, r') ↦ some (none, r') ]
  | false ↦
      let ridx = r.rx_get_idx in
      let status = (r.prdesc ridx).status in
      let p = r.rxpbufs ridx in
      let r₁ = record r {
        rx_free_descs = (r.rx_free_descs + 1) % 2 ^ 32;
        rx_get_idx = next_idx num_buff_rxdescs ridx;
      } in
      elim status.own [
        | true ↦ some (none, r)
        | false ↦ elim (rx_error use_rmii status full_duplex) [
          | true ↦ some (none, log poll_demand (lpc_rxqueue_pbuf p r₁))
          | false ↦ elim (lpc_rx_queue fuel env r₁) [
            | none ↦ none
            | some (queued, r₂) ↦
                some (some (record p { len = status.frame_len % 2 ^ 16 }), log poll_demand r₂)
          ]
        ]
      ]
]

abbrev pub ethtype_ip : ℕ
ethtype_ip = 0x0800

abbrev pub ethtype_arp : ℕ
ethtype_arp = 0x0806

-- The switch of `lpc_enetif_input` over the type of a received frame; PPPOE_SUPPORT is 0.
unfoldable pub dispatch : Env → Pbuf → Rx → Rx
dispatch env p r =
    if env.eth_type r.calls == ethtype_ip || env.eth_type r.calls == ethtype_arp
    then (if env.input_ok r.calls
        then log (netif_input p.ref) r
        else log (pbuf_free p.ref) (log (netif_input_err p.ref) r))
    else log (pbuf_free p.ref) r

abbrev pub dispatch_received : Env → Option Pbuf → Rx → Rx
dispatch_received env none r = r
dispatch_received env (some p) r = dispatch env p r

unfoldable pub lpc_enetif_input : ℕ → Env → Bool → Bool → Rx → Option Rx
unfolding lpc_low_level_input dispatch
lpc_enetif_input fuel env use_rmii full_duplex r =
    elim (lpc_low_level_input fuel env use_rmii full_duplex r) [
      | none ↦ none
      | some (p, r') ↦ some (dispatch_received env p r')
    ]
