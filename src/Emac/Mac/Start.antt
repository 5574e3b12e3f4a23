-- ===== src/Emac/Mac/Start.antt =====
-- The driver after `lpc_enetif_init`, and its interrupts.
use rtu_com.Common.{
  All, length, ℕ, ◌<◌, ◌≡◌, refl, List, [], ◌∷◌, Bool, true, false, ◌||◌, none, some, arith,
}
use rtu_com.Emac.Tx.Runs as TxRuns
use rtu_com.Emac.Rx
use rtu_com.Emac.Tx.{lpc_tx_setup}
use rtu_com.Link.Setup.{Thread, default_thread_prio}
use rtu_com.SysArch as SysArch
use rtu_com.Emac.Mac.Tasks.{
  Created, Tasks, create_tasks, lpc_enetif_init, receive_thread, txclean_thread, tcpip_thread_prio,
}
use rtu_com.Emac.Rx.Sound as RxSound
use rtu_com.Emac.Mac.{
  Emac, err_ok, Netif, DmaStat, low_level_init, start_mac, init_netif, init_interface,
  eth_irq_handler, initial_mac_config,
}

-- What `lpc_enetif_init` leaves where it returns ERR_OK.
pub record IsStarted (n : Netif) (e : Emac) (ts : Tasks) : Type 0 where
  pub tx : TxRuns.IsSound (record { tx = e.tx; waiting = none })
  pub rx : RxSound.IsSound none e.rx
  pub receives : e.mac_config.re ≡ true
  pub transmits : e.mac_config.te ≡ true
  pub interrupts : e.int_enabled ≡ true
  pub outputs : n.has_outputs ≡ true
  -- Nothing is sent before the link monitor reports the link.
  pub link_down : n.flag_link_up ≡ false
  -- As many counts as free descriptors; both tasks wait for their first interrupt.
  pub count : ts.count ≡ e.tx.tx_free_descs
  pub unlocked : ts.mutex ≡ true
  pub rx_waits : ts.rx_sem ≡ false
  pub tx_waits : ts.tx_sem ≡ false
  pub two : length ts.threads ≡ 2
  -- Both run above the thread that serves the HMI and below that of lwIP.
  pub tasks :
      All (λ (t : Thread). (default_thread_prio < t.prio) × (t.prio < tcpip_thread_prio)) ts.threads

abbrev pub all_created : Created
all_created = record {
  count_sem = true;
  mutex = true;
  rx_sem = true;
  rx_task = true;
  tx_sem = true;
  tx_task = true;
}

init_interface-IsSound :
    (fuel : ℕ) (env : Rx.Env) (mac_addr : List ℕ) (n : Netif) (e : Emac)
    → 8 < fuel
    → e.rx.calls ≡ []
    → (rx : Rx.Rx) × (init_interface fuel env true mac_addr n e
        ≡ some (
          err_ok,
          record (init_netif mac_addr n) { has_outputs = true },
          start_mac (record e { mac_config = initial_mac_config; promiscuous = true }) rx,
        ))
      × RxSound.IsSound none rx
unfolding init_interface low_level_init
init_interface-IsSound fuel env mac_addr n e enough rx_new =
    let (rx, ends, sound) = RxSound.lpc_rx_setup-IsSound fuel env e.rx enough rx_new in
    (rx, rw (ends, low_level_init, init_interface) refl, sound)

-- Where the PHY starts and the semaphores and tasks can be created, `lpc_enetif_init` returns ERR_OK,
-- whatever memory there is for receive buffers: both rings are sound, the MAC runs, the link is
-- reported down, the count of the semaphore is that of the free descriptors, and the two tasks wait,
-- above the thread that serves the HMI and below that of lwIP.
pub lpc_enetif_init-IsStarted :
    (fuel : ℕ) (env : Rx.Env) (mac_addr : List ℕ) (n : Netif) (e : Emac)
    → 8 < fuel
    → e.tx.calls ≡ []
    → e.rx.calls ≡ []
    → (n' : Netif) × (e' : Emac) × (ts : Tasks) × (lpc_enetif_init fuel env true all_created
          mac_addr n e
        ≡ some (err_ok, n', e', some ts))
      × IsStarted n' e' ts
unfolding lpc_enetif_init create_tasks start_mac init_netif SysArch.sys_mutex_new
    SysArch.sys_sem_new lpc_tx_setup
lpc_enetif_init-IsStarted fuel env mac_addr n e enough tx_new rx_new =
    let (rx, ends, sound) = init_interface-IsSound fuel env mac_addr n e enough rx_new in
    (
      record (init_netif mac_addr n) { has_outputs = true },
      start_mac (record e { mac_config = initial_mac_config; promiscuous = true }) rx,
      record {
        count = 8;
        mutex = true;
        rx_sem = false;
        tx_sem = false;
        threads = receive_thread ∷ txclean_thread ∷ [];
      },
      rw (ends, lpc_enetif_init) refl,
      record {
        tx = TxRuns.Run-IsSound e.tx tx_new TxRuns.Run.here;
        rx = record {
          ring = record { free = sound.ring.free; get = sound.ring.get; next = sound.ring.next };
          conserved = sound.conserved;
        };
        receives = refl;
        transmits = refl;
        interrupts = refl;
        outputs = refl;
        link_down = refl;
        count = refl;
        unlocked = refl;
        rx_waits = refl;
        tx_waits = refl;
        two = refl;
        tasks = ((omega arith, omega arith), ((omega arith, omega arith), tt));
      },
    )

abbrev pub rx_bits : DmaStat → Bool
rx_bits s = s.ri || s.ovf || s.ru

abbrev pub tx_bits : DmaStat → Bool
tx_bits s = s.ti || s.unf || s.tu

-- No event is lost: whatever bits were up and come up while the handler runs, a receive event has woken
-- the receive task or is still pending, a transmit event has woken the clean-up task or is still
-- pending, and neither task is woken or left pending without an event.
pub eth_irq_handler_events :
    (ints later : DmaStat)
    → let (wake_rx, wake_tx, stat) = eth_irq_handler ints later in
      ((wake_rx || rx_bits stat) ≡ (rx_bits ints || rx_bits later))
      × ((wake_tx || tx_bits stat) ≡ (tx_bits ints || tx_bits later))
unfolding eth_irq_handler
eth_irq_handler_events ints later = (ground arith, ground arith)
