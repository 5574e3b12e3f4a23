-- ===== src/Emac/Mac.antt =====
-- lwip/src/arch/lpc18xx_43xx_emac.c: the set-up of the MAC, its interrupt handler and its settings. A
-- register is the record of the bits that are written or tested, whose values are in headers of the
-- chip. NO_SYS is 0.
pub mod Tasks
pub mod Start
use rtu_com.Common.{
  ℕ, ◌+◌, ◌-◌, List, [], ◌∷◌, Bool, true, false, not, ◌&&◌, ◌||◌, if◌then◌else◌, Option, none, some,
}
use rtu_com.Emac.Tx.{Tx, lpc_tx_setup}
use rtu_com.Emac.Rx.{Rx, lpc_rx_setup}
use rtu_com.Emac.Rx

-- MAC_CONFIG.
pub record MacConfig : Type 0 where
  pub ipc : Bool
  pub dm : Bool
  pub disable_own : Bool  -- MAC_CFG_DO
  pub fes : Bool
  pub ps : Bool
  pub re : Bool
  pub te : Bool
  pub ifg : ℕ

-- DMA_OP_MODE.
pub record DmaOpMode : Type 0 where
  pub ftf : Bool
  pub rtc : ℕ
  pub ttc : ℕ
  pub st : Bool
  pub sr : Bool

-- The bits of DMA_STAT that `ETH_IRQHandler` tests.
pub record DmaStat : Type 0 where
  pub ri : Bool
  pub ovf : Bool
  pub ru : Bool
  pub ti : Bool
  pub unf : Bool
  pub tu : Bool

abbrev pub no_stat : DmaStat
no_stat = record { ri = false; ovf = false; ru = false; ti = false; unf = false; tu = false }

-- The registers and the driver's data.
pub record Emac : Type 0 where
  pub mac_config : MacConfig
  pub promiscuous : Bool  -- MAC_FF_PR and MAC_FF_RA
  pub dma_op_mode : DmaOpMode
  pub dma_stat : DmaStat
  pub int_enabled : Bool  -- the eight bits of DMA_INT_EN
  pub tx : Tx
  pub rx : Rx

-- `err_t`, with what the driver returns where the PHY does not start.
pub data Err : Type 0 where
  err_ok err_conn phy_error : Err

abbrev pub initial_mac_config : MacConfig
initial_mac_config = record {
  ipc = true;
  dm = true;
  disable_own = true;
  fes = true;
  ps = true;
  re = false;
  te = false;
  ifg = 3;
}

-- From the descriptors on.
unfoldable pub start_mac : Emac → Rx → Emac
start_mac e rx = record e {
  tx = lpc_tx_setup e.tx;
  rx = Rx.log Rx.poll_demand rx;
  dma_op_mode = record { ftf = true; rtc = 1; ttc = 0; st = true; sr = true };
  dma_stat = no_stat;
  int_enabled = true;
  mac_config = record initial_mac_config { re = true; te = true };
}

-- `low_level_init` with the answer of `lpc_phy_init`; `none` is an allocation loop that does not end.
-- IP_SOF_BROADCAST_RECV is 1.
unfoldable pub low_level_init : ℕ → Rx.Env → Bool → Emac → Option (Err × Emac)
unfolding start_mac
low_level_init fuel env phy_ok e =
    let e₁ = record e { mac_config = initial_mac_config; promiscuous = true } in
    if phy_ok
    then (elim (lpc_rx_setup fuel env e.rx) [
      | none ↦ none
      | some rx ↦ some (err_ok, start_mac e₁ rx)
    ])
    else some (phy_error, e₁)

-- Writing the bits of DMA_STAT that were read clears them.
abbrev pub clear_stat : DmaStat → DmaStat → DmaStat
clear_stat ints s = record {
  ri = s.ri && not ints.ri;
  ovf = s.ovf && not ints.ovf;
  ru = s.ru && not ints.ru;
  ti = s.ti && not ints.ti;
  unf = s.unf && not ints.unf;
  tu = s.tu && not ints.tu;
}

-- Which of RxSem and TxCleanSem `ETH_IRQHandler` gives, and the register; the second argument are the
-- bits that have come up since it was read.
unfoldable pub eth_irq_handler : DmaStat → DmaStat → Bool × Bool × DmaStat
eth_irq_handler ints later =
    let now : DmaStat = record {
      ri = ints.ri || later.ri;
      ovf = ints.ovf || later.ovf;
      ru = ints.ru || later.ru;
      ti = ints.ti || later.ti;
      unf = ints.unf || later.unf;
      tu = ints.tu || later.tu;
    } in
    (ints.ri || ints.ovf || ints.ru, ints.ti || ints.unf || ints.tu, clear_stat ints now)

unfoldable pub lpc_emac_set_duplex : Bool → Emac → Emac
lpc_emac_set_duplex full_duplex e =
    if full_duplex
    then record e { mac_config = record e.mac_config { dm = true } }
    else record e { mac_config = record e.mac_config { dm = false } }

unfoldable pub lpc_emac_set_speed : Bool → Emac → Emac
lpc_emac_set_speed mbs_100 e =
    if mbs_100
    then record e { mac_config = record e.mac_config { fes = true } }
    else record e { mac_config = record e.mac_config { fes = false } }

-- Sends with `etharp_output`, whose answer is given, only while the link is up.
unfoldable pub lpc_etharp_output : Bool → Err → Err
lpc_etharp_output link_up sent = if link_up then sent else err_conn

-- The fields of `struct netif` that `lpc_enetif_init` sets: the MAC address of the board, and the rest.
pub record Netif : Type 0 where
  pub hwaddr : List ℕ
  pub hwaddr_len : ℕ
  pub mtu : ℕ
  pub flag_broadcast : Bool
  pub flag_etharp : Bool
  pub flag_up : Bool
  pub flag_ethernet : Bool
  pub flag_link_up : Bool
  pub has_outputs : Bool  -- `output` and `linkoutput`

-- The flags are assigned, so NETIF_FLAG_LINK_UP is off.
unfoldable pub init_netif : List ℕ → Netif → Netif
init_netif mac_addr n = record n {
  hwaddr = mac_addr;
  hwaddr_len = 6;
  mtu = 1500;
  flag_broadcast = true;
  flag_etharp = true;
  flag_up = true;
  flag_ethernet = true;
  flag_link_up = false;
}

-- `lpc_enetif_init` up to `lpc_enetdata.xTXDCountSem = ...`: the outputs are set only where the hardware
-- has started.
unfoldable pub init_interface :
    ℕ → Rx.Env → Bool → List ℕ → Netif → Emac → Option (Err × Netif × Emac)
unfolding low_level_init init_netif
init_interface fuel env phy_ok mac_addr n e = elim (low_level_init fuel env phy_ok e) [
  | none ↦ none
  | some (err, e') ↦ elim err [
    | err_ok ↦ some (err_ok, record (init_netif mac_addr n) { has_outputs = true }, e')
    | other ↦ some (other, init_netif mac_addr n, e')
  ]
]
