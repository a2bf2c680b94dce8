-- ===== src/Timestamping/Setup.antt =====
-- The functions of lancet/agents/timestamping.c that switch on the timestamps of the network card.
use kata_load_test.Base.{
  ℕ, Bool, ◌||◌, List, [], ◌∷◌, ◌++◌, length, ltb, if◌then◌else◌, Outcome, ok, bad_access, ◌>>◌,
  require,
}
use kata_load_test.Base.Int.{ℤ, pos, negsuc, ltb_ℤ}

-- The values that the code uses of linux/net_tstamp.h.
pub data RxFilter : Type 0 where
  hwtstamp_filter_all hwtstamp_filter_none : RxFilter

pub data TxType : Type 0 where
  hwtstamp_tx_on hwtstamp_tx_off : TxType

pub data TimestampingFlag : Type 0 where
  rx_hardware raw_hardware tx_hardware opt_tsonly opt_id : TimestampingFlag

-- `struct hwtstamp_config`, and the `struct ifreq` that points to it.
pub record HwtstampConfig : Type 0 where
  pub flags : ℕ
  pub tx_type : TxType
  pub rx_filter : RxFilter

pub record Ifreq : Type 0 where
  pub ifr_name : List ℕ
  pub ifr_data : HwtstampConfig

-- The length of `ifr_name`, IFNAMSIZ.
abbrev pub name_size : ℕ
name_size = 16

-- Whether an int is not 0.
abbrev pub is_nonzero : ℤ → Bool
is_nonzero n = ltb_ℤ n (pos 0) || ltb_ℤ (pos 0) n

-- `ioctl` is what ioctl returns for SIOCSHWTSTAMP; the name is without its NUL.
unfoldable pub set_timestamping_filter :
    (ℤ → Ifreq → ℤ) → ℤ → List ℕ → RxFilter → TxType → Outcome ℤ
set_timestamping_filter ioctl fd if_name rx_filter tx_type = do
  require (ltb (length if_name) name_size) bad_access
  let config : HwtstampConfig = record { flags = 0; tx_type = tx_type; rx_filter = rx_filter }
  ok (
      if is_nonzero (ioctl fd (record { ifr_name = if_name; ifr_data = config }))
      then negsuc 0
      else pos 0)

-- `fd` is what socket gives.
unfoldable pub enable_nic_timestamping : (ℤ → Ifreq → ℤ) → ℤ → List ℕ → Outcome ℤ
unfolding set_timestamping_filter
enable_nic_timestamping ioctl fd if_name =
    set_timestamping_filter ioctl fd if_name hwtstamp_filter_all hwtstamp_tx_on

unfoldable pub disable_nic_timestamping : (ℤ → Ifreq → ℤ) → ℤ → List ℕ → Outcome ℤ
unfolding set_timestamping_filter
disable_nic_timestamping ioctl fd if_name =
    set_timestamping_filter ioctl fd if_name hwtstamp_filter_none hwtstamp_tx_off

abbrev pub ts_mode : List TimestampingFlag
ts_mode = (rx_hardware ∷ raw_hardware ∷ tx_hardware ∷ []) ++ opt_tsonly ∷ opt_id ∷ []

-- `setsockopt` is what it returns for SO_TIMESTAMPING with these flags.
unfoldable pub sock_enable_timestamping : (ℤ → List TimestampingFlag → ℤ) → ℤ → ℤ
sock_enable_timestamping setsockopt fd =
    if ltb_ℤ (setsockopt fd ts_mode) (pos 0) then negsuc 0 else pos 0
