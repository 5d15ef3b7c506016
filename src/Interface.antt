-- ===== src/Interface.antt =====
-- The TUN/TAP device: `tuntap_open` and `tuntap_close` of src/interface.c. The driver is a parameter.
-- `if_fd`, `if_tap` and `devname` are fields of the daemon; the mutex of the device has no field.
pub mod Opening
pub mod Sample
mod Tests
use vpnd.Base.{
  ℕ, zero, suc, ◌≡◌, Bool, true, false, Option, none, some, List, take, ◌∷◌, if◌then◌else◌,
}
use vpnd.Daemon.{Daemon}
use vpnd.Daemon.Descriptors.{is_open, called, positive, opened, close}

pub record Driver : Type 0 where
  -- `open("/dev/net/tun", O_RDWR)`, by the number of calls made before and the open descriptors
  pub open_tun : ℕ → List ℕ → Option ℕ
  pub open_tun_new :
      (n : ℕ) (fds : List ℕ) (fd : ℕ) → open_tun n fds ≡ some fd → is_open fd fds ≡ false
  -- `ioctl` with `TUNSETIFF`: the name that the device gets, if the call succeeds
  pub tunsetiff : ℕ → ℕ → Bool → List ℕ → Option (List ℕ)

-- `IFNAMSIZ - 1`
abbrev pub name_max : ℕ
name_max = 15

-- The test is `if_fd > 0`.
abbrev pub close_device : Daemon → Option ℕ → Daemon
close_device d none = d
close_device d (some zero) = d
close_device d (some (suc n)) = record (close (suc n) d) { if_fd = none }

unfoldable pub tuntap_close : Daemon → Daemon
tuntap_close d = close_device d d.if_fd

-- The new descriptor is configured, or closed. With the descriptor comes the name that is copied over
-- `dev`.
unfoldable pub configure : Driver → List ℕ → Bool → ℕ → Daemon → Option (ℕ × List ℕ) × Daemon
configure driver dev tap_mode fd d =
    elim (driver.tunsetiff d.net.calls fd tap_mode (take name_max dev)) [
      | none ↦ (none, close fd (called d))
      | some name ↦ (
        some (fd, name),
        record (called d) { if_fd = some fd; if_tap = tap_mode; devname = name },
      )
    ]

-- The descriptor and what `dev` then holds, or `none` for the return of -1, which leaves `dev`.
unfoldable pub tuntap_open : Driver → List ℕ → Bool → Daemon → Option (ℕ × List ℕ) × Daemon
tuntap_open driver dev tap_mode d =
    if positive d.if_fd then (none, d) else elim (driver.open_tun d.net.calls d.fds) [
      | none ↦ (none, called d)
      | some fd ↦ configure driver dev tap_mode fd (opened fd d)
    ]
