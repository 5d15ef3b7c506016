-- ===== src/Interface/Opening.antt =====
-- Opening and closing the device: `tuntap_open` and `tuntap_close` of src/interface.c.
use vpnd.Base.{
  ◌+◌, ℕ, zero, suc, ◌≡◌, refl, ap, ◌∙◌, Bool, true, false, Option, none, some, List, ◌∷◌, take,
  if◌then◌else◌,
}
use vpnd.Daemon.{Daemon}
use vpnd.Daemon.Descriptors.{closed, close_new, is_open, called, positive, opened, close}
use vpnd.Interface.{Driver, tuntap_close, configure, tuntap_open}

-- The daemon after calls of the system that changed nothing of it.
abbrev counted : ℕ → Daemon → Daemon
counted zero d = d
counted (suc n) d = called (counted n d)

-- What `tuntap_open` comes to. The calls are the open, as call `d.net.calls`, and the `ioctl` behind it.
abbrev pub Opened : Driver → List ℕ → Bool → Daemon → Option (ℕ × List ℕ) × Daemon → Type 0
Opened driver dev tap_mode d (none, d') =
    if positive d.if_fd then d' ≡ d else ((n : ℕ) × (d' ≡ counted n d))
Opened driver dev tap_mode d (some (fd, name), d') =
    (positive d.if_fd ≡ false)
    × (is_open fd d.fds ≡ false)
    × (driver.open_tun d.net.calls d.fds ≡ some fd)
    × (driver.tunsetiff (d.net.calls + 1) fd tap_mode (take 15 dev) ≡ some name)
    × (d' ≡ record (counted 2 d) {
      fds = fd ∷ d.fds;
      if_fd = some fd;
      if_tap = tap_mode;
      devname = name;
    })
    × (positive (some fd) ≡ true
        → ((tuntap_close d').fds ≡ d.fds) × ((tuntap_close d').if_fd ≡ none))

close_opened :
    (fd : ℕ) (fds : List ℕ) (d : Daemon)
    → is_open fd fds ≡ false
    → d.fds ≡ fd ∷ fds
    → d.if_fd ≡ some fd
    → positive (some fd) ≡ true
    → ((tuntap_close d).fds ≡ fds) × ((tuntap_close d).if_fd ≡ none)
unfolding tuntap_close
close_opened zero fds d new at device positive = cc
close_opened (suc n) fds d new at device positive =
    rw device (ap (closed (suc n)) at ∙ close_new (suc n) fds new, refl)

-- When a device is open, `tuntap_open` returns -1 and changes nothing. When it fails otherwise, the
-- daemon is as before, its open descriptors too, but for the number of calls that were made. When it
-- succeeds, then `open` gave a descriptor that was not open before, `ioctl` was asked for a device in the
-- mode wanted under the first 15 bytes of the name wanted, and the name that it gave is what `dev` and
-- `devname` hold; the descriptor is the device in that mode, nothing else of the daemon changes, and
-- `tuntap_close` takes both back if the descriptor is not 0.
pub tuntap_open-Opened :
    (driver : Driver) (dev : List ℕ) (tap_mode : Bool) (d : Daemon)
    → Opened driver dev tap_mode d (tuntap_open driver dev tap_mode d)
unfolding tuntap_open configure
tuntap_open-Opened driver dev tap_mode d =
    choose (positive d.if_fd) refl (driver.open_tun d.net.calls d.fds) refl
  where
    Result : Type 0
    Result = Option (ℕ × List ℕ) × Daemon

    configured :
        (fd : ℕ) (o : Option (List ℕ))
        → driver.tunsetiff (d.net.calls + 1) fd tap_mode (take 15 dev) ≡ o
        → positive d.if_fd ≡ false
        → driver.open_tun d.net.calls d.fds ≡ some fd
        → Opened driver dev tap_mode d (elim o as (λ x. Result) [
          | none ↦ (none, close fd (called (opened fd d)))
          | some name ↦ (
            some (fd, name),
            record (called (opened fd d)) { if_fd = some fd; if_tap = tap_mode; devname = name },
          )
        ])
    configured fd none asked free got = rw free (
      2,
      ap (λ (fds : List ℕ). record (counted 2 d) { fds = fds })
          (close_new fd d.fds (driver.open_tun_new d.net.calls d.fds fd got)),
    )
    configured fd (some name) asked free got =
        let new = driver.open_tun_new d.net.calls d.fds fd got in
        (free, new, got, asked, refl, close_opened fd d.fds _ new refl refl)

    choose :
        (b : Bool)
        → positive d.if_fd ≡ b
        → (o : Option ℕ) → driver.open_tun d.net.calls d.fds ≡ o
        → Opened driver dev tap_mode d (
            if b then (none, d) else elim o as (λ x. Result) [
              | none ↦ (none, called d)
              | some fd ↦ configure driver dev tap_mode fd (opened fd d)
            ])
    choose true taken o h = rw taken refl
    choose false free none h = rw free (1, refl)
    choose false free (some fd) h =
        configured fd (driver.tunsetiff (called d).net.calls fd tap_mode (take 15 dev)) refl free h
