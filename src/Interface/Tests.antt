-- ===== src/Interface/Tests.antt =====
-- Opening a device on a sample driver.
use vpnd.Base.{true, none, [], ◌∷◌}
use vpnd.PeerNet.Sample.{daemon_with, member}
use vpnd.Daemon.{Daemon}
use vpnd.Interface.{tuntap_open}
use vpnd.Interface.Sample.{sample_driver}
use vpnd.Interface.Opening.{Opened, tuntap_open-Opened}

abbrev no_device : Daemon
no_device = record (daemon_with member []) { if_fd = none; fds = 3 ∷ [] }

tuntap_open-Opened_example :
    Opened sample_driver
      (118 ∷ [])
      true
      no_device
      (tuntap_open sample_driver (118 ∷ []) true no_device)
tuntap_open-Opened_example = tuntap_open-Opened sample_driver (118 ∷ []) true no_device
