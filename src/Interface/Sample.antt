-- ===== src/Interface/Sample.antt =====
-- A driver for the device of src/interface.c that always succeeds.
use vpnd.Base.{some}
use vpnd.PeerNet.Sample.{unused, unused-new}
use vpnd.Interface.{Driver}

-- The driver gives the name that was asked for.
abbrev pub sample_driver : Driver
sample_driver = record {
  open_tun = λ n fds. some (unused fds);
  open_tun_new = λ n fds fd h. unused-new fds fd h;
  tunsetiff = λ n fd tap name. some name;
}
