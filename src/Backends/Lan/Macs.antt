-- ===== src/Backends/Lan/Macs.antt =====
-- The MAC addresses of a host section that has several of them.
use foris_controller.Prelude.{String, ◌≡◌, true, upper, without}
use foris_controller.Backends.Lan.{strip_space}

-- A MAC address as it is kept: in capitals and without a space.
pub record IsMac (mac : String) : Type 0 where
  pub plain : without 32 mac ≡ true
  pub same : upper (strip_space mac) ≡ mac
