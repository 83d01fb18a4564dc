-- ===== src/Common/Net.antt =====
-- What the code uses of Go's package net: addresses, networks, and their parsers.
use mathlib.Core.Bool.{Bool}
use mathlib.Core.Option.{Option}
use ravenguard.Common.Text.{Bytes}

pub record Net : Type 1 where
  pub Ip : Type 0
  pub Cidr : Type 0
  -- net.ParseIP and net.ParseCIDR; nil and an error are none.
  pub parse_ip : Bytes → Option Ip
  pub parse_cidr : Bytes → Option Cidr
  -- The host of net.SplitHostPort.
  pub split_host : Bytes → Option Bytes
  -- The network of one address, with a mask of 32 bits or of 128.
  pub host_net : Ip → Cidr
  -- net.IPNet.Contains
  pub holds : Cidr → Ip → Bool
  -- net.IP.String
  pub show : Ip → Bytes
