-- ===== src/Tests/Data.antt =====
-- A concrete instance of net/netip, for the tests of internal/routes and of the controller.
use dockyards_talos.Base.{String, some, false}
use dockyards_talos.Routes.Types.{Netip}

-- Addresses and prefixes that are their own text.
abbrev pub texts : Netip
texts = record {
  Addr = String;
  Prefix = String;
  parse_addr = λ s. some s;
  parse_prefix = λ s. some s;
  addr_string = λ a. a;
  prefix_string = λ p. p;
  prefix_addr = λ p. p;
  is6 = λ a. false;
  is_multicast = λ a. false;
}
