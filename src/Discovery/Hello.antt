-- ===== src/Discovery/Hello.antt =====
-- cluster_discovery_server.go: Hello.
use dockyards_talos.Base.{ℕ, String, ◌≡◌, refl, ap, Option, none, some}
use dockyards_talos.Base.Result.{Result, ok, ◌>>=◌, or_fail}

-- The package net, as far as the call uses it: the host of an "ip:port", and the parsed address.
pub record Net : Type 1 where
  pub Ip : Type 0
  pub split_host_port : String → Option String
  pub parse_ip : String → Option Ip

module _ (net : Net) where
  -- An address by its type, with the IP that it holds, which may be `nil`, or any other type of
  -- address with its text.
  pub data Addr : Type 0 where
    tcp_addr udp_addr ip_addr : Option net.Ip → Addr
    other_addr : String → Addr

  pub data HelloError : Type 0 where
    no_client_ip unparsed_client_ip : HelloError

  -- `if host, _, err := net.SplitHostPort(…); err == nil { … } else { … }`
  unfoldable pub host_or_text : Option String → String → String
  host_or_text none text = text
  host_or_text (some host) text = host

  unfoldable pub client_ip : Addr → Option net.Ip
  client_ip (tcp_addr ip) = ip
  client_ip (udp_addr ip) = ip
  client_ip (ip_addr ip) = ip
  client_ip (other_addr text) = net.parse_ip (host_or_text (net.split_host_port text) text)

  -- The client's address that is answered, for the peer of the context, if it has one, which may
  -- be `nil` or have a `nil` address.
  unfoldable pub hello : Option (Option (Option Addr)) → Result HelloError net.Ip
  hello context = do
    p ← or_fail context no_client_ip
    peer ← or_fail p no_client_ip
    addr ← or_fail peer no_client_ip
    or_fail (client_ip addr) unparsed_client_ip

  -- `JoinHostPort` and `IP.String` read back.
  pub record Prints : Type 0 where
    pub join_host_port : String → ℕ → String
    pub ip_string : net.Ip → String
    pub splits :
        (host : String) (port : ℕ) → net.split_host_port (join_host_port host port) ≡ some host
    pub unsplit : (ip : net.Ip) → net.split_host_port (ip_string ip) ≡ none
    pub parses : (ip : net.Ip) → net.parse_ip (ip_string ip) ≡ some ip

  client_ip-with_port :
      (t : Prints) (ip : net.Ip) (port : ℕ)
      → client_ip (other_addr (t.join_host_port (t.ip_string ip) port)) ≡ some ip
  unfolding client_ip host_or_text
  client_ip-with_port t ip port = rw (t.splits (t.ip_string ip) port, client_ip) (t.parses ip)

  client_ip-bare : (t : Prints) (ip : net.Ip) → client_ip (other_addr (t.ip_string ip)) ≡ some ip
  unfolding client_ip host_or_text
  client_ip-bare t ip = rw (t.unsplit ip, client_ip) (t.parses ip)

  answered :
      (addr : Addr) (ip : net.Ip)
      → client_ip addr ≡ some ip
      → hello (some (some (some addr))) ≡ ok ip
  unfolding hello
  answered addr ip e = ap (λ o. or_fail o unparsed_client_ip) e

  -- The answer for one address, which the peer holds, or which its text gives.
  pub hello-same :
      (t : Prints) (ip : net.Ip) (port : ℕ)
      → (hello (some (some (some (tcp_addr (some ip))))) ≡ ok ip)
        × (hello (some (some (some (udp_addr (some ip))))) ≡ ok ip)
        × (hello (some (some (some (ip_addr (some ip))))) ≡ ok ip)
        × (hello (some (some (some (other_addr (t.join_host_port (t.ip_string ip) port))))) ≡ ok ip)
        × (hello (some (some (some (other_addr (t.ip_string ip))))) ≡ ok ip)
  unfolding hello client_ip host_or_text
  hello-same t ip port = (
    refl,
    refl,
    refl,
    answered (other_addr (t.join_host_port (t.ip_string ip) port)) ip
        (client_ip-with_port t ip port),
    answered (other_addr (t.ip_string ip)) ip (client_ip-bare t ip),
  )
