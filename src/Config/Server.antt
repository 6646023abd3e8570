-- ===== src/Config/Server.antt =====
-- internal/config/config.go: the server's configuration and its validation.
use g_tun.Prelude.{
  ◌≤◌, ◌≡◌, refl, ◌≢◌, bytes_ne, ◌↔◌, inl, inr, Bytes, codes, bytes_eq, bytes_eq_iff,
  bytes_eq-cases, length, Bool, true, false, ◌||◌, ◌&&◌, not, Option, none, some, [], arith,
  if◌then◌else◌,
}
use g_tun.Result.{
  Result, ok, err, ◌>>◌, fail_if, >>-inv, fail_if-inv, nil_dereference, ports_equal, tls_paths,
}
use g_tun.Proto.{Name, parse, stealth, tls, udp_based, supported}
use g_tun.Proto.Classes.{IsOneOf, parse_iff}
use g_tun.Config.Kcp.{Kcp, IsUsable, validate_kcp, validate_kcp_sound, validate_kcp_complete}
use g_tun.Config.Fields.{
  IsPort, IsHostPort, validate_port, validate_host_port, validate_token, validate_port_sound,
  validate_host_port_sound, validate_token_sound, validate_port_complete,
  validate_host_port_complete, validate_token_complete,
}

pub record Server : Type 0 where
  pub control_port : Bytes
  pub data_port : Bytes
  pub protocol : Name
  pub target_address : Bytes
  pub token : Bytes
  pub tls_cert_path : Bytes
  pub tls_key_path : Bytes
  pub stealth_handshake_server : Bytes
  -- The pointer: `none` is nil.
  pub kcp : Option Kcp

-- `c.KCP.Validate()` through the pointer.
abbrev validate_pointer : Option Kcp → Result (Unit {0})
validate_pointer none = err nil_dereference
validate_pointer (some k) = validate_kcp k

-- The branch on the stealth protocol, which has no control port.
validate_entry : Server → Result (Unit {0})
validate_entry c =
    if bytes_eq c.protocol stealth
    then validate_host_port (codes "stealth_handshake_server") c.stealth_handshake_server
    else validate_port (codes "control_port") c.control_port

same_port : Server → Bool
same_port c = bytes_eq c.control_port c.data_port && not (udp_based c.protocol)

lacks_files : Server → Bool
lacks_files c = tls c.protocol && (bytes_eq c.tls_cert_path [] || bytes_eq c.tls_key_path [])

unfoldable pub validate : Server → Result (Unit {0})
unfolding validate_entry same_port lacks_files
validate c = do
  parse c.protocol
  validate_port (codes "data_port") c.data_port
  validate_entry c
  fail_if (same_port c) ports_equal
  validate_host_port (codes "xray_inbound_address") c.target_address
  validate_token c.token
  fail_if (lacks_files c) tls_paths
  validate_pointer c.kcp

-- A configuration that the server can run with.
pub record IsValid (c : Server) : Type 0 where
  pub known : IsOneOf c.protocol supported
  pub data_port : IsPort c.data_port
  pub handshake_site :
      c.protocol ≡ stealth
      → IsHostPort (codes "stealth_handshake_server") c.stealth_handshake_server
  pub control_port : c.protocol ≢ stealth → IsPort c.control_port
  pub two_ports : udp_based c.protocol ≡ false → c.control_port ≢ c.data_port
  pub target : IsHostPort (codes "xray_inbound_address") c.target_address
  pub token : 16 ≤ length c.token
  pub tls_files : tls c.protocol ≡ true → (c.tls_cert_path ≢ []) × (c.tls_key_path ≢ [])
  pub kcp : (k : Kcp) × (c.kcp ≡ some k) × IsUsable k

validate_pointer_sound :
    (p : Option Kcp) → validate_pointer p ≡ ok tt → (k : Kcp) × (p ≡ some k) × IsUsable k
validate_pointer_sound none e = cc
validate_pointer_sound (some k) e = (k, refl, validate_kcp_sound k e)

module _ (c : Server) where
  entry_site :
      validate_entry c ≡ ok tt
      → c.protocol ≡ stealth
      → IsHostPort (codes "stealth_handshake_server") c.stealth_handshake_server
  unfolding validate_entry
  entry_site e p = validate_host_port_sound _ _ (rw ((bytes_eq_iff c.protocol stealth).1 p) at e)

  entry-IsPort : validate_entry c ≡ ok tt → c.protocol ≢ stealth → IsPort c.control_port
  unfolding validate_entry
  entry-IsPort e ne = validate_port_sound _ _ (rw (bytes_ne c.protocol stealth ne) at e)

  entry_complete : IsValid c → validate_entry c ≡ ok tt
  unfolding validate_entry
  entry_complete v = elim (bytes_eq-cases c.protocol stealth) [
    | inl (e, p) ↦ rw e (validate_host_port_complete _ _ (v.handshake_site p))
    | inr (e, ne) ↦ rw e (validate_port_complete _ _ (v.control_port ne))
  ]

  ports_sound : same_port c ≡ false → udp_based c.protocol ≡ false → c.control_port ≢ c.data_port
  unfolding same_port
  ports_sound h u e = ground (arith, bytes_eq_iff c.control_port c.data_port)

  ports_complete : IsValid c → same_port c ≡ false
  unfolding same_port
  ports_complete v = ground (arith, v.two_ports, bytes_eq_iff c.control_port c.data_port)

  files_sound :
      lacks_files c ≡ false → tls c.protocol ≡ true → (c.tls_cert_path ≢ []) × (c.tls_key_path ≢ [])
  unfolding lacks_files
  files_sound h t = ground (arith, bytes_eq_iff c.tls_cert_path [], bytes_eq_iff c.tls_key_path [])

  files_complete : IsValid c → lacks_files c ≡ false
  unfolding lacks_files
  files_complete v =
      ground (arith, v.tls_files, bytes_eq_iff c.tls_cert_path [], bytes_eq_iff c.tls_key_path [])

  validate_sound : validate c ≡ ok tt → IsValid c
  unfolding validate
  validate_sound h = >>-inv (parse c.protocol) _ h λ n known h1.
      >>-inv (validate_port _ c.data_port) _ h1 λ _ data_ok h2.
        >>-inv (validate_entry c) _ h2 λ _ entry h3.
          >>-inv (fail_if (same_port c) _) _ h3 λ _ ports h4.
            >>-inv (validate_host_port _ c.target_address) _ h4 λ _ target h5.
              >>-inv (validate_token c.token) _ h5 λ _ token h6.
                >>-inv (fail_if (lacks_files c) _) _ h6 λ _ files kcp. record {
                  known = ((parse_iff c.protocol n).0 known).1;
                  data_port = validate_port_sound _ _ data_ok;
                  handshake_site = entry_site entry;
                  control_port = entry-IsPort entry;
                  two_ports = ports_sound (fail_if-inv _ _ ports);
                  target = validate_host_port_sound _ _ target;
                  token = validate_token_sound _ token;
                  tls_files = files_sound (fail_if-inv _ _ files);
                  kcp = validate_pointer_sound c.kcp kcp;
                }

  validate_complete : IsValid c → validate c ≡ ok tt
  unfolding validate
  validate_complete v =
      rw
        (
          (parse_iff c.protocol c.protocol).1 (refl, v.known),
          validate_port_complete (codes "data_port") c.data_port v.data_port,
          entry_complete v,
          ports_complete v,
          validate_host_port_complete (codes "xray_inbound_address") c.target_address v.target,
          validate_token_complete c.token v.token,
          files_complete v,
          v.kcp.1,
        )
        (validate_kcp_complete v.kcp.0 v.kcp.2)

  -- The server's `validate` accepts exactly the configurations with a supported protocol, a port
  -- number, the handshake site (for stealth) or a control port (for the others), two different
  -- port texts unless the protocol is UDP based, a target with host and port, a token of 16 bytes
  -- or more, both files if the protocol needs a certificate, and usable KCP parameters.
  pub server_validate_iff : (validate c ≡ ok tt) ↔ IsValid c
  server_validate_iff = (validate_sound, validate_complete)
