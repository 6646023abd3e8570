-- ===== src/Config/Client.antt =====
-- internal/config/config.go: the client's configuration and its validation.
use g_tun.Prelude.{
  ◌≤◌, ◌≡◌, refl, ◌≢◌, ◌↔◌, inl, inr, Bytes, codes, bytes_eq, bytes_eq_iff, bytes_ne,
  bytes_eq-cases, bytes_eq-false, length, Bool, false, ◌&&◌, not, [], arith, if◌then◌else◌,
}
use g_tun.Result.{Result, ok, ◌>>◌, fail_if, >>-inv, fail_if-inv, sni_required, no_remote_host}
use g_tun.Proto.{Name, parse, stealth, supported}
use g_tun.Proto.Classes.{IsOneOf, parse_iff}
use g_tun.Config.Fields.{
  IsPort, IsHostPort, validate_port, validate_host_port, validate_token, validate_port_sound,
  validate_host_port_sound, validate_token_sound, validate_port_complete,
  validate_host_port_complete, validate_token_complete,
}

pub record Client : Type 0 where
  pub control_address : Bytes
  pub remote_host : Bytes
  pub listen_address : Bytes
  pub token : Bytes
  pub protocol : Name
  pub data_port : Bytes
  pub stealth_sni : Bytes
  pub stealth_ca_file : Bytes
  pub tls_cert_path : Bytes

lacks_sni : Client → Bool
lacks_sni c = bytes_eq c.protocol stealth && bytes_eq c.stealth_sni []

validate_static : Client → Result (Unit {0})
unfolding lacks_sni
validate_static c = do
  parse c.protocol
  validate_port (codes "data_port") c.data_port
  fail_if (lacks_sni c) sni_required

-- The first branch: a fixed protocol, or a control server.
validate_mode : Client → Result (Unit {0})
unfolding validate_static
validate_mode c =
    if not (bytes_eq c.protocol [])
    then validate_static c
    else validate_host_port (codes "control_server_address") c.control_address

unfoldable pub validate : Client → Result (Unit {0})
unfolding validate_mode
validate c = do
  validate_mode c
  fail_if (bytes_eq c.remote_host []) no_remote_host
  validate_host_port (codes "local_listen_port") c.listen_address
  validate_token c.token

-- A fixed transport that the client can run with.
pub record IsStatic (c : Client) : Type 0 where
  pub known : IsOneOf c.protocol supported
  pub data_port : IsPort c.data_port
  pub sni : c.protocol ≡ stealth → c.stealth_sni ≢ []

pub record IsValid (c : Client) : Type 0 where
  pub static : c.protocol ≢ [] → IsStatic c
  pub dynamic : c.protocol ≡ [] → IsHostPort (codes "control_server_address") c.control_address
  pub remote_host : c.remote_host ≢ []
  pub listen_address : IsHostPort (codes "local_listen_port") c.listen_address
  pub token : 16 ≤ length c.token

module _ (c : Client) where
  sni_sound : lacks_sni c ≡ false → c.protocol ≡ stealth → c.stealth_sni ≢ []
  unfolding lacks_sni
  sni_sound h p e = ground (arith, bytes_eq_iff c.protocol stealth, bytes_eq_iff c.stealth_sni [])

  sni_complete : IsStatic c → lacks_sni c ≡ false
  unfolding lacks_sni
  sni_complete v =
      ground (arith, v.sni, bytes_eq_iff c.protocol stealth, bytes_eq_iff c.stealth_sni [])

  IsStatic-sound : validate_mode c ≡ ok tt → c.protocol ≢ [] → IsStatic c
  unfolding validate_mode
  IsStatic-sound h ne =
      >>-inv (parse c.protocol) _ (rw (bytes_ne c.protocol [] ne) at h) λ n known h1.
        >>-inv (validate_port _ c.data_port) _ h1 λ _ port h2. record {
          known = ((parse_iff c.protocol n).0 known).1;
          data_port = validate_port_sound _ _ port;
          sni = sni_sound (fail_if-inv _ _ h2);
        }

  dynamic_sound :
      validate_mode c ≡ ok tt
      → c.protocol ≡ []
      → IsHostPort (codes "control_server_address") c.control_address
  unfolding validate_mode
  dynamic_sound h e = validate_host_port_sound _ _ (rw ((bytes_eq_iff c.protocol []).1 e) at h)

  mode_complete : IsValid c → validate_mode c ≡ ok tt
  unfolding validate_mode
  mode_complete v = elim (bytes_eq-cases c.protocol []) [
    | inl (e, p) ↦ rw e (validate_host_port_complete _ _ (v.dynamic p))
    | inr (e, ne) ↦ rw (
      e,
      (parse_iff c.protocol c.protocol).1 (refl, (v.static ne).known),
      validate_port_complete (codes "data_port") c.data_port (v.static ne).data_port,
      sni_complete (v.static ne),
    )
  ]

  validate_sound : validate c ≡ ok tt → IsValid c
  unfolding validate
  validate_sound h = >>-inv (validate_mode c) _ h λ _ mode h1.
      >>-inv (fail_if (bytes_eq c.remote_host []) _) _ h1 λ _ host h2.
        >>-inv (validate_host_port _ c.listen_address) _ h2 λ _ listen h3. record {
          static = IsStatic-sound mode;
          dynamic = dynamic_sound mode;
          remote_host = bytes_eq-false c.remote_host [] (fail_if-inv _ _ host);
          listen_address = validate_host_port_sound _ _ listen;
          token = validate_token_sound _ h3;
        }

  validate_complete : IsValid c → validate c ≡ ok tt
  unfolding validate
  validate_complete v =
      rw
        (
          mode_complete v,
          bytes_ne c.remote_host [] v.remote_host,
          validate_host_port_complete (codes "local_listen_port") c.listen_address v.listen_address,
        )
        (validate_token_complete c.token v.token)

  -- The client's `validate` accepts exactly the configurations that either fix a supported protocol
  -- with a port number (and a server name, for stealth) or leave the protocol empty and name a
  -- control server, and that have a remote host, a listening address and a token of 16 bytes or
  -- more.
  pub client_validate_iff : (validate c ≡ ok tt) ↔ IsValid c
  client_validate_iff = (validate_sound, validate_complete)
