-- ===== src/Proto.antt =====
-- internal/proto/proto.go: the names of the protocols, `Parse`, and the classes of a name.
-- A `Name` is a Go string, so it is a byte sequence here too, and a `switch` on it compares texts.
pub mod Classes
use g_tun.Prelude.{Bytes, codes, bytes_eq, Bool, true, false, ◌||◌, List, [], ◌∷◌, if◌then◌else◌}
use g_tun.Result.{Result, ok, err, unknown_protocol}

abbrev pub Name : Type 0
Name = Bytes

abbrev pub tcp : Name
tcp = codes "tcp"

abbrev pub udp : Name
udp = codes "udp"

abbrev pub ws : Name
ws = codes "ws"

abbrev pub wss : Name
wss = codes "wss"

abbrev pub tcp_mux : Name
tcp_mux = codes "tcpmux"

abbrev pub ws_mux : Name
ws_mux = codes "wsmux"

abbrev pub wss_mux : Name
wss_mux = codes "wssmux"

abbrev pub utcp_mux : Name
utcp_mux = codes "utcpmux"

abbrev pub quic : Name
quic = codes "quic"

abbrev pub stealth : Name
stealth = codes "stealth"

abbrev pub supported : List Name
supported = tcp ∷ udp ∷ ws ∷ wss ∷ tcp_mux ∷ ws_mux ∷ wss_mux ∷ utcp_mux ∷ quic ∷ stealth ∷ []

-- A `case` of a `switch` that lists several names.
unfoldable pub is_one_of : Name → List Name → Bool
is_one_of n [] = false
is_one_of n (m ∷ ms) = bytes_eq n m || is_one_of n ms

-- The loop of `Parse` over the names that are left.
parse_from : List Name → Bytes → Result Name
parse_from [] s = err (unknown_protocol s)
parse_from (n ∷ ns) s = if bytes_eq n s then ok n else parse_from ns s

unfoldable pub parse : Bytes → Result Name
unfolding parse_from
parse s = parse_from supported s

unfoldable pub mux : Name → Bool
unfolding is_one_of
mux n = is_one_of n (tcp_mux ∷ ws_mux ∷ wss_mux ∷ utcp_mux ∷ stealth ∷ [])

unfoldable pub web_socket : Name → Bool
unfolding is_one_of
web_socket n = is_one_of n (ws ∷ wss ∷ ws_mux ∷ wss_mux ∷ [])

unfoldable pub tls : Name → Bool
unfolding is_one_of
tls n = is_one_of n (wss ∷ wss_mux ∷ quic ∷ [])

unfoldable pub udp_based : Name → Bool
unfolding is_one_of
udp_based n = is_one_of n (udp ∷ utcp_mux ∷ quic ∷ [])
