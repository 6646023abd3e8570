-- ===== src/Transport/Stream/Relayed.antt =====
-- internal/transport and internal/netutil/pipe.go: a protocol's streams through the relay.
use g_tun.Prelude.{
  Bytes, bytes_eq, Bool, true, false, ◌||◌, none, some, ◌⊎◌, inl, inr, ◌≡◌, refl, ap, sym, ◌∙◌, All,
  arith,
}
use g_tun.Result.{ok}
use g_tun.Proto.{supported, parse, tcp, quic, mux, web_socket}
use g_tun.Proto.Classes.{parse-ind}
use g_tun.Netutil.Pipe.{Pipe, Reach}
use g_tun.Netutil.Pipe.Delivery.{pipe_delivers}
use g_tun.Transport.Plan.{Plan, serve, run_plan}
use g_tun.Transport.Plan.Match.{serve-run_plan}
use g_tun.Transport.Stream.{
  Stream, tcp_stream, ws_stream, mux_stream, quic_stream, has_close_write, relayed_stream,
}

-- The two ends of a relay: a TCP connection, and the stream.
abbrev pub stream_ends : Stream → Bool → Bool
stream_ends st true = has_close_write tcp_stream
stream_ends st false = has_close_write st

abbrev Streamed : Bytes → Type 0
Streamed n =
    (relayed_stream (run_plan n) ≡ none)
    ⊎ ((st : Stream) × (relayed_stream (run_plan n) ≡ some st)
        × (has_close_write st ≡ (bytes_eq n tcp || bytes_eq n quic)))

streams_table : All Streamed supported
unfolding run_plan relayed_stream has_close_write mux web_socket
streams_table = (
  inr (tcp_stream, refl, refl),
  (
    inl refl,
    (
      inr (ws_stream, refl, refl),
      (
        inr (ws_stream, refl, refl),
        (
          inr (mux_stream, refl, refl),
          (
            inr (mux_stream, refl, refl),
            (
              inr (mux_stream, refl, refl),
              (
                inr (mux_stream, refl, refl),
                (inr (quic_stream, refl, refl), (inr (mux_stream, refl, refl), tt)),
              ),
            ),
          ),
        ),
      ),
    ),
  ),
)

streams :
    (s n : Bytes) (st : Stream)
    → parse s ≡ ok n
    → relayed_stream (run_plan n) ≡ some st
    → has_close_write st ≡ (bytes_eq n tcp || bytes_eq n quic)
streams s n st p h = elim (parse-ind Streamed s n streams_table p) [
  | inl e ↦ cc
  | inr (st', e, same) ↦ cc
]

module _ (st : Stream) (sent : Bool → Bytes) (p : Pipe) (reached : Reach sent (stream_ends st) p)
    (returned : p.returned ≡ true) (clean : p.faults ≡ 0) where
  into_stream : (p.halves false).received ≡ sent false
  unfolding has_close_write
  into_stream = elim ((pipe_delivers sent (stream_ends st) p reached returned false).2) [
    | inl all ↦ all
    | inr (inl broken) ↦ absurd (omega arith)
    | inr (inr lacks) ↦ cc
  ]

  out_of_stream :
      (half_closes : Bool)
      → has_close_write st ≡ half_closes
      → ((p.halves true).received ≡ sent true) ⊎ (half_closes ≡ false)
  out_of_stream half_closes e =
      elim ((pipe_delivers sent (stream_ends st) p reached returned true).2) [
        | inl all ↦ inl all
        | inr (inl broken) ↦ absurd (omega arith)
        | inr (inr lacks) ↦ inr (sym e ∙ lacks)
      ]

-- The two relays of a tunnel: `near` at the application, and `far` at the target.
-- For every protocol that `Parse` accepts they relay the same kind of stream. When both have
-- returned, and the network gave no error and delivers what is written to the stream, each stream
-- was given all that its TCP side sent, in order; and if the protocol is `tcp` or `quic`, the target
-- has received all that the application sent, and the application all that the target sent,
-- whichever of the two ended first.
pub tunnel_whole :
    (s n : Bytes) (plan : Plan) (st st' : Stream) (near_sent far_sent : Bool → Bytes)
    (near far : Pipe)
    → parse s ≡ ok n
    → serve n ≡ ok plan
    → relayed_stream (run_plan n) ≡ some st
    → relayed_stream plan ≡ some st'
    → Reach near_sent (stream_ends st) near
    → Reach far_sent (stream_ends st') far
    → near.returned ≡ true
    → far.returned ≡ true
    → near.faults ≡ 0
    → far.faults ≡ 0
    → far_sent true ≡ (near.halves false).received
    → near_sent true ≡ (far.halves false).received
    → (st ≡ st')
      × (far_sent true ≡ near_sent false)
      × (near_sent true ≡ far_sent false)
      × (((far.halves true).received ≡ near_sent false)
          ⊎ ((bytes_eq n tcp || bytes_eq n quic) ≡ false))
      × (((near.halves true).received ≡ far_sent false)
          ⊎ ((bytes_eq n tcp || bytes_eq n quic) ≡ false))
tunnel_whole s n plan st st' near_sent far_sent near far parsed served at_client at_server reached
      reached' returned returned' clean clean' to_server to_client =
    let up : far_sent true ≡ near_sent false =
      to_server ∙ into_stream st near_sent near reached returned clean in
    let down : near_sent true ≡ far_sent false =
      to_client ∙ into_stream st' far_sent far reached' returned' clean' in
    let same : st ≡ st' = cc (serve-run_plan s n parsed) in
    let kind : has_close_write st ≡ (bytes_eq n tcp || bytes_eq n quic) =
      streams s n st parsed at_client in
    (
      same,
      up,
      down,
      elim (out_of_stream st' far_sent far reached' returned' clean' _
          (ap has_close_write (sym same) ∙ kind)) [
            | inl all ↦ inl (all ∙ up)
            | inr lacks ↦ inr lacks
          ],
      elim (out_of_stream st near_sent near reached returned clean _ kind) [
        | inl all ↦ inl (all ∙ down)
        | inr lacks ↦ inr lacks
      ],
    )
