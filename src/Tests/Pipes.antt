-- ===== src/Tests/Pipes.antt =====
-- The byte relay: each side sends one byte and then ends its stream.
use g_tun.Prelude.{
  ℕ, some, bytes_eq, ◌||◌, ◌≤◌, ◌*◌, ◌+◌, ◌≡◌, ◌⊎◌, inl, inr, refl, arith, Bytes, length, Bool,
  true, false, [], ◌∷◌, ◌++◌,
}
use g_tun.Netutil.Pipe.{
  Pipe, Step, reads, writes, sees_eof, read_fails, finishes, returns, Reach, start, next, init,
  with_half, read_chunk, write_chunk, ended, done, finish_half, set_side, shut_end,
}
use g_tun.Result.{ok}
use g_tun.Proto.{parse, quic, tcp}
use g_tun.Proto.Classes.{parse_iff}
use g_tun.Transport.Plan.{Plan, quic_conn, quic_streams, serve, run_plan}
use g_tun.Transport.Stream.{quic_stream, mux_stream, has_close_write, relayed_stream}
use g_tun.Transport.Stream.Relayed.{stream_ends, tunnel_whole}
use g_tun.Netutil.Pipe.Delivery.{Cut, pipe_delivers}
use g_tun.Netutil.Pipe.Progress
use g_tun.Netutil.Pipe.Progress.{Run, pipe_returns}

abbrev sent_bytes : ℕ → ℕ → Bool → Bytes
sent_bytes a b true = a ∷ []
sent_bytes a b false = b ∷ []

abbrev sent : Bool → Bytes
sent = sent_bytes 7 9

-- A TCP connection and a QUIC stream.
abbrev close_write : Bool → Bool
close_write = stream_ends quic_stream

-- One side: the read, the write, the end of the stream, and what `copyHalf` does behind it.
abbrev with_read : Pipe → Bool → Pipe
with_read p s = with_half p s (read_chunk 1 (p.halves s))

abbrev after_write : Pipe → Bool → Pipe
after_write p s = with_half p s (write_chunk (p.halves s))

abbrev after_eof : Pipe → Bool → Pipe
after_eof p s = with_half p s (record (p.halves s) { stage = ended })

abbrev after_finish : Pipe → Bool → Pipe
after_finish p s = record (with_half p s (record (p.halves s) { stage = done })) {
  ends = set_side p.ends s (finish_half (p.ends s));
}

abbrev copied : Pipe → Bool → Pipe
copied p s = after_finish (after_eof (after_write (with_read p s) s) s) s

abbrev both : ℕ → ℕ → Pipe
both a b = copied (copied (init (sent_bytes a b) close_write) true) false

abbrev final_of : ℕ → ℕ → Pipe
final_of a b = record (both a b) { ends = λ s. shut_end ((both a b).ends s); returned = true }

abbrev final : Pipe
final = final_of 7 9

reached : (a b : ℕ) → Reach (sent_bytes a b) close_write (final_of a b)
unfolding read_chunk write_chunk finish_half has_close_write
reached a b =
    next
      (next
        (next
          (next
            (next
              (next
                (next
                  (next
                    (next start
                      (reads true 1 refl refl refl (omega arith) (omega arith) (omega arith)))
                    (writes true refl (omega arith) refl))
                  (sees_eof true refl refl refl refl))
                (finishes true refl))
              (reads false 1 refl refl refl (omega arith) (omega arith) (omega arith)))
            (writes false refl (omega arith) refl))
          (sees_eof false refl refl refl refl))
        (finishes false refl))
      (returns refl refl refl)

pipe_delivers_example :
    ((final.ends true).closed ≡ true)
    × ((rest : Bytes) × ((final.halves true).received ++ rest ≡ sent true))
    × (((final.halves true).received ≡ sent true) ⊎ Cut close_write final.faults true)
pipe_delivers_example = pipe_delivers sent close_write final (reached 7 9) refl true

one_read : Run sent close_write 1 (with_read (init sent close_write) true)
one_read =
    Progress.next Progress.start
      (reads true 1 refl refl refl (omega arith) (omega arith) (omega arith))

abbrev plan : Plan
plan = record { carrier = quic_conn; streams = quic_streams }

parsed : parse quic ≡ ok quic
parsed = (parse_iff quic quic).1 (refl, inr (inr (inr (inr (inr (inr (inr (inr (inl refl)))))))))

served : serve quic ≡ ok plan
unfolding serve
served = refl

relayed : relayed_stream plan ≡ some quic_stream
unfolding relayed_stream
relayed = refl

at_client : relayed_stream (run_plan quic) ≡ some quic_stream
unfolding run_plan relayed_stream
at_client = refl

-- The application sends the byte 9, and the target the byte 7.
abbrev far : Pipe
far = final_of 9 7

crossed : sent_bytes 9 7 true ≡ (final.halves false).received
unfolding read_chunk write_chunk
crossed = refl

crossed_back : sent true ≡ (far.halves false).received
unfolding read_chunk write_chunk
crossed_back = refl

tunnel_whole_example :
    (quic_stream ≡ quic_stream)
    × (sent_bytes 9 7 true ≡ sent false)
    × (sent true ≡ sent_bytes 9 7 false)
    × (((far.halves true).received ≡ sent false)
        ⊎ ((bytes_eq quic tcp || bytes_eq quic quic) ≡ false))
    × (((final.halves true).received ≡ sent_bytes 9 7 false)
        ⊎ ((bytes_eq quic tcp || bytes_eq quic quic) ≡ false))
tunnel_whole_example =
    tunnel_whole quic quic plan quic_stream quic_stream sent (sent_bytes 9 7) final far parsed
      served at_client relayed (reached 7 9) (reached 9 7) refl refl refl refl crossed crossed_back

-- A TCP connection and an smux stream: the application ends its direction first, and the relay
-- closes the stream while the other side still sends.
abbrev muxed : Bool → Bool
muxed = stream_ends mux_stream

abbrev reply : Bool → Bytes
reply true = 9 ∷ []
reply false = []

abbrev half_closed : Pipe
half_closed =
    after_finish (after_eof (after_finish (after_eof (init reply muxed) false) false) true) true

lost : Pipe
lost = record half_closed { ends = λ s. shut_end (half_closed.ends s); returned = true }

lost_reached : Reach reply muxed lost
unfolding lost finish_half has_close_write
lost_reached =
    next
      (next
        (next (next (next start (sees_eof false refl refl refl refl)) (finishes false refl))
          (read_fails true refl refl refl))
        (finishes true refl))
      (returns refl refl refl)

lost_test : ((lost.halves true).received ≡ []) × (lost.faults ≡ 0)
unfolding lost
lost_test = (refl, refl)

pipe_returns_example :
    (1 ≤ 2 * length (sent true) + 2 * length (sent false) + 5)
    × (((with_read (init sent close_write) true).returned ≡ true)
        ⊎ ((q : Pipe) × Step (with_read (init sent close_write) true) q))
pipe_returns_example = pipe_returns sent close_write 1 _ one_read
