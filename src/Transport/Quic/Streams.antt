-- ===== src/Transport/Quic/Streams.antt =====
-- internal/transport: one QUIC stream, from `open` to `handleQUICStream`.
use g_tun.Prelude.{
  ℕ, suc, ◌≡◌, ◌≢◌, refl, Bytes, Bool, true, none, some, ◌⊎◌, inl, inr, [], ◌∷◌, ◌++◌, arith, ◌==◌,
  Bool-cases, ==_iff, split_at?, ap, ◌∙◌,
}
use g_tun.Result.{Result, ok}
use g_tun.Auth.Io.{Conn, run}
use g_tun.Transport.Conn.{handle_stream}
use g_tun.Transport.Quic.{
  quic_stream_marker, open_quic, after_first, handle_quic_stream, handle_one,
}

-- A stream that was handled is closed, and was relayed exactly if its first byte is the marker; the
-- relay then has what follows that byte.
abbrev pub Handled : Conn × Bool → Type 0
Handled x =
    ((handle_one x).1.closed ≡ true)
    × (((rest : Bytes) → x.0.input ≢ quic_stream_marker ∷ rest) × ((handle_one x).0 ≡ none)
        ⊎ ((x.0.input ≡ quic_stream_marker ∷ (handle_one x).1.input)
            × ((handle_one x).0 ≡ some (handle_stream x.1))))

pub stream-Handled : (x : Conn × Bool) → Handled x
unfolding handle_one handle_quic_stream after_first run split_at?
stream-Handled (c, dials) = go c.input refl
  where
    go : (input : Bytes) → c.input ≡ input → Handled (c, dials)
    go [] e = rw (e, run) (refl, inl (λ rest h. cc, refl))
    go (b ∷ bs) e = elim (Bool-cases (b == quic_stream_marker)) [
      | inl is ↦
          let same : b ≡ quic_stream_marker = (==_iff b _).0 is in
          rw (e, run) (rw is (refl, inr (ap (λ (x : ℕ). x ∷ bs) same, refl)))
      | inr other ↦ rw (e, run) (rw other (refl, inl (λ rest h. ground arith, refl)))
    ]

open-writes :
    (s : Conn) (n : ℕ)
    → s.budget ≡ suc n
    → run (open_quic true) s
      ≡ (ok tt, record s { output = s.output ++ quic_stream_marker ∷ []; budget = n })
unfolding open_quic run
open-writes s n budget = rw (budget, run)

handled :
    (dials : Bool) (sent : Bytes) (c : Conn)
    → c.input ≡ quic_stream_marker ∷ sent
    → run (handle_quic_stream dials) c
      ≡ (some (handle_stream dials), record c { input = sent; closed = true })
unfolding handle_quic_stream run split_at?
handled dials sent c e = rw (e, run)

-- A stream that the client opens is relayed by the server, and the relay has exactly the bytes that
-- the application sends, also before it has sent any.
pub open-handle_quic :
    (dials : Bool) (sent : Bytes) (s c : Conn) (n : ℕ)
    → s.budget ≡ suc n
    → s.output ≡ []
    → c.input ≡ (run (open_quic true) s).1.output ++ sent
    → ((run (open_quic true) s).0 ≡ ok tt)
      × (run (handle_quic_stream dials) c
          ≡ (some (handle_stream dials), record c { input = sent; closed = true }))
open-handle_quic dials sent s c n budget fresh arrived = (
  ap (λ (x : Result (Unit {0}) × Conn). x.0) (open-writes s n budget),
  handled dials sent c (arrived ∙ rw (open-writes s n budget, fresh) refl),
)
