-- ===== src/Transport/WsConn/Write/RoundTrip.antt =====
-- internal/transport/wsconn.go: what one adapter writes, the other one reads.
use g_tun.Prelude.{
  ℕ, suc, ◌+◌, ◌≡◌, refl, sym, ap, ◌∙◌, Bytes, Bool, true, false, List, [], ◌∷◌, ◌++◌, length,
  length-append, append_assoc, append-nil, arith,
}
use g_tun.Transport.WsConn.{Socket, Adapter, Lawful, read}
use g_tun.Transport.WsConn.Stream.{stream, given, read-stream, rounds_left, binaries}
use g_tun.Transport.WsConn.Write.{Messages, write}

-- A series of calls of `Write`, each with whether it succeeds: the counts, and the messages.
abbrev pub write_all : List (Bytes × Bool) → Messages → List ℕ × Messages
write_all [] sent = ([], sent)
write_all ((p, succeeds) ∷ ws) sent =
    let (r, sent') = write succeeds p sent in
    let (counts, final) = write_all ws sent' in (r.count ∷ counts, final)

-- The bytes of the calls that succeeded.
abbrev pub accepted : List (Bytes × Bool) → Bytes
accepted [] = []
accepted ((p, true) ∷ ws) = p ++ accepted ws
accepted ((p, false) ∷ ws) = accepted ws

abbrev pub sum : List ℕ → ℕ
sum [] = 0
sum (n ∷ ns) = n + sum ns

counts_lem :
    (ws : List (Bytes × Bool)) (sent : Messages) → sum (write_all ws sent).0 ≡ length (accepted ws)
unfolding write
counts_lem [] sent = refl
counts_lem ((p, true) ∷ ws) sent =
    omega (arith, length-append p (accepted ws), counts_lem ws (sent ++ ((true, p) ∷ [])))
counts_lem ((p, false) ∷ ws) sent = omega (arith, counts_lem ws sent)

module _ (w : Socket) (l : Lawful w) where
  binaries-append :
      (ms ns : Messages) → binaries w l (ms ++ ns) ≡ binaries w l ms ++ binaries w l ns
  binaries-append [] ns = refl
  binaries-append ((true, bs) ∷ ms) ns =
      ap (◌++◌ bs) (binaries-append ms ns)
      ∙ sym (append_assoc bs (binaries w l ms) (binaries w l ns))
  binaries-append ((false, bs) ∷ ms) ns = binaries-append ms ns

  written_lem :
      (ws : List (Bytes × Bool)) (sent : Messages)
      → binaries w l (write_all ws sent).1 ≡ binaries w l sent ++ accepted ws
  unfolding write
  written_lem [] sent = sym (append-nil (binaries w l sent))
  written_lem ((p, true) ∷ ws) sent =
      written_lem ws (sent ++ ((true, p) ∷ []))
      ∙ ap (λ (x : Bytes). x ++ accepted ws)
          (binaries-append sent ((true, p) ∷ []) ∙ ap (◌++◌ (binaries w l sent)) (append-nil p))
      ∙ append_assoc (binaries w l sent) p (accepted ws)
  written_lem ((p, false) ∷ ws) sent = written_lem ws sent

  -- A series of calls of `Read` into buffers of these sizes, each with rounds enough to return.
  abbrev pub read_all : List ℕ → Adapter w → Bytes × Adapter w
  read_all [] a = ([], a)
  read_all (n ∷ ns) a =
      let (o, a') = read w (suc (rounds_left w l a)) n a in
      let (bs, final) = read_all ns a' in (given w l o ++ bs, final)

  read_all-stream :
      (ns : List ℕ) (a : Adapter w)
      → stream w l a ≡ (read_all ns a).0 ++ stream w l (read_all ns a).1
  read_all-stream [] a = refl
  read_all-stream (n ∷ ns) a =
      let once = read w (suc (rounds_left w l a)) n a in
      read-stream w l (suc (rounds_left w l a)) n a
      ∙ ap (◌++◌ (given w l once.0)) (read_all-stream ns once.1)
      ∙ sym (
          append_assoc (given w l once.0) (read_all ns once.1).0
            (stream w l (read_all ns once.1).1))

  -- What calls of `Read` give over a WebSocket, into buffers of any sizes, is a prefix of what the
  -- peer's calls of `Write` accepted, in order and across the bounds of the messages, and the rest is
  -- what can still be read; and the counts that `Write` returned add up to all of it.
  pub write-read :
      (ws : List (Bytes × Bool)) (ns : List ℕ) (a : Adapter w)
      → a.in_message ≡ false
      → l.arriving a.socket ≡ (write_all ws []).1
      → ((read_all ns a).0 ++ stream w l (read_all ns a).1 ≡ accepted ws)
        × (sum (write_all ws []).0 ≡ length ((read_all ns a).0 ++ stream w l (read_all ns a).1))
  write-read ws ns a idle arrives = (same, counts_lem ws [] ∙ ap length (sym same))
    where
      same : (read_all ns a).0 ++ stream w l (read_all ns a).1 ≡ accepted ws
      same = sym (read_all-stream ns a) ∙ rw (idle, arrives) (written_lem ws [])
