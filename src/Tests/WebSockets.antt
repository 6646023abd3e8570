-- ===== src/Tests/WebSockets.antt =====
-- The WebSocket adapter over a socket with given messages.
use g_tun.Prelude.{
  ℕ, ◌≡◌, refl, ap, Bytes, codes, take, drop, take-append-drop, Bool, true, false, Option, none,
  some, List, [], ◌∷◌, ◌++◌, length, sym,
}
use g_tun.Transport.WsConn.{Ending, going, eof, Socket, Adapter, Lawful, read_once, read}
use g_tun.Transport.WsConn.Stream.{stream}
use g_tun.Transport.WsConn.Write.{write}
use g_tun.Transport.WsConn.Write.RoundTrip.{write_all, accepted, sum, read_all, write-read}

abbrev State : Type 0
State = Bytes × List (Bool × Bytes)

abbrev advance : State → Option Bool × State
advance (p, []) = (none, (p, []))
advance (p, (b, m) ∷ ms) = (some b, (m, ms))

abbrev read_some : ℕ → State → (Bytes × Ending) × State
read_some n ([], ms) = (([], eof), ([], ms))
read_some n (b ∷ bs, ms) = ((take n (b ∷ bs), going), (drop n (b ∷ bs), ms))

abbrev socket : Socket
socket = record { State = State; next_reader = advance; read_message = read_some }

advance-some :
    (s s' : State) (binary : Bool) → advance s ≡ (some binary, s') → s.1 ≡ (binary, s'.0) ∷ s'.1
advance-some (p, []) s' binary e = cc
advance-some (p, (b, m) ∷ ms) s' binary e = cc

advance-none : (s s' : State) → advance s ≡ (none, s') → s'.1 ≡ s.1
advance-none (p, []) s' e = sym (ap (λ (x : Option Bool × State). x.1.1) e)
advance-none (p, (b, m) ∷ ms) s' e = cc

parts :
    {bs bs' : Bytes} {e e' : Ending} {s s' : State}
    → ◌≡◌ {A = (Bytes × Ending) × State} ((bs, e), s) ((bs', e'), s')
    → (bs ≡ bs') × (s ≡ s')
parts h =
    (ap (λ (x : (Bytes × Ending) × State). x.0.0) h, ap (λ (x : (Bytes × Ending) × State). x.1) h)

read_bytes :
    (n : ℕ) (s s' : State) (bs : Bytes) (e : Ending)
    → read_some n s ≡ ((bs, e), s')
    → (s.0 ≡ bs ++ s'.0) × (s'.1 ≡ s.1)
read_bytes n ([], ms) s' bs e h = let (p, q) = parts h in rw (sym p, sym q) (refl, refl)
read_bytes n (c ∷ cs, ms) s' bs e h =
    let (p, q) = parts h in rw (sym p, sym q) (sym (take-append-drop n (c ∷ cs)), refl)

read_eof : (n : ℕ) (s s' : State) (bs : Bytes) → read_some n s ≡ ((bs, eof), s') → s'.0 ≡ []
read_eof n ([], ms) s' bs h = sym (ap (λ (x : (Bytes × Ending) × State). x.1.0) h)
read_eof n (c ∷ cs, ms) s' bs h = cc

abbrev lawful : Lawful socket
lawful = record {
  pending = λ s. s.0;
  arriving = λ s. s.1;
  next_some = advance-some;
  next_none = advance-none;
  read_bytes = read_bytes;
  read_eof = read_eof;
}

-- Between messages, with a text message before two binary ones.
abbrev idle : Adapter socket
idle = record {
  in_message = false;
  socket = ([], (false, codes "text") ∷ (true, codes "hello") ∷ (true, codes "world") ∷ []);
}

first_read : (read socket 4 3 idle).0 ≡ some (record { bytes = codes "hel"; failed = false })
unfolding read read_once
first_read = refl

-- Three writes, one of which fails.
abbrev writes : List (Bytes × Bool)
writes = (codes "hello", true) ∷ (codes "lost", false) ∷ (codes "world", true) ∷ []

abbrev arrived : Adapter socket
arrived = record {
  in_message = false;
  socket = ([], (true, codes "hello") ∷ (true, codes "world") ∷ []);
}

arrived_lem : lawful.arriving arrived.socket ≡ (write_all writes []).1
unfolding write
arrived_lem = refl

write-read_example :
    ((read_all socket lawful (3 ∷ 8 ∷ []) arrived).0
        ++ stream socket lawful (read_all socket lawful (3 ∷ 8 ∷ []) arrived).1
      ≡ accepted writes)
    × (sum (write_all writes []).0
        ≡ length (
            (read_all socket lawful (3 ∷ 8 ∷ []) arrived).0
            ++ stream socket lawful (read_all socket lawful (3 ∷ 8 ∷ []) arrived).1))
write-read_example = write-read socket lawful writes (3 ∷ 8 ∷ []) arrived refl arrived_lem
