-- ===== src/Transport/Conn/Greeted.antt =====
-- internal/transport/transport.go: `clientHandshake` and `serverHandshake` against each other, at the
-- start of two programs that go on with their results.
use g_tun.Prelude.{
  ℕ, suc, ◌+◌, ◌≡◌, ◌≢◌, refl, Bytes, length, Bool, true, false, List, [], ◌∷◌, ◌++◌, split_at?,
  some, append-nil, take, drop, take-append, drop-append, length-append, arith, ◌∙◌, ap, sym,
  bytes_ne, split_at?_whole,
}
use g_tun.Result.{
  Result, ok, err, set_deadline, auth_failed, send_client_proof, send_server_proof, send_nonce,
  generate_nonce, read_server_proof, read_client_proof,
}
use g_tun.Auth.Mac.{
  Hmac, Channel, sign, verify, verify_iff, nonce_size, tag_size, label_client, label_server,
  length-sign, transcript,
}
use g_tun.Auth.Io.{
  Io, raise_unless, pure, bind, return, ◌>>=◌, ◌>>◌, reads, writes, draws, sets_deadline,
}
use g_tun.Auth.Io.Duplex.{more}
use g_tun.Auth.Io.Wire.{Link, wire, one_call, wire_on}
use g_tun.Auth.Handshake.{client_handshake, server_handshake}
use g_tun.Transport.Conn.{handshake, client_handshake_on, server_handshake_on}
use g_tun.Transport.Conn.Joined.{end_with}

-- The two ends, neither of which has closed.
abbrev open_link : {A B : Type 0} → Io A → Bytes → Bytes → Io B → Bytes → Bytes → Link A B
open_link l input entropy r input' entropy' = record {
  left = record { program = l; input = input; entropy = entropy };
  right = record { program = r; input = input'; entropy = entropy' };
  left_closed = false;
  right_closed = false;
}

-- What the two programs do after the handshake is `K` and `L`.
module _ {A B : Type 0} (K : Result (Unit {0}) → Io A) (L : Result (Unit {0}) → Io B) (h : Hmac)
    (client_token server_token client_nonce server_nonce : Bytes)
    (nc_size : length client_nonce ≡ 32) (ns_size : length server_nonce ≡ 32) where
  abbrev pub opening : Link A B
  opening =
      open_link (bind (client_handshake_on h client_token) K) [] client_nonce
        (bind (server_handshake_on h server_token) L) [] server_nonce

  abbrev pub nonces : List Bytes
  nonces = client_nonce ∷ server_nonce ∷ []

  split_client : split_at? 32 client_nonce ≡ some (client_nonce, [])
  split_client = split_at?_whole 32 client_nonce nc_size

  split_server : split_at? 32 server_nonce ≡ some (server_nonce, [])
  split_server = split_at?_whole 32 server_nonce ns_size

  -- The server's proof.
  abbrev pub tag : Bytes
  tag = sign h server_token label_server nonces

  split_reply :
      split_at? (nonce_size + tag_size) (server_nonce ++ tag) ≡ some (server_nonce ++ tag, [])
  split_reply = split_at?_whole (nonce_size + tag_size) (server_nonce ++ tag) (
      omega (
        arith,
        length-append server_nonce tag,
        ns_size,
        length-sign h server_token label_server nonces,
      ))

  abbrev channel : Bytes
  channel = transcript client_nonce server_nonce

  -- The two programs, `m` being what is left of the handshake.
  abbrev client : Io (Result Channel) → Io A
  client m = bind (m >> (sets_deadline false set_deadline >> return tt)) K

  abbrev pub server : Io (Result Channel) → Io B
  server m = bind (m >> (sets_deadline false set_deadline >> return tt)) L

  -- The client behind the server's nonce and proof.
  abbrev testing : Bytes → Bytes → Io (Result Channel)
  testing nonce proof = do
    raise_unless (verify h client_token label_server proof (client_nonce ∷ nonce ∷ [])) auth_failed
    writes (sign h client_token label_client (client_nonce ∷ nonce ∷ [])) send_client_proof
    return (transcript client_nonce nonce)

  abbrev awaiting : Io (Result Channel)
  awaiting = do
    reply ← reads (nonce_size + tag_size) read_server_proof
    testing (take nonce_size reply) (drop nonce_size reply)

  -- The server behind its nonce, and behind its own proof.
  abbrev pub expecting : Io (Result Channel)
  expecting = do
    client_tag ← reads tag_size read_client_proof
    raise_unless (verify h server_token label_client client_tag nonces) auth_failed
    return channel

  abbrev proving : Io (Result Channel)
  proving = writes (server_nonce ++ tag) send_server_proof >> expecting

  abbrev greeting : Io (Result Channel)
  greeting = do
    nonce ← draws nonce_size generate_nonce
    writes (nonce ++ sign h server_token label_server (client_nonce ∷ nonce ∷ [])) send_server_proof
    client_tag ← reads tag_size read_client_proof
    raise_unless (verify h server_token label_client client_tag (client_nonce ∷ nonce ∷ []))
        auth_failed
    return (transcript client_nonce nonce)

  replied :
      (reply : Bytes) (r : Io B)
      → split_at? (nonce_size + tag_size) reply ≡ some (reply, [])
      → one_call (open_link (client awaiting) reply [] r [] [])
        ≡ some (open_link (client (testing (take 32 reply) (drop 32 reply))) [] [] r [] [])
  unfolding bind ◌>>=◌ ◌>>◌ reads split_at?
  replied reply r e = rw e refl

  greeted :
      (fuel : ℕ)
      → wire (more 8 fuel) opening
        ≡ wire fuel (
            open_link
              (client (testing (take 32 (server_nonce ++ tag)) (drop 32 (server_nonce ++ tag))))
              []
              []
              (server expecting)
              []
              [])
  unfolding bind ◌>>=◌ ◌>>◌ reads writes draws sets_deadline client_handshake server_handshake
      handshake client_handshake_on server_handshake_on split_at?
  greeted fuel =
      wire_on _ opening
        (open_link (client (client_handshake h client_token)) [] client_nonce waits [] server_nonce)
        refl
      ∙ wire_on _ _
          (open_link (client (writes client_nonce send_nonce >> awaiting)) [] [] waits []
            server_nonce)
          (rw split_client refl)
      ∙ wire_on _ _ (open_link (client awaiting) [] [] waits client_nonce server_nonce) refl
      ∙ wire_on _ _
          (open_link (client awaiting) [] [] (server (server_handshake h server_token)) client_nonce
            server_nonce)
          refl
      ∙ wire_on _ _ (open_link (client awaiting) [] [] (server greeting) [] server_nonce)
          (rw split_client refl)
      ∙ wire_on _ _ (open_link (client awaiting) [] [] (server proving) [] [])
          (rw split_server refl)
      ∙ wire_on _ _ (open_link (client awaiting) (server_nonce ++ tag) [] (server expecting) [] [])
          refl
      ∙ wire_on _ _ _ (replied (server_nonce ++ tag) (server expecting) split_reply)
    where
      waits : Io B
      waits = opening.right.program

  greeted_plain :
      (n : ℕ)
      → wire (more 8 n) opening
        ≡ wire n (open_link (client (testing server_nonce tag)) [] [] (server expecting) [] [])
  greeted_plain n =
      rw (take-append 32 server_nonce tag ns_size, drop-append 32 server_nonce tag ns_size) at
        (greeted n)

  -- The client's proof.
  abbrev pub answer : Bytes
  answer = sign h client_token label_client nonces

  -- The server that waits for the client's proof, and the other end after its program.
  abbrev pub waiting : Bool → A → Bytes → Link A B
  waiting closed a input = record {
    left = end_with (pure a) [];
    right = record { program = server expecting; input = input; entropy = [] };
    left_closed = closed;
    right_closed = false;
  }

  abbrev pub over : Bool → A → Result (Unit {0}) → Link A B
  over closed a r = record {
    left = end_with (pure a) [];
    right = end_with (L r) [];
    left_closed = closed;
    right_closed = false;
  }

  -- A client whose token gives another proof than the server's.
  greeted_wrong :
      (fuel : ℕ)
      → verify h client_token label_server tag nonces ≡ false
      → wire (more 8 fuel) opening
        ≡ wire fuel (open_link (K (err auth_failed)) [] [] (server expecting) [] [])
  unfolding bind ◌>>=◌ ◌>>◌
  greeted_wrong fuel differs = greeted_plain fuel ∙ rw differs refl

  greeted_same :
      (fuel : ℕ)
      → verify h client_token label_server tag nonces ≡ true
      → wire (more 10 fuel) opening
        ≡ wire fuel (open_link (K (ok tt)) [] [] (server expecting) answer [])
  unfolding bind ◌>>=◌ ◌>>◌ writes sets_deadline
  greeted_same fuel known =
      greeted_plain (more 2 fuel)
      ∙ wire_on _ _ (open_link (client (return channel)) [] [] (server expecting) answer [])
          (rw known refl)
      ∙ wire_on _ _ (open_link (K (ok tt)) [] [] (server expecting) (answer ++ []) []) refl
      ∙ rw (append-nil answer) refl

  -- The server sees that the client has closed.
  pub hears_close :
      (fuel : ℕ) (a : A)
      → wire (suc fuel) (waiting true a []) ≡ wire fuel (over true a (err read_client_proof))
  unfolding bind ◌>>=◌ ◌>>◌ reads split_at?
  hears_close fuel a = wire_on _ _ (over true a (err read_client_proof)) refl

  -- The server has the client's proof, whether or not the client has closed since.
  proved :
      (closed : Bool) (a : A) (client_tag : Bytes)
      → split_at? tag_size client_tag ≡ some (client_tag, [])
      → verify h server_token label_client client_tag nonces ≡ true
      → one_call (waiting closed a client_tag)
        ≡ some (record (waiting closed a []) { right = end_with (server (return channel)) [] })
  unfolding bind ◌>>=◌ ◌>>◌ reads split_at?
  proved true a client_tag e known = rw e (rw known refl)
  proved false a client_tag e known = rw e (rw known refl)

  cleared :
      (closed : Bool) (a : A)
      → one_call (record (waiting closed a []) { right = end_with (server (return channel)) [] })
        ≡ some (over closed a (ok tt))
  unfolding bind ◌>>=◌ ◌>>◌ sets_deadline
  cleared true a = refl
  cleared false a = refl

  hears_proof :
      (fuel : ℕ) (closed : Bool) (a : A)
      → verify h server_token label_client answer nonces ≡ true
      → wire (more 2 fuel) (waiting closed a answer) ≡ wire fuel (over closed a (ok tt))
  hears_proof fuel closed a known =
      wire_on _ _ _ (
        proved closed a answer
          (split_at?_whole tag_size answer (length-sign h client_token label_client nonces)) known)
      ∙ wire_on _ _ _ (cleared closed a)

  -- The server's token gives a proof that the client's does not give.
  abbrev pub Differ : Type 0
  Differ = tag ≢ sign h client_token label_server nonces

  not_verified : Differ → verify h client_token label_server tag nonces ≡ false
  unfolding verify
  not_verified differ = bytes_ne _ _ differ

  -- The ten calls of the client's handshake with a server that has the same token.
  pub opening_same :
      (fuel : ℕ)
      → client_token ≡ server_token
      → wire (more 10 fuel) opening
        ≡ wire fuel (open_link (K (ok tt)) [] [] (server expecting) answer [])
  opening_same fuel same = greeted_same fuel (
      (verify_iff h client_token label_server tag nonces).1
        (ap (λ (t : Bytes). sign h t label_server nonces) (sym same)))

  pub opening_wrong :
      (fuel : ℕ)
      → Differ
      → wire (more 8 fuel) opening
        ≡ wire fuel (open_link (K (err auth_failed)) [] [] (server expecting) [] [])
  opening_wrong fuel differ = greeted_wrong fuel (not_verified differ)

  pub hears_same :
      (fuel : ℕ) (closed : Bool) (a : A)
      → client_token ≡ server_token
      → wire (more 2 fuel) (waiting closed a answer) ≡ wire fuel (over closed a (ok tt))
  hears_same fuel closed a same = hears_proof fuel closed a (
      (verify_iff h server_token label_client answer nonces).1
        (ap (λ (t : Bytes). sign h t label_client nonces) same))
