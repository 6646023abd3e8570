-- ===== src/Tls/Generate/Pins.antt =====
-- internal/tlsutil/tlsutil.go: what a client makes of a generated certificate.
use g_tun.Prelude.{
  ℕ, ◌≡◌, ◌≢◌, ◌↔◌, refl, sym, ap, ◌∙◌, Bytes, bytes_eq_iff, bytes_eq_refl, bytes_ne, Option, none,
  some, List, ◌∷◌, Option-cases, inl, inr, ◌⊎◌, arith,
}
use g_tun.Result.{Result, ok}
use g_tun.Tls.{
  Block, ServerTls, ClientTls, server_config, pinned_client_config, pinned_file, verify_connection,
}
use g_tun.Tls.Generate.{
  Crypto, File, Disk, WriteEnd, wrote, refused, cut, Writes, put, mode_of, write_file, owner_only,
  world_readable, template, certificate_block, key_block, then_certificate, write_both, marshalled,
  certified, numbered, keyed, generate_self_signed, files_of, done_or,
}

-- What PEM and X.509 promise: a block is read back, and a key pair is the certificate of its key.
pub record Lawful (lib : Crypto) : Type 0 where
  pub decodes : (b : Block) → lib.decode_pem (lib.encode_pem b) ≡ some b
  pub pairs :
      (now serial : ℕ) (key : lib.Key) (der key_der : Bytes)
      → lib.new_certificate (template now serial) key ≡ some der
      → lib.marshal key ≡ some key_der
      → lib.x509_key_pair
          (lib.encode_pem (certificate_block der))
          (lib.encode_pem (key_block key_der))
        ≡ some der

module _ (lib : Crypto) (now : ℕ) (ends : Writes) (cert_path key_path : Bytes) where
  -- The disk after both writes.
  abbrev pub both_written : Bytes → Bytes → Disk → Disk
  both_written der key_der d =
      put (put d key_path (lib.encode_pem (key_block key_der)) owner_only) cert_path
        (lib.encode_pem (certificate_block der)) world_readable

  -- A generation that succeeded: a certificate for the key, and both files written.
  pub record Generated (d d' : Disk) : Type 0 where
    pub key : lib.Key
    pub serial : ℕ
    pub der : Bytes
    pub key_der : Bytes
    pub signed : lib.new_certificate (template now serial) key ≡ some der
    pub encoded : lib.marshal key ≡ some key_der
    pub final : d' ≡ both_written der key_der d

  written_inv :
      (der key_der : Bytes) (d d' : Disk)
      → write_both lib now ends cert_path key_path der key_der d ≡ (ok tt, d')
      → d' ≡ both_written der key_der d
  unfolding write_both write_file then_certificate done_or
  written_inv der key_der d d' h = go ends.key ends.certificate refl refl
    where
      go : (k c : WriteEnd) → ends.key ≡ k → ends.certificate ≡ c → d' ≡ both_written der key_der d
      go wrote wrote e e' = sym (ap (λ (x : Result (Unit {0}) × Disk). x.1) (rw (e, e') at h))
      go wrote refused e e' = cc (rw (e, e') at h)
      go wrote (cut n) e e' = cc (rw (e, e') at h)
      go refused c e e' = cc (rw e at h)
      go (cut n) c e e' = cc (rw e at h)

  generated :
      (d d' : Disk)
      → generate_self_signed lib now ends cert_path key_path d ≡ (ok tt, d')
      → Generated d d'
  unfolding generate_self_signed keyed numbered certified marshalled
  generated d d' h = elim (Option-cases lib.new_key) [
    | inl e ↦ cc (rw e at h)
    | inr (key, e) ↦ elim (Option-cases lib.random_serial) [
      | inl e' ↦ cc (rw (e, e') at h)
      | inr (serial, e') ↦ elim (Option-cases (lib.new_certificate (template now serial) key)) [
        | inl e'' ↦ cc (rw (e, e', e'') at h)
        | inr (der, e'') ↦ elim (Option-cases (lib.marshal key)) [
          | inl e3 ↦ cc (rw (e, e', e'', e3) at h)
          | inr (key_der, e3) ↦ record {
            key = key;
            serial = serial;
            der = der;
            key_der = key_der;
            signed = e'';
            encoded = e3;
            final = written_inv der key_der d d' (rw (e, e', e'', e3) at h);
          }
        ]
      ]
    ]
  ]

  module _ (d d' : Disk)
      (done : generate_self_signed lib now ends cert_path key_path d ≡ (ok tt, d')) where
    g : Generated d d'
    g = generated d d' done

    at_cert :
        d' cert_path
        ≡ some (record {
          content = lib.encode_pem (certificate_block g.der);
          mode =
              mode_of
                (put d key_path (lib.encode_pem (key_block g.key_der)) owner_only cert_path)
                world_readable;
        })
    at_cert = ap (λ (x : Disk). x cert_path) g.final ∙ rw (bytes_eq_refl cert_path) refl

    at_key :
        cert_path ≢ key_path
        → d' key_path
          ≡ some (record {
            content = lib.encode_pem (key_block g.key_der);
            mode = mode_of (d key_path) owner_only;
          })
    at_key apart =
        ap (λ (x : Disk). x key_path) g.final
        ∙ rw (bytes_ne cert_path key_path apart, bytes_eq_refl key_path) refl

    -- After a successful generation at two different paths, a server with these files presents the
    -- generated certificate, and a client with a copy of the certificate's file accepts a connection
    -- exactly if the peer presents that certificate.
    pub generate_pins :
        (protos chain : List Bytes) (leaf : Bytes)
        → Lawful lib
        → cert_path ≢ key_path
        → (s : ServerTls) × (c : ClientTls) × (server_config
              (files_of lib d')
              cert_path
              key_path
              protos
            ≡ ok s)
          × (pinned_client_config (files_of lib d') cert_path protos ≡ ok c)
          × ((verify_connection c (leaf ∷ chain) ≡ ok tt) ↔ (leaf ≡ s.certificate))
    unfolding server_config pinned_client_config verify_connection files_of
    generate_pins protos chain leaf laws apart = (
      record { certificate = g.der; next_protos = protos },
      record { pinned = g.der; next_protos = protos },
      rw (at_cert, at_key apart, laws.pairs now g.serial g.key g.der g.key_der g.signed g.encoded)
          refl,
      rw (at_cert, pinned_file, laws.decodes (certificate_block g.der)) refl,
      ground (arith, bytes_eq_iff leaf g.der),
    )

    -- After a successful generation at two different paths, the private key's file has the mode 0600
    -- if it is new; a file that was there keeps its mode.
    generate_mode :
        cert_path ≢ key_path
        → (f : File) × (d' key_path ≡ some f)
          × (((d key_path ≡ none) × (f.mode ≡ owner_only))
              ⊎ ((old : File) × (d key_path ≡ some old) × (f.mode ≡ old.mode)))
    generate_mode apart = (_, at_key apart, kept (d key_path) refl)
      where
        kept :
            (o : Option File)
            → d key_path ≡ o
            → ((d key_path ≡ none) × (mode_of (d key_path) owner_only ≡ owner_only))
              ⊎ ((old : File) × (d key_path ≡ some old)
                  × (mode_of (d key_path) owner_only ≡ old.mode))
        kept none e = inl (e, rw e refl)
        kept (some f) e = inr (f, e, rw e refl)
