-- ===== src/Backup/Object/Writer/Progress.antt =====
-- What an active writer has put out: an invariant that every successful write keeps.
use kchat_rust_sdk.Base.{
  ◌+◌, ◌≡◌, ◌≢◌, refl, ap, subst, ◌∙◌, none, some, [], ◌++◌, inl, inr, arith, Bytes, length, flat,
  ok, Option-cases,
}
use mathlib.Core.Option
use kchat_rust_sdk.Backup.Context.{BackupObjectContext}
use kchat_rust_sdk.Backup.Object.Envelope.{serialize_header}
use kchat_rust_sdk.Backup.Object.Io.{ByteSink, checked_add_limited}
use kchat_rust_sdk.Backup.Object.Stream.{StreamCipher, Compressor}
use kchat_rust_sdk.Backup.Object.Frames.{EnvelopeWriter, write_pieces, new_envelope}
use kchat_rust_sdk.Backup.Object.Frames.Layout.{IsRecorder, write_envelope_bytes-PutsOut}
use kchat_rust_sdk.Backup.Object.Frames.Bounds.{
  IsCounted, new_envelope-IsCounted, write_pieces-IsCounted,
}
use kchat_rust_sdk.Backup.Object.Frames.Refinement.{
  Sealed-rest, Advances, Advances-trans, Advances-short, write_pieces-Advances,
}
use kchat_rust_sdk.Backup.Object.Writer.{
  ActiveWriter, Writer, encode, write_active, write_plaintext, new_writer,
}

-- From encoder `e` to `e'` the plaintext `p` gave the compressed bytes `q`.
pub data Encodes (z : Compressor) (e : z.Encoder) : Bytes → Bytes → z.Encoder → Type 0 where
  start : Encodes z e [] [] e
  more :
      {e' e'' : z.Encoder} {p q : Bytes} (x : Bytes)
      → Encodes z e p q e'
      → (z.write_all e' x).next ≡ some e''
      → Encodes z e (p ++ x) (q ++ flat (z.write_all e' x).pieces) e''

module _ {T : Type 0} (c : StreamCipher) (z : Compressor) (out : ByteSink T) (seen : T → Bytes)
    (law : IsRecorder out seen) (context : BackupObjectContext) (nonce : Bytes) (t₀ : T) where
  -- The envelope as it is when its header has been written, and its cipher.
  abbrev pub fresh : EnvelopeWriter T c.Encryptor
  fresh = (new_envelope c out context nonce t₀).1

  abbrev pub cipher : c.Encryptor
  cipher = c.new_encryptor context.object_key.bytes nonce

  -- An active writer that has taken the plaintext `p`.
  pub record Holds (p : Bytes) (a : ActiveWriter T c.Encryptor z.Encoder) : Type 0 where
    pub first : z.Encoder
    pub made : z.new ≡ some first
    pub compressed : Bytes
    pub encodes : Encodes z first p compressed a.encoder
    pub advances : Advances c out seen law compressed cipher fresh a.envelope
    pub counted : IsCounted a.envelope

  encode-ok :
      (bytes : Bytes) (a : ActiveWriter T c.Encryptor z.Encoder)
      → (encode c z out bytes a).0 ≡ ok tt
      → ((write_pieces c out (z.write_all a.encoder bytes).pieces a.envelope).0 ≡ ok tt)
        × ((z.write_all a.encoder bytes).next ≢ none)
  unfolding encode
  encode-ok bytes a h = ground arith

  encode-current :
      (bytes : Bytes) (a : ActiveWriter T c.Encryptor z.Encoder) (e : z.Encoder)
      → (encode c z out bytes a).0 ≡ ok tt
      → (z.write_all a.encoder bytes).next ≡ some e
      → (encode c z out bytes a).1.current
        ≡ some (record a {
          encoder = e;
          envelope = (write_pieces c out (z.write_all a.encoder bytes).pieces a.envelope).1;
        })
  unfolding encode
  encode-current bytes a e h n = ground arith

  encode-Holds :
      (bytes p : Bytes) (a : ActiveWriter T c.Encryptor z.Encoder)
      → Holds p a
      → (encode c z out bytes a).0 ≡ ok tt
      → (a' : ActiveWriter T c.Encryptor z.Encoder) × ((encode c z out bytes a).1.current ≡ some a')
        × Holds (p ++ bytes) a'
  encode-Holds bytes p a v h = elim (Option-cases (z.write_all a.encoder bytes).next) [
    | inl n ↦ absurd ((encode-ok bytes a h).1 n)
    | inr (e, n) ↦
        let w = v.advances in
        let pieces = (z.write_all a.encoder bytes).pieces in
        (
          _,
          encode-current bytes a e h n,
          record {
            first = v.first;
            made = v.made;
            compressed = v.compressed ++ flat pieces;
            encodes = more bytes v.encodes n;
            advances =
                Advances-trans c out seen law v.compressed (flat pieces) cipher fresh a.envelope _ w
                  (write_pieces-Advances c out seen law pieces w.next a.envelope
                    (Sealed-rest c _ w.sealed) w.encryptor (encode-ok bytes a h).0);
            counted = write_pieces-IsCounted c out pieces a.envelope v.counted;
          },
        )
  ]

  write_plaintext-ok :
      (bytes : Bytes) (w : Writer c z out) (a b : ActiveWriter T c.Encryptor z.Encoder)
      → w.current ≡ some a
      → b ≡ record a { plaintext_bytes = a.plaintext_bytes + length bytes }
      → (write_plaintext c z out bytes w).0 ≡ ok tt
      → ((encode c z out bytes b).0 ≡ ok tt)
        × ((write_plaintext c z out bytes w).1 ≡ (encode c z out bytes b).1)
  unfolding write_plaintext write_active checked_add_limited
  write_plaintext-ok bytes w a b cur e h = ground arith

  -- A writer that has taken `p`.
  abbrev pub Took : Bytes → Writer c z out → Type 0
  Took p w = (a : ActiveWriter T c.Encryptor z.Encoder) × (w.current ≡ some a) × Holds p a

  pub write_plaintext-Took :
      (bytes p : Bytes) (w : Writer c z out)
      → Took p w
      → (write_plaintext c z out bytes w).0 ≡ ok tt
      → Took (p ++ bytes) (write_plaintext c z out bytes w).1
  write_plaintext-Took bytes p w (a, cur, v) h =
      let b : ActiveWriter T c.Encryptor z.Encoder = record a {
        plaintext_bytes = a.plaintext_bytes + length bytes;
      } in
      let (encoded, same) = write_plaintext-ok bytes w a b cur refl h in
      let v' : Holds p b = record {
        first = v.first;
        made = v.made;
        compressed = v.compressed;
        encodes = v.encodes;
        advances = v.advances;
        counted = v.counted;
      } in
      rw same (encode-Holds bytes p b v' encoded)

  -- The envelope after its header.
  pub record IsFresh : Type 0 where
    pub pending : fresh.pending ≡ []
    pub encryptor : fresh.encryptor ≡ some cipher
    pub context' : fresh.canonical_context ≡ context.canonical_bytes
    pub hashed : fresh.hashed ≡ serialize_header nonce
    pub sink : seen fresh.sink ≡ seen t₀ ++ serialize_header nonce

  new_envelope-IsFresh : (new_envelope c out context nonce t₀).0 ≡ ok tt → IsFresh
  unfolding new_envelope
  new_envelope-IsFresh h =
      let (p, q) = write_envelope_bytes-PutsOut c out seen law (serialize_header nonce) _ h in
      record {
        pending = q.pending;
        encryptor = q.encryptor;
        context' = p.context;
        hashed = p.hashed;
        sink = p.sink;
      }

  new_writer-ok :
      (w : Writer c z out)
      → (new_writer c z out (some nonce) context t₀).0 ≡ ok w
      → ((new_envelope c out context nonce t₀).0 ≡ ok tt)
        × (z.new ≢ none)
        × (w.current
            ≡ Option.map (λ e. record { encoder = e; envelope = fresh; plaintext_bytes = 0 }) z.new)
  unfolding new_writer
  new_writer-ok w h = ground arith

  pub new_writer-Took :
      (w : Writer c z out)
      → (new_writer c z out (some nonce) context t₀).0 ≡ ok w
      → Took [] w × IsFresh
  new_writer-Took w h =
      let (header, made, cur) = new_writer-ok w h in
      let f = new_envelope-IsFresh header in
      elim (Option-cases z.new) [
        | inl n ↦ absurd (made n)
        | inr (e, n) ↦ (
          (
            record { encoder = e; envelope = fresh; plaintext_bytes = 0 },
            cur ∙ ap (Option.map _) n,
            record {
              first = e;
              made = n;
              compressed = [];
              encodes = start;
              advances =
                  subst (λ b. Advances c out seen law b cipher fresh fresh) f.pending
                    (Advances-short c out seen law cipher fresh (omega (arith, ap length f.pending))
                      f.encryptor);
              counted = new_envelope-IsCounted c out context nonce t₀;
            },
          ),
          f,
        )
      ]
