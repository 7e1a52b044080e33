-- ===== src/Backup/Object/Writer/Sealing.antt =====
-- What a successful sealing has put into the sink.
use kchat_rust_sdk.Base.{
  ℕ, zero, suc, ◌<◌, ◌≡◌, ◌≢◌, refl, ◌⊎◌, sym, ap, subst, ◌∙◌, false, none, some, [], ◌++◌, inl,
  inr, arith, Bytes, length, flat, ok, err, Result-cases, Option-cases, append_assoc, append-nil,
  length-eq_zero,
}
use kchat_rust_sdk.Backup.Error.{BackupErrorCode}
use kchat_rust_sdk.Backup.Limits.{max_io_chunk_bytes, max_plaintext_object_bytes}
use kchat_rust_sdk.Backup.Context.{BackupObjectContext}
use kchat_rust_sdk.Backup.Object.Envelope.{serialize_header}
use kchat_rust_sdk.Backup.Object.Io.{ByteSource, ByteSink}
use kchat_rust_sdk.Backup.Object.Stream.{StreamCipher, Compressor}
use kchat_rust_sdk.Backup.Object.Frames.{
  EnvelopeWriter, BackupObjectDescriptor, write_pieces, finish_envelope,
}
use kchat_rust_sdk.Backup.Object.Frames.Layout.{IsRecorder, frame}
use kchat_rust_sdk.Backup.Object.Frames.Bounds.{write_pieces-IsCounted, finish_envelope-IsCounted}
use kchat_rust_sdk.Backup.Object.Frames.Refinement.{
  Sealed, Sealed-rest, Advances-trans, write_pieces-Advances, finish_envelope-IsFinished,
}
use kchat_rust_sdk.Backup.Object.Writer.{
  ActiveWriter, Writer, LoopOutcome, write_plaintext, finish_active, finish, new_writer, seal_loop,
  seal_chunk, seal_end, seal_object,
}
use kchat_rust_sdk.Backup.Object.Writer.Progress.{
  Encodes, Took, IsFresh, write_plaintext-Took, new_writer-Took,
}

-- The specification of a sealed object of plaintext `p` and of its descriptor: the header, the whole
-- blocks of the compressed plaintext, and the last block.
pub record IsObject (c : StreamCipher) (z : Compressor) (context : BackupObjectContext)
    (nonce p object : Bytes) (d : BackupObjectDescriptor) : Type 0 where
  pub first : z.Encoder
  pub made : z.new ≡ some first
  pub compressed : Bytes
  pub last : z.Encoder
  pub encodes : Encodes z first p compressed last
  pub blocks : Bytes
  pub state : c.Encryptor
  pub rest : Bytes
  pub sealed :
      Sealed c context.canonical_bytes
        (c.new_encryptor context.object_key.bytes nonce)
        (compressed ++ flat (z.finish last).pieces)
        blocks
        state
        rest
  pub tail : Bytes
  pub sealed_last : c.encrypt_last state context.canonical_bytes rest ≡ some tail
  pub layout : object ≡ serialize_header nonce ++ (blocks ++ frame tail)
  pub size : d.ciphertext_size ≡ length object
  pub digest : d.ciphertext_sha256 ≡ c.sha256 object
  pub version : d.format_version ≡ 1

module _ {T : Type 0} (c : StreamCipher) (z : Compressor) (out : ByteSink T) (seen : T → Bytes)
    (law : IsRecorder out seen) (context : BackupObjectContext) (nonce : Bytes) (t₀ : T) where
  finish-ok :
      (w : Writer c z out) (a : ActiveWriter T c.Encryptor z.Encoder)
      (v : EnvelopeWriter T c.Encryptor) (d : BackupObjectDescriptor)
      → w.current ≡ some a
      → v ≡ (write_pieces c out (z.finish a.encoder).pieces a.envelope).1
      → (finish c z out w).0 ≡ ok d
      → ((write_pieces c out (z.finish a.encoder).pieces a.envelope).0 ≡ ok tt)
        × ((finish_envelope c out v).0 ≡ ok d)
        × ((finish c z out w).1.sink ≡ (finish_envelope c out v).1.sink)
  unfolding finish finish_active
  finish-ok w a v d cur e h = ground arith

  -- The object in the sink, and its descriptor, from the invariant.
  finish-IsObject :
      (p : Bytes) (w : Writer c z out) (d : BackupObjectDescriptor)
      → IsFresh c z out seen law context nonce t₀
      → Took c z out seen law context nonce t₀ p w
      → (finish c z out w).0 ≡ ok d
      → (object : Bytes) × (seen (finish c z out w).1.sink ≡ seen t₀ ++ object)
        × IsObject c z context nonce p object d
  finish-IsObject p w d f (a, cur, v) h =
      let pieces = (z.finish a.encoder).pieces in
      let u = (write_pieces c out pieces a.envelope).1 in
      let (written, done, sink) = finish-ok w a u d cur refl h in
      let g = v.advances in
      let s =
        write_pieces-Advances c out seen law pieces g.next a.envelope (Sealed-rest c _ g.sealed)
          g.encryptor written in
      let all = Advances-trans c out seen law v.compressed (flat pieces) _ _ a.envelope u g s in
      let e = finish_envelope-IsFinished c out seen law all.next u d all.encryptor done in
      let header = serialize_header nonce in
      let tail = frame e.ciphertext in
      let object = header ++ (all.bytes ++ tail) in
      let end_ = (finish_envelope c out u).1 in
      let hashed : end_.hashed ≡ object =
        e.puts.hashed
        ∙ ap (λ b. b ++ tail) (all.puts.hashed ∙ ap (λ b. b ++ all.bytes) f.hashed)
        ∙ append_assoc header all.bytes tail in
      let shown : seen end_.sink ≡ seen t₀ ++ object =
        e.puts.sink
        ∙ ap (λ b. b ++ tail) (all.puts.sink ∙ ap (λ b. b ++ all.bytes) f.sink)
        ∙ append_assoc (seen t₀ ++ header) all.bytes tail
        ∙ append_assoc (seen t₀) header (all.bytes ++ tail) in
      let counted =
        (finish_envelope-IsCounted c out u
          (write_pieces-IsCounted c out pieces a.envelope v.counted)).counted in
      (
        object,
        ap seen sink ∙ shown,
        record {
          first = v.first;
          made = v.made;
          compressed = v.compressed;
          last = a.encoder;
          encodes = v.encodes;
          blocks = all.bytes;
          state = all.next;
          rest = u.pending;
          sealed =
              subst
                (λ x.
                  Sealed c x (c.new_encryptor context.object_key.bytes nonce)
                    (v.compressed ++ flat pieces) all.bytes all.next u.pending)
                f.context' all.sealed;
          tail = e.ciphertext;
          sealed_last =
              subst (λ x. c.encrypt_last all.next x u.pending ≡ some e.ciphertext)
                (all.puts.context ∙ f.context') e.sealed;
          layout = refl;
          size = e.size ∙ counted ∙ ap length hashed;
          digest = e.digest ∙ ap c.sha256 hashed;
          version = e.version;
        },
      )

-- What a source gives to the sealing loop up to its first empty chunk: each chunk is read after a poll
-- that is not cancelled, is not empty, and is followed by another such poll.
pub data Gives {S : Type 0} (source : ByteSource S) : S → Bytes → S → Type 0 where
  at_end :
      {s : S}
      → (source.is_cancelled s).0 ≡ false
      → (source.read_chunk max_io_chunk_bytes (source.is_cancelled s).1).0 ≡ ok []
      → Gives source s [] (source.read_chunk max_io_chunk_bytes (source.is_cancelled s).1).1
  chunk :
      {s u s' : S} {rest : Bytes} (x : Bytes)
      → (source.is_cancelled s).0 ≡ false
      → (source.read_chunk max_io_chunk_bytes (source.is_cancelled s).1).0 ≡ ok x
      → 0 < length x
      → u ≡ (source.read_chunk max_io_chunk_bytes (source.is_cancelled s).1).1
      → (source.is_cancelled u).0 ≡ false
      → Gives source (source.is_cancelled u).1 rest s'
      → Gives source s (x ++ rest) s'

module _ {S T : Type 0} (c : StreamCipher) (z : Compressor) (source : ByteSource S)
    (out : ByteSink T) (seen : T → Bytes) (law : IsRecorder out seen)
    (context : BackupObjectContext) (nonce : Bytes) (t₀ : T) where
  abbrev Outcome : Type 0
  Outcome = LoopOutcome (Unit {0}) S (Writer c z out)

  -- A round of the loop that leads to success.
  round-ok :
      (fuel : ℕ) (s u : S) (x : Bytes) (w : Writer c z out) (o : Outcome)
      → seal_loop c z source out (suc fuel) s w ≡ some o
      → o.result ≡ ok tt
      → (source.read_chunk max_io_chunk_bytes (source.is_cancelled s).1).0 ≡ ok x
      → u ≡ (source.read_chunk max_io_chunk_bytes (source.is_cancelled s).1).1
      → ((source.is_cancelled s).0 ≡ false)
        × (((x ≡ []) × (o.source ≡ u) × (o.writer ≡ w))
            ⊎ ((0 < length x)
                × ((source.is_cancelled u).0 ≡ false)
                × ((write_plaintext c z out x w).0 ≡ ok tt)
                × (seal_loop c z source out fuel
                      (source.is_cancelled u).1
                      (write_plaintext c z out x w).1
                    ≡ some o)))
  unfolding seal_loop seal_chunk
  round-ok fuel s u x w o e r read eu = ground (arith, length-eq_zero x)

  seal_loop-Took :
      (fuel : ℕ) (s : S) (p : Bytes) (w : Writer c z out) (o : Outcome)
      → Took c z out seen law context nonce t₀ p w
      → seal_loop c z source out fuel s w ≡ some o
      → o.result ≡ ok tt
      → (q : Bytes) × Gives source s q o.source
        × Took c z out seen law context nonce t₀ (p ++ q) o.writer
  seal_loop-Took zero s p w o k e r = absurd (unfold seal_loop in ground arith)
  seal_loop-Took (suc fuel) s p w o k e r =
      elim (Result-cases (source.read_chunk max_io_chunk_bytes (source.is_cancelled s).1).0) [
        | inl (x, read) ↦
            let u = (source.read_chunk max_io_chunk_bytes (source.is_cancelled s).1).1 in
            let (go_on, cases) = round-ok fuel s u x w o e r read refl in
            elim cases [
              | inl (empty, os, ow) ↦ (
                [],
                subst (λ y. Gives source s [] y) (sym os) (at_end go_on (read ∙ ap ok empty)),
                rw append-nil (subst (Took c z out seen law context nonce t₀ p) (sym ow) k),
              )
              | inr (filled, again, written, e') ↦
                  let (q, gives, took) =
                    seal_loop-Took fuel _ (p ++ x) _ o
                      (write_plaintext-Took c z out seen law context nonce t₀ x p w k written) e'
                      r in
                  (
                    x ++ q,
                    chunk x go_on read filled refl again gives,
                    subst (λ b. Took c z out seen law context nonce t₀ b o.writer)
                        (append_assoc p x q) took,
                  )
            ]
        | inr (x, read) ↦ absurd (unfold seal_loop in ground arith)
      ]

  -- The parts of a sealing that succeeded.
  seal_object-ok :
      (s : S) (w : Writer c z out) (o₁ : Outcome)
      (o : LoopOutcome BackupObjectDescriptor S (Writer c z out)) (d : BackupObjectDescriptor)
      → (new_writer c z out (some nonce) context t₀).0 ≡ ok w
      → seal_loop c z source out (suc (suc max_plaintext_object_bytes)) (source.is_cancelled s).1 w
        ≡ some o₁
      → seal_object c z source out (some nonce) context s t₀ ≡ some o
      → o.result ≡ ok d
      → ((source.is_cancelled s).0 ≡ false)
        × (o₁.result ≡ ok tt)
        × ((finish c z out o₁.writer).0 ≡ ok d)
        × (o.writer ≡ (finish c z out o₁.writer).1)
        × ((source.is_cancelled o₁.source).0 ≡ false)
        × (o.source ≡ (source.is_cancelled o₁.source).1)
  unfolding seal_object seal_end
  seal_object-ok s w o₁ o d made looped e r = ground arith

  seal_object-made :
      (s : S) (x : BackupErrorCode) (o : LoopOutcome BackupObjectDescriptor S (Writer c z out))
      (d : BackupObjectDescriptor)
      → (new_writer c z out (some nonce) context t₀).0 ≡ err x
      → seal_object c z source out (some nonce) context s t₀ ≡ some o
      → o.result ≢ ok d
  unfolding seal_object
  seal_object-made s x o d made e r = ground arith

  seal_object-looped :
      (s : S) (w : Writer c z out) (o : LoopOutcome BackupObjectDescriptor S (Writer c z out))
      (d : BackupObjectDescriptor)
      → (new_writer c z out (some nonce) context t₀).0 ≡ ok w
      → seal_loop c z source out (suc (suc max_plaintext_object_bytes)) (source.is_cancelled s).1 w
        ≡ none
      → seal_object c z source out (some nonce) context s t₀ ≡ some o
      → o.result ≢ ok d
  unfolding seal_object
  seal_object-looped s w o d made looped e r = ground arith

  -- Given a sink whose state shows what it has accepted: if sealing with nonce prefix `nonce`
  -- returns a descriptor, the source gave some plaintext up to its first empty chunk with no poll
  -- cancelled, the poll after that end was not cancelled either and was the last call of the source,
  -- the sink has gained exactly one object, and that object is the specified one for this
  -- plaintext: header, framed blocks of 64 KiB of its compression, last block. The descriptor has
  -- the object's length, its SHA-256 and version 1.
  pub seal_object-IsObject :
      (s : S) (o : LoopOutcome BackupObjectDescriptor S (Writer c z out))
      (d : BackupObjectDescriptor)
      → seal_object c z source out (some nonce) context s t₀ ≡ some o
      → o.result ≡ ok d
      → (p : Bytes) × (s' : S) × (object : Bytes) × ((source.is_cancelled s).0 ≡ false)
        × Gives source (source.is_cancelled s).1 p s'
        × ((source.is_cancelled s').0 ≡ false)
        × (o.source ≡ (source.is_cancelled s').1)
        × (seen o.writer.sink ≡ seen t₀ ++ object)
        × IsObject c z context nonce p object d
  seal_object-IsObject s o d e r =
      elim (Result-cases (new_writer c z out (some nonce) context t₀).0) [
        | inr (x, made) ↦ absurd (seal_object-made s x o d made e r)
        | inl (w, made) ↦
            elim (Option-cases (
              seal_loop c z source out (suc (suc max_plaintext_object_bytes))
                (source.is_cancelled s).1 w)) [
                  | inl looped ↦ absurd (seal_object-looped s w o d made looped e r)
                  | inr (o₁, looped) ↦
                      let (go_on, ended, finished_, same, kept_on, left) =
                        seal_object-ok s w o₁ o d made looped e r in
                      let (took, fresh_) =
                        new_writer-Took c z out seen law context nonce t₀ w made in
                      let (p, gives, took') = seal_loop-Took _ _ [] w o₁ took looped ended in
                      let (object, shown, is_object) =
                        finish-IsObject c z out seen law context nonce t₀ p o₁.writer d fresh_ took'
                          finished_ in
                      (
                        p,
                        o₁.source,
                        object,
                        go_on,
                        gives,
                        kept_on,
                        left,
                        ap (λ (v : Writer c z out). seen v.sink) same ∙ shown,
                        is_object,
                      )
                ]
      ]
