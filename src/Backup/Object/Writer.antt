-- ===== src/Backup/Object/Writer.antt =====
-- `BackupObjectWriterV1` and `seal_object_v1` of crates/kchat-backup/src/object/writer.rs.
pub mod Terminal
pub mod Total
pub mod Progress
pub mod Sealing
use kchat_rust_sdk.Base.{
  ℕ, zero, suc, ◌+◌, Bool, true, false, Option, none, some, Bytes, length, ltb, ◌==◌, if◌then◌else◌,
  ok, err,
}
use kchat_rust_sdk.Backup.Error.{BackupErrorCode, Fallible, invalid_state, io_error, cancelled}
use kchat_rust_sdk.Backup.Limits.{max_io_chunk_bytes, max_plaintext_object_bytes}
use kchat_rust_sdk.Backup.Exec.{Exec}
use kchat_rust_sdk.Backup.Context.{BackupObjectContext}
use kchat_rust_sdk.Backup.Object.Io.{ByteSource, ByteSink, checked_add_limited}
use kchat_rust_sdk.Backup.Object.Stream.{StreamCipher, Compressor}
use kchat_rust_sdk.Backup.Object.Frames.{
  EnvelopeWriter, BackupObjectDescriptor, write_pieces, new_envelope, finish_envelope,
}

pub data WriterTerminal : Type 0 where
  active finished aborted failed : WriterTerminal

abbrev pub is_active : WriterTerminal → Bool
is_active active = true
is_active finished = false
is_active aborted = false
is_active failed = false

pub record ActiveWriter (T E Z : Type 0) : Type 0 where
  pub encoder : Z
  pub envelope : EnvelopeWriter T E
  pub plaintext_bytes : ℕ

-- The writer borrows the sink: `sink` is the sink's state once no envelope holds it.
pub record BackupObjectWriter (T E Z : Type 0) : Type 0 where
  pub current : Option (ActiveWriter T E Z)
  pub terminal : WriterTerminal
  pub sink : T

-- `take_failure().unwrap_or_else(BackupError::io_error)`
abbrev pub failure_or_io_error : Option BackupErrorCode → BackupErrorCode
failure_or_io_error none = io_error
failure_or_io_error (some e) = e

module _ {T : Type 0} (c : StreamCipher) (z : Compressor) (out : ByteSink T) where
  abbrev pub Writer : Type 0
  Writer = BackupObjectWriter T c.Encryptor z.Encoder

  -- The envelope writer is dropped, and the sink is left as it is.
  abbrev pub close : WriterTerminal → T → Writer
  close terminal t = record { current = none; terminal = terminal; sink = t }

  -- `random` is what the system's generator gives for the nonce prefix.
  unfoldable pub new_writer : Option Bytes → BackupObjectContext → T → Fallible Writer × T
  new_writer none context t = (err io_error, t)
  new_writer (some nonce_prefix) context t =
      let (r, envelope) = new_envelope c out context nonce_prefix t in
      elim r [
        | err e ↦ (err e, envelope.sink)
        | ok _ ↦ elim z.new [
          | none ↦ (err io_error, envelope.sink)
          | some encoder ↦ (
            ok (record {
              current =
                  some (record { encoder = encoder; envelope = envelope; plaintext_bytes = 0 });
              terminal = active;
              sink = envelope.sink;
            }),
            envelope.sink,
          )
        ]
      ]

  -- `encoder.write_all`: the pieces go to the envelope, and the encoder goes on if it can.
  unfoldable pub encode :
      Bytes → ActiveWriter T c.Encryptor z.Encoder → Fallible (Unit {0}) × Writer
  encode bytes a =
      let p = z.write_all a.encoder bytes in
      let (r, envelope) = write_pieces c out p.pieces a.envelope in
      let failing : Fallible (Unit {0}) × Writer =
        (err (failure_or_io_error envelope.failure), close failed envelope.sink) in
      elim r [
        | err _ ↦ failing
        | ok _ ↦ elim p.next [
          | none ↦ failing
          | some encoder ↦ (
            ok tt,
            record {
              current = some (record a { encoder = encoder; envelope = envelope });
              terminal = active;
              sink = envelope.sink;
            },
          )
        ]
      ]

  unfoldable pub write_active :
      Bytes → ActiveWriter T c.Encryptor z.Encoder → Fallible (Unit {0}) × Writer
  write_active bytes a =
      elim (checked_add_limited a.plaintext_bytes (length bytes) max_plaintext_object_bytes) [
        | err e ↦ (err e, close failed a.envelope.sink)
        | ok total ↦ encode bytes (record a { plaintext_bytes = total })
      ]

  unfoldable pub write_plaintext : Bytes → Exec Writer (Unit {0})
  write_plaintext bytes w =
      if is_active w.terminal
      then elim w.current [ none ↦ (err invalid_state, w) | some a ↦ write_active bytes a ]
      else (err invalid_state, w)

  unfoldable pub finish_active :
      ActiveWriter T c.Encryptor z.Encoder → Fallible BackupObjectDescriptor × Writer
  finish_active a =
      let p = z.finish a.encoder in
      let (r, envelope) = write_pieces c out p.pieces a.envelope in
      let failing : Fallible BackupObjectDescriptor × Writer =
        (err (failure_or_io_error envelope.failure), close failed envelope.sink) in
      elim r [
        | err _ ↦ failing
        | ok _ ↦ elim p.next [
          | none ↦ failing
          | some _ ↦
              let (d, envelope') = finish_envelope c out envelope in
              elim d [
                | err e ↦ (err e, close failed envelope'.sink)
                | ok descriptor ↦ (ok descriptor, close finished envelope'.sink)
              ]
        ]
      ]

  unfoldable pub finish : Exec Writer BackupObjectDescriptor
  finish w =
      if is_active w.terminal
      then elim w.current [ none ↦ (err invalid_state, w) | some a ↦ finish_active a ]
      else (err invalid_state, w)

  unfoldable pub abort : Exec Writer (Unit {0})
  abort w =
      if is_active w.terminal
      then elim w.current [
        | none ↦ (ok tt, record w { terminal = aborted })
        | some a ↦ (ok tt, close aborted a.envelope.sink)
      ]
      else (err invalid_state, w)

  -- `let _ = writer.abort(); return Err(BackupError::cancelled())`
  abbrev pub abort_cancelled {ℓ} : {A : Type ℓ} → Exec Writer A
  abort_cancelled w = let (_, w') = abort w in (err cancelled, w')

-- What a loop over a source leaves behind.
pub record LoopOutcome (A S W : Type 0) : Type 0 where
  pub result : Fallible A
  pub source : S
  pub writer : W

module _ {S T : Type 0} (c : StreamCipher) (z : Compressor) (source : ByteSource S)
    (out : ByteSink T) where
  abbrev pub Round : Type 0 → Type 0
  Round A = Option (LoopOutcome A S (Writer c z out))

  -- A chunk that was read, and was no end of file.
  unfoldable pub seal_chunk :
      (S → Writer c z out → Round (Unit {0})) → Bytes → S → Writer c z out → Round (Unit {0})
  seal_chunk again chunk s w =
      let (stop, s') = source.is_cancelled s in
      elim stop [
        | true ↦
            let (r, w') = abort_cancelled c z out {A = Unit {0}} w in
            some (record { result = r; source = s'; writer = w' })
        | false ↦
            let (r, w') = write_plaintext c z out chunk w in
            elim r [
              | err e ↦ some (record { result = err e; source = s'; writer = w' })
              | ok _ ↦ again s' w'
            ]
      ]

  -- The loop of `seal_object_v1`, a round per unit of fuel.
  unfoldable pub seal_loop : ℕ → S → Writer c z out → Round (Unit {0})
  seal_loop zero s w = none
  seal_loop (suc fuel) s w =
      let (stop, s₁) = source.is_cancelled s in
      elim stop [
        | true ↦
            let (r, w') = abort_cancelled c z out {A = Unit {0}} w in
            some (record { result = r; source = s₁; writer = w' })
        | false ↦
            let (r, s₂) = source.read_chunk max_io_chunk_bytes s₁ in
            elim r [
              | err e ↦ some (record { result = err e; source = s₂; writer = w })
              | ok chunk ↦
                  if ltb max_io_chunk_bytes (length chunk)
                  then some (record { result = err invalid_state; source = s₂; writer = w })
                  else if length chunk == 0
                  then some (record { result = ok tt; source = s₂; writer = w })
                  else seal_chunk (seal_loop fuel) chunk s₂ w
            ]
      ]

  -- What follows the loop.
  unfoldable pub seal_end :
      LoopOutcome (Unit {0}) S (Writer c z out)
      → LoopOutcome BackupObjectDescriptor S (Writer c z out)
  seal_end o = elim o.result [
    | err e ↦ record { result = err e; source = o.source; writer = o.writer }
    | ok _ ↦
        let (stop, s) = source.is_cancelled o.source in
        elim stop [
          | true ↦
              let (r, w) = abort_cancelled c z out {A = BackupObjectDescriptor} o.writer in
              record { result = r; source = s; writer = w }
          | false ↦
              let (r, w) = finish c z out o.writer in record { result = r; source = s; writer = w }
        ]
  ]

  -- Where no writer was made, the writer of the outcome only carries the sink's state. The fuel is one
  -- round more than the bytes that may be sealed.
  unfoldable pub seal_object :
      Option Bytes → BackupObjectContext → S → T → Round BackupObjectDescriptor
  seal_object random context s t =
      let (stop, s₁) = source.is_cancelled s in
      elim stop [
        | true ↦
            some (record { result = err cancelled; source = s₁; writer = close c z out failed t })
        | false ↦
            let (r, t') = new_writer c z out random context t in
            elim r [
              | err e ↦
                  some (record { result = err e; source = s₁; writer = close c z out failed t' })
              | ok w ↦ elim (seal_loop (suc (suc max_plaintext_object_bytes)) s₁ w) [
                | none ↦ none
                | some o ↦ some (seal_end o)
              ]
            ]
      ]
