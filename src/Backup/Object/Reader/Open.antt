-- ===== src/Backup/Object/Reader/Open.antt =====
-- `authenticate_envelope` and `open_object_v1` of crates/kchat-backup/src/object/reader.rs.
use kchat_rust_sdk.Base.{
  ℕ, zero, suc, ◌+◌, Option, none, some, not, Bytes, ◌==◌, if◌then◌else◌, ok, err, or_fail,
}
use kchat_rust_sdk.Backup.Error.{Fallible, authentication_failed, io_error, malformed_object}
use kchat_rust_sdk.Backup.Limits.{max_ciphertext_object_bytes}
use kchat_rust_sdk.Backup.Exec.{Exec, raise, lift, gets, ◌>>=◌, ◌>>◌}
use kchat_rust_sdk.Backup.Context.{BackupObjectContext}
use kchat_rust_sdk.Backup.Object.Envelope.{
  envelope_header_bytes, compressed_block_bytes, aead_tag_bytes, parse_header,
}
use kchat_rust_sdk.Backup.Object.Io.{ByteSource, ByteSink}
use kchat_rust_sdk.Backup.Object.Stream.{StreamCipher, RawDecoder}
use kchat_rust_sdk.Backup.Object.Compression.{Decoding, new_decoder, finish_decoder, push}
use kchat_rust_sdk.Backup.Object.Reader.{
  CheckedSource, check_cancelled, new_checked_source, read_exact, next_length,
}

-- What the decoder's callbacks change: the input, whose source is polled, and the sink.
pub record Ends (S T : Type 0) : Type 0 where
  pub input : CheckedSource S
  pub sink : T

module _ {S T : Type 0} (c : StreamCipher) (z : RawDecoder) (source : ByteSource S)
    (out : ByteSink T) where
  abbrev pub emit : Bytes → Exec (Ends S T) (Unit {0})
  emit x e = let (r, t) = out.write_chunk x e.sink in (r, record e { sink = t })

  abbrev pub poll : Exec (Ends S T) (Unit {0})
  poll e = let (r, i) = check_cancelled source e.input in (r, record e { input = i })

  abbrev pub Opening : Type 0
  Opening = Decoding z.Decoder (Ends S T)

  abbrev pub on_input {ℓ} : {A : Type ℓ} → Exec (CheckedSource S) A → Exec Opening A
  on_input act st =
      let (r, i) = act st.caller.input in (r, record st { caller = record st.caller { input = i } })

  unfoldable pub push_plain : Bytes → Exec Opening (Unit {0})
  push_plain plain = do on_input (check_cancelled source); push z emit poll plain

  -- The frame is the last if no length follows it.
  unfoldable pub open_frame :
      (ℕ → c.Decryptor → Exec Opening (Unit {0}))
      → Bytes
      → ℕ
      → c.Decryptor
      → Bytes
      → Option ℕ
      → Exec Opening (Unit {0})
  open_frame again aad len d frame none = do
    plain ← lift (or_fail (c.decrypt_last d aad frame) authentication_failed)
    push_plain plain
  open_frame again aad len d frame (some next) =
      if not (len == compressed_block_bytes + aead_tag_bytes) then raise malformed_object else do
        (plain, d') ← lift (or_fail (c.decrypt_next d aad frame) authentication_failed)
        push_plain plain
        again next d'

  -- A frame per unit of fuel; without fuel it stops with an error, which `authenticate_envelope` never
  -- comes to.
  unfoldable pub open_frames : ℕ → Bytes → ℕ → c.Decryptor → Exec Opening (Unit {0})
  open_frames zero aad len d = raise io_error
  open_frames (suc fuel) aad len d = do
    frame ← on_input (read_exact source len)
    next ← on_input (next_length source)
    open_frame (open_frames fuel aad) aad len d frame next

  -- Each frame has at least a byte of those that the input may still give.
  abbrev pub frame_fuel : ℕ
  frame_fuel = suc max_ciphertext_object_bytes

  unfoldable pub authenticate_envelope : BackupObjectContext → Exec Opening (Unit {0})
  authenticate_envelope context = do
    header ← on_input (read_exact source envelope_header_bytes)
    prefix ← lift (parse_header header)
    first ← on_input (next_length source)
    len ← lift (or_fail first malformed_object)
    open_frames frame_fuel context.canonical_bytes len
        (c.new_decryptor context.object_key.bytes prefix)

  unfoldable pub finish_opening : Exec Opening (Unit {0})
  finish_opening = do
    on_input (check_cancelled source)
    inner ← gets (λ st. st.inner)
    lift (finish_decoder z inner)

  -- The source and the sink are given back as they are left.
  unfoldable pub open_object : BackupObjectContext → S → T → Fallible (Unit {0}) × Ends S T
  open_object context s t =
      let (r, input) = new_checked_source source s in
      let ends : Ends S T = record { input = input; sink = t } in
      elim r [
        | err e ↦ (err e, ends)
        | ok _ ↦ elim (new_decoder z) [
          | err e ↦ (err e, ends)
          | ok inner ↦
              let (r', st) =
                (authenticate_envelope context >>= λ _. finish_opening)
                  (record { inner = inner; caller = ends }) in
              (r', st.caller)
        ]
      ]
