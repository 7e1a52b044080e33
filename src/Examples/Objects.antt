-- ===== src/Examples/Objects.antt =====
-- Objects that are copied and sealed.
use kchat_rust_sdk.Base.{
  ℕ, ◌≡◌, refl, false, none, some, List, [], ◌∷◌, ◌++◌, Bytes, codes, length, replicate, flat,
  u16_be, u32_be, ok, arith,
}
use kchat_rust_sdk.Backup.Context.{BackupObjectContext}
use kchat_rust_sdk.Backup.Object.Envelope.{serialize_header}
use kchat_rust_sdk.Backup.Object.Io.{CopyOutcome, copy_opaque_bytes, copy_loop, checked_add_limited}
use kchat_rust_sdk.Backup.Object.Io.Copy.{IsCopy, copy_opaque_bytes-IsCopy}
use kchat_rust_sdk.Backup.Object.Frames.{
  EnvelopeWriter, BackupObjectDescriptor, chunks, write_chunks, write_envelope_bytes,
  write_encrypted_block, seal_block, seal_blocks, write_compressed, write, write_pieces,
  new_envelope, finish_envelope,
}
use kchat_rust_sdk.Backup.Object.Frames.Layout.{frame}
use kchat_rust_sdk.Backup.Object.Frames.Bounds.{IsCounted, write-IsCounted}
use kchat_rust_sdk.Backup.Object.Frames.Refinement.{Advances, write_pieces-Advances}
use kchat_rust_sdk.Backup.Object.Writer.{
  Writer, LoopOutcome, close, active, finished, encode, write_active, write_plaintext,
  finish_active, finish, new_writer, seal_chunk, seal_loop, seal_end, seal_object,
}
use kchat_rust_sdk.Backup.Object.Writer.Terminal.{
  writes, finishes, aborts, IsConsistent, call, run, next, call-next, run_closed,
}
use kchat_rust_sdk.Backup.Object.Writer.Total.{seal_object_total}
use kchat_rust_sdk.Backup.Object.Writer.Sealing.{IsObject, Gives, seal_object-IsObject}
use kchat_rust_sdk.Examples.Toys.{
  cipher, compressor, chunk_source, recorder, recorder-IsRecorder, tag,
}

abbrev pub header : Bytes
unfolding serialize_header u16_be
header = serialize_header (replicate 19 3)

abbrev pub two_chunks : List Bytes
two_chunks = (1 ∷ 2 ∷ []) ∷ (3 ∷ []) ∷ []

abbrev pub copied : CopyOutcome (List Bytes) Bytes
copied = record { result = ok 3; source = []; sink = 1 ∷ 2 ∷ 3 ∷ [] }

copy_result : copy_opaque_bytes chunk_source recorder two_chunks [] ≡ some copied
unfolding copy_opaque_bytes copy_loop checked_add_limited
copy_result = refl

copy_opaque_bytes-IsCopy_example : IsCopy chunk_source recorder 0 two_chunks [] 3 copied
copy_opaque_bytes-IsCopy_example =
    copy_opaque_bytes-IsCopy chunk_source recorder two_chunks [] copied 3 copy_result refl

abbrev pub object_context : BackupObjectContext
object_context = record {
  canonical_bytes = codes "context";
  object_key = record { bytes = replicate 32 7 };
}

abbrev pub object : Bytes
unfolding frame serialize_header u16_be u32_be
object = header ++ frame (tag ++ (40 ∷ 1 ∷ 2 ∷ 3 ∷ []))

abbrev pub descriptor : BackupObjectDescriptor
descriptor = record {
  ciphertext_size = length object;
  ciphertext_sha256 = object;
  format_version = 1;
}

abbrev pub outcome :
    LoopOutcome BackupObjectDescriptor (List Bytes) (Writer cipher compressor recorder)
outcome = record {
  result = ok descriptor;
  source = [];
  writer = close cipher compressor recorder finished object;
}

seal_result :
    seal_object cipher compressor chunk_source recorder
      (some (replicate 19 3))
      object_context
      two_chunks
      []
    ≡ some outcome
unfolding seal_object seal_loop seal_chunk seal_end new_writer new_envelope write_envelope_bytes
    chunks write_chunks checked_add_limited write_plaintext write_active encode write_pieces write
    write_compressed seal_blocks seal_block write_encrypted_block finish finish_active
    finish_envelope serialize_header u16_be u32_be object
seal_result = refl

seal_object_total_example :
    (o : LoopOutcome BackupObjectDescriptor (List Bytes) (Writer cipher compressor recorder))
    × (seal_object cipher compressor chunk_source recorder
          (some (replicate 19 3))
          object_context
          two_chunks
          []
        ≡ some o)
seal_object_total_example =
    seal_object_total cipher compressor chunk_source recorder (some (replicate 19 3)) object_context
      two_chunks []

seal_object-IsObject_example :
    (p : Bytes) × (s' : List Bytes) × (x : Bytes) × ((chunk_source.is_cancelled two_chunks).0
      ≡ false)
    × Gives chunk_source (chunk_source.is_cancelled two_chunks).1 p s'
    × ((chunk_source.is_cancelled s').0 ≡ false)
    × (outcome.source ≡ (chunk_source.is_cancelled s').1)
    × (outcome.writer.sink ≡ [] ++ x)
    × IsObject cipher compressor object_context (replicate 19 3) p x descriptor
seal_object-IsObject_example =
    seal_object-IsObject cipher compressor chunk_source recorder (λ t. t) recorder-IsRecorder
      object_context (replicate 19 3) [] two_chunks outcome descriptor seal_result refl

abbrev pub envelope : EnvelopeWriter Bytes ℕ
envelope = record {
  sink = header;
  encryptor = some 0;
  canonical_context = codes "context";
  pending = 1 ∷ 2 ∷ [];
  compressed_bytes = 2;
  ciphertext_bytes = length header;
  block_count = 0;
  hashed = header;
  failure = none;
}

envelope-IsCounted : IsCounted envelope
unfolding header serialize_header u16_be
envelope-IsCounted = record {
  counted = refl;
  ciphertext = omega arith;
  compressed = omega arith;
  blocks = omega arith;
}

write-IsCounted_example : IsCounted (write cipher recorder (3 ∷ []) envelope).1
write-IsCounted_example = write-IsCounted cipher recorder (3 ∷ []) envelope envelope-IsCounted

pieces_written : (write_pieces cipher recorder two_chunks envelope).0 ≡ ok tt
unfolding write_pieces write write_compressed seal_blocks checked_add_limited
pieces_written = refl

write_pieces-Advances_example :
    Advances cipher recorder
      (λ t. t)
      recorder-IsRecorder
      (envelope.pending ++ flat two_chunks)
      0
      envelope
      (write_pieces cipher recorder two_chunks envelope).1
write_pieces-Advances_example =
    write_pieces-Advances cipher recorder (λ t. t) recorder-IsRecorder two_chunks 0 envelope
      (omega arith) refl pieces_written

abbrev pub open_writer : Writer cipher compressor recorder
open_writer = record {
  current = some (record { encoder = 7 ∷ []; envelope = envelope; plaintext_bytes = 1 });
  terminal = active;
  sink = header;
}

call-next_example :
    ((call cipher compressor recorder finishes open_writer).1.terminal
      ≡ next cipher compressor recorder finishes open_writer.terminal
          (call cipher compressor recorder finishes open_writer).0)
    × IsConsistent cipher compressor recorder
        (call cipher compressor recorder finishes open_writer).1
call-next_example = call-next cipher compressor recorder finishes open_writer refl

abbrev pub closed_writer : Writer cipher compressor recorder
closed_writer = close cipher compressor recorder finished header

run_closed_example :
    (run cipher compressor recorder (aborts ∷ finishes ∷ []) closed_writer ≡ closed_writer)
    × (call cipher compressor recorder
          (writes (1 ∷ []))
          (run cipher compressor recorder (aborts ∷ finishes ∷ []) closed_writer)
        ≡ (false, closed_writer))
run_closed_example =
    run_closed cipher compressor recorder (aborts ∷ finishes ∷ []) (writes (1 ∷ [])) closed_writer
      refl
