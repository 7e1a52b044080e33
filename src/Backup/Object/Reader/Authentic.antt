-- ===== src/Backup/Object/Reader/Authentic.antt =====
-- What an envelope that opens was.
use kchat_rust_sdk.Base.{
  ℕ, ◌≡◌, ◌≤◌, sym, ap, ◌∙◌, false, none, some, ◌++◌, inl, inr, Bytes, arith, ok, from_be,
  Result-cases, subst,
}
use kchat_rust_sdk.Backup.Context.{BackupObjectContext}
use kchat_rust_sdk.Backup.Object.Envelope.{parse_header, serialize_header}
use kchat_rust_sdk.Backup.Object.Envelope.RoundTrip.{parse_header-eq-ok_iff}
use kchat_rust_sdk.Backup.Object.Io.{ByteSource, ByteSink}
use kchat_rust_sdk.Backup.Object.Stream.{StreamCipher, RawDecoder}
use kchat_rust_sdk.Backup.Object.Compression.{BoundedDecoder, new_decoder}
use kchat_rust_sdk.Backup.Object.Reader.{
  new_checked_source, check_cancelled, read_exact, next_length,
}
use kchat_rust_sdk.Backup.Object.Reader.Feed.{IsFeed, IsAtEnd, read_exact-Pulls, next_length-Pulls}
use kchat_rust_sdk.Backup.Object.Reader.Open.{
  Opening, open_frames, frame_fuel, authenticate_envelope, open_object,
}
use kchat_rust_sdk.Backup.Object.Reader.Frames.{Authentic, left, set_input, open_frames-Authentic}

module _ {S T : Type 0} (c : StreamCipher) (z : RawDecoder) (source : ByteSource S)
    (out : ByteSink T) (rest : S → Bytes) (law : IsFeed source rest) where
  envelope-ok :
      (context : BackupObjectContext) (header : Bytes) (st : Opening c z source out)
      → (read_exact source 29 st.caller.input).0 ≡ ok header
      → (authenticate_envelope c z source out context st).0 ≡ ok tt
      → (nonce : Bytes) × (len : ℕ) × (parse_header header ≡ ok nonce)
        × ((next_length source (read_exact source 29 st.caller.input).1).0 ≡ ok (some len))
        × ((open_frames c z source out
              (frame_fuel c z source out)
              context.canonical_bytes
              len
              (c.new_decryptor context.object_key.bytes nonce)
              (set_input c z source out rest law
                (next_length source (read_exact source 29 st.caller.input).1).1
                st)).0
            ≡ ok tt)
  unfolding authenticate_envelope
  envelope-ok context header st q h = elim (Result-cases (parse_header header)) [
    | inr (e, p) ↦ absurd (ground arith)
    | inl (nonce, p) ↦
        elim (Result-cases (next_length source (read_exact source 29 st.caller.input).1).0) [
          | inr (e, l) ↦ absurd (ground arith)
          | inl (none, l) ↦ absurd (ground arith)
          | inl (some len, l) ↦ (nonce, len, p, l, ground arith)
        ]
  ]

  authenticate_envelope-Authentic :
      (context : BackupObjectContext) (st : Opening c z source out)
      → st.inner.total ≤ st.inner.limit
      → st.caller.input.eof ≡ false
      → (authenticate_envelope c z source out context st).0 ≡ ok tt
      → (nonce : Bytes) × (prefix : Bytes) × (wire : Bytes) × (rest st.caller.input.source
          ≡ serialize_header nonce ++ (prefix ++ wire))
        × Authentic c context.canonical_bytes
            (c.new_decryptor context.object_key.bytes nonce)
            (from_be 0 prefix)
            wire
  authenticate_envelope-Authentic context st v open_ h =
      let at_end : IsAtEnd source rest law st.caller.input = λ t. absurd (ground arith) in
      let i = (read_exact source 29 st.caller.input).1 in
      let i' = (next_length source i).1 in
      elim (Result-cases (read_exact source 29 st.caller.input).0) [
        | inr (e, q) ↦ absurd (unfold authenticate_envelope in ground arith)
        | inl (header, q) ↦
            let (nonce, len, parsed, l, opened) = envelope-ok context header st q h in
            let pulled = read_exact-Pulls source rest law 29 st.caller.input header at_end q in
            let (x, value, pulled') = next_length-Pulls source rest law i len pulled.at_end l in
            let st' = set_input c z source out rest law i' st in
            let frames =
              open_frames-Authentic c z source out rest law (frame_fuel c z source out)
                context.canonical_bytes len (c.new_decryptor context.object_key.bytes nonce) st'
                (record { total = v; at_end = pulled'.at_end }) opened in
            (
              nonce,
              x,
              left c z source out rest law st',
              pulled.taken
                  ∙ ap (λ h'. h' ++ rest i.source)
                      (sym ((parse_header-eq-ok_iff header nonce).0 parsed))
                  ∙ ap (serialize_header nonce ++◌) pulled'.taken,
              subst
                  (λ n.
                    Authentic c context.canonical_bytes
                      (c.new_decryptor context.object_key.bytes nonce) n
                      (left c z source out rest law st'))
                  value frames,
            )
      ]

  new_decoder_within :
      (inner : BoundedDecoder z.Decoder) → new_decoder z ≡ ok inner → inner.total ≤ inner.limit
  unfolding new_decoder
  new_decoder_within inner h = ground arith

  new_checked_source-rest :
      (s : S)
      → ((new_checked_source source s).1.eof ≡ false)
        × (rest (new_checked_source source s).1.source ≡ rest s)
  unfolding new_checked_source check_cancelled
  new_checked_source-rest s = ground (arith, law.polls s)

  open_object-ok :
      (context : BackupObjectContext) (s : S) (t : T) (inner : BoundedDecoder z.Decoder)
      → new_decoder z ≡ ok inner
      → (open_object c z source out context s t).0 ≡ ok tt
      → (authenticate_envelope c z source out context (record {
        inner = inner;
        caller = record { input = (new_checked_source source s).1; sink = t };
      })).0
        ≡ ok tt
  unfolding open_object
  open_object-ok context s t inner made h = ground arith

  -- Given a source with fixed contents, whose empty reads are its end: if an object opens, the
  -- contents were, to the last byte, the header of some nonce prefix, and frames that all open in
  -- order under the context and that prefix, the last one as the last; every frame before it is a
  -- whole block. So no object is accepted that was cut short or extended, or that has a frame
  -- that does not open.
  pub open_object-Authentic :
      (context : BackupObjectContext) (s : S) (t : T)
      → (open_object c z source out context s t).0 ≡ ok tt
      → (nonce : Bytes) × (prefix : Bytes) × (wire : Bytes) × (rest s
          ≡ serialize_header nonce ++ (prefix ++ wire))
        × Authentic c context.canonical_bytes
            (c.new_decryptor context.object_key.bytes nonce)
            (from_be 0 prefix)
            wire
  open_object-Authentic context s t h = elim (Result-cases (new_decoder z)) [
    | inr (e, q) ↦ absurd (unfold open_object in ground arith)
    | inl (inner, q) ↦
        let (open_, same) = new_checked_source-rest s in
        let (nonce, prefix, wire, whole, frames) =
          authenticate_envelope-Authentic context
            (record {
              inner = inner;
              caller = record { input = (new_checked_source source s).1; sink = t };
            })
            (new_decoder_within inner q) open_ (open_object-ok context s t inner q h) in
        (nonce, prefix, wire, sym same ∙ whole, frames)
  ]
