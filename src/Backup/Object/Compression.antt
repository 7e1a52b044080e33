-- ===== src/Backup/Object/Compression.antt =====
-- crates/kchat-backup/src/object/compression.rs: decoding of one Zstd frame under limits.
pub mod Header
pub mod Rounds
pub mod Limits
use kchat_rust_sdk.Base.{
  ℕ, zero, suc, ◌+◌, ◌-◌, min, Bool, true, false, ◌&&◌, Option, none, some, [], ◌∷◌, ◌++◌, Bytes,
  length, drop, ◌==◌, if◌then◌else◌, ok, err, or_fail,
}
use kchat_rust_sdk.Backup.Error.{Fallible, invalid_state, io_error, invalid_compressed_data}
use kchat_rust_sdk.Backup.Limits.{max_io_chunk_bytes, max_plaintext_object_bytes}
use kchat_rust_sdk.Backup.Exec.{Exec, pure, raise, lift, gets, modify, ◌>>=◌, ◌>>◌}
use kchat_rust_sdk.Backup.Object.Io.{checked_add_limited}
use kchat_rust_sdk.Backup.Object.Stream.{RawDecoder, Status}
use Header.{check_header}

-- The output buffer holds nothing between two calls and is not kept.
pub record BoundedDecoder (D : Type 0) : Type 0 where
  pub decoder : D
  pub header : Bytes
  pub header_checked : Bool
  pub complete : Bool
  pub total : ℕ
  pub limit : ℕ

-- A decoder and what its caller's callbacks change.
pub record Decoding (D X : Type 0) : Type 0 where
  pub inner : BoundedDecoder D
  pub caller : X

-- The end of a frame: nothing may follow.
abbrev pub ended : {S : Type 0} → Bytes → Exec S (Unit {0})
ended [] = pure tt
ended (b ∷ bs) = raise invalid_compressed_data

module _ (z : RawDecoder) where
  -- `ilog2` of the window limit is 23.
  unfoldable pub new_decoder : Fallible (BoundedDecoder z.Decoder)
  new_decoder = elim z.new [
    | none ↦ err io_error
    | some d ↦ elim (z.set_window_log_max 23 d) [
      | none ↦ err invalid_state
      | some d' ↦ ok (record {
        decoder = d';
        header = [];
        header_checked = false;
        complete = false;
        total = 0;
        limit = max_plaintext_object_bytes;
      })
    ]
  ]

  unfoldable pub finish_decoder : BoundedDecoder z.Decoder → Fallible (Unit {0})
  finish_decoder d = if d.header_checked && d.complete then ok tt else err invalid_compressed_data

  module _ {X : Type 0} (emit : Bytes → Exec X (Unit {0})) (cancelled : Exec X (Unit {0})) where
    abbrev pub State : Type 0
    State = Decoding z.Decoder X

    -- A callback, which changes nothing but the caller's part.
    abbrev pub outside : Exec X (Unit {0}) → Exec State (Unit {0})
    outside act st = let (r, x) = act st.caller in (r, record st { caller = x })

    abbrev pub set_inner : (BoundedDecoder z.Decoder → BoundedDecoder z.Decoder) → State → State
    set_inner f st = record st { inner = f st.inner }

    abbrev pub emit_some : Bytes → Exec State (Unit {0})
    emit_some [] = pure tt
    emit_some (b ∷ bs) = outside (emit (b ∷ bs))

    unfoldable pub run_decoder : Bytes → Exec State Status
    run_decoder bytes st =
        let d = st.inner in
        let (r, decoder) = z.run bytes (min max_io_chunk_bytes (d.limit - d.total + 1)) d.decoder in
        (or_fail r invalid_compressed_data, set_inner (λ x. record x { decoder = decoder }) st)

    unfoldable pub after_round :
        (Bytes → Exec State (Unit {0})) → Bytes → Status → Exec State (Unit {0})
    after_round again rest status st = elim (status.remaining == 0) [
      | true ↦ ended rest (set_inner (λ d. record d { complete = true }) st)
      | false ↦ elim (status.bytes_read == 0 && length status.output == 0) [
        | true ↦ ended rest st
        | false ↦ again rest st
      ]
    ]

    -- The total grows by what was written, if it stays within the limit.
    unfoldable pub add_total : ℕ → Exec State (Unit {0})
    add_total n st = elim (checked_add_limited st.inner.total n st.inner.limit) [
      | err e ↦ (err e, st)
      | ok total ↦ (ok tt, set_inner (λ d. record d { total = total }) st)
    ]

    -- The round up to where the loop decides whether to go on.
    unfoldable pub decode_step : Bytes → Exec State Status
    decode_step bytes = do
      outside cancelled
      status ← run_decoder bytes
      add_total (length status.output)
      outside cancelled
      emit_some status.output
      outside cancelled
      pure status

    unfoldable pub decode_round : (Bytes → Exec State (Unit {0})) → Bytes → Exec State (Unit {0})
    decode_round again bytes = do
      status ← decode_step bytes
      after_round again (drop status.bytes_read bytes) status

    -- A round per unit of fuel; without fuel it stops with an error, which `decode` never comes to.
    unfoldable pub decode_rounds : ℕ → Bytes → Exec State (Unit {0})
    decode_rounds zero bytes = raise io_error
    decode_rounds (suc fuel) bytes = decode_round (decode_rounds fuel) bytes

    -- A round that goes on reads or writes a byte, of those given or below the limit.
    unfoldable pub decode : Bytes → Exec State (Unit {0})
    decode bytes st =
        if st.inner.complete
        then ended bytes st
        else decode_rounds (suc (length bytes + st.inner.limit)) bytes st

    -- The loop over the frame header. It gives back the bytes behind the header.
    unfoldable pub push_header : Bytes → Exec State Bytes
    push_header [] st = (ok [], st)
    push_header (b ∷ bs) st = elim st.inner.header_checked [
      | true ↦ (ok (b ∷ bs), st)
      | false ↦
          let header = st.inner.header ++ (b ∷ []) in
          let st' : State = set_inner (λ d. record d { header = header }) st in
          elim (check_header header) [
            | err e ↦ (err e, st')
            | ok found ↦ elim found [
              | false ↦ push_header bs st'
              | true ↦
                  let (r, st'') =
                    decode header
                      (set_inner (λ d. record d { header = []; header_checked = true }) st) in
                  elim r [ err e ↦ (err e, st'') | ok _ ↦ push_header bs st'' ]
            ]
          ]
    ]

    unfoldable pub push : Bytes → Exec State (Unit {0})
    push bytes = do
      rest ← push_header bytes
      checked ← gets (λ st. st.inner.header_checked)
      if checked then decode rest else pure tt
