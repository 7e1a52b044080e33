-- ===== src/Backup/Object/Compression/Limits.antt =====
-- What decoding keeps: the limit on the plaintext, and the caller's part.
use kchat_rust_sdk.Base.{
  ℕ, zero, suc, ◌+◌, ◌≡◌, ◌≤◌, refl, ◌∙◌, true, false, [], ◌∷◌, ◌++◌, inl, inr, Bytes, length, drop,
  arith, Result-cases, Bool-cases,
}
use kchat_rust_sdk.Backup.Exec.{Exec}
use kchat_rust_sdk.Backup.Object.Io.{checked_add_limited}
use kchat_rust_sdk.Backup.Object.Stream.{RawDecoder, Status}
use kchat_rust_sdk.Backup.Object.Compression.Header.{check_header}
use kchat_rust_sdk.Backup.Object.Compression.{
  State, run_decoder, add_total, decode_step, after_round, decode_round, decode_rounds, decode,
  push_header, push,
}

-- A view of the caller's part that the callbacks do not change is not changed by decoding.
module _ (z : RawDecoder) {X V : Type 0} (emit : Bytes → Exec X (Unit {0}))
    (cancelled : Exec X (Unit {0})) (view : X → V)
    (emit_view : (x : Bytes) (s : X) → view (emit x s).1 ≡ view s)
    (cancelled_view : (s : X) → view (cancelled s).1 ≡ view s) where
  abbrev pub IsWithin : State z emit cancelled → Type 0
  IsWithin st = st.inner.total ≤ st.inner.limit

  -- On success and on failure the total stays within the limit, and the limit does not change.
  pub record Keeps (st st' : State z emit cancelled) : Type 0 where
    pub limit : st'.inner.limit ≡ st.inner.limit
    pub total : st'.inner.total ≤ st'.inner.limit
    pub caller : view st'.caller ≡ view st.caller

  decode_step-Keeps :
      (bytes : Bytes) (st : State z emit cancelled)
      → IsWithin st
      → Keeps st (decode_step z emit cancelled bytes st).1
  unfolding decode_step run_decoder add_total checked_add_limited
  decode_step-Keeps bytes st v = grind (arith, emit_view, cancelled_view)

  Keeps-trans : (a b c : State z emit cancelled) → Keeps a b → Keeps b c → Keeps a c
  Keeps-trans a b c v w = record {
    limit = w.limit ∙ v.limit;
    total = w.total;
    caller = w.caller ∙ v.caller;
  }

  after_round-Keeps :
      (again : Bytes → Exec (State z emit cancelled) (Unit {0})) (rest : Bytes) (status : Status)
      (st : State z emit cancelled)
      → IsWithin st
      → Keeps st (again rest st).1
      → Keeps st (after_round z emit cancelled again rest status st).1
  unfolding after_round
  after_round-Keeps again rest status st v h = ground arith

  decode_rounds-Keeps :
      (n : ℕ) (bytes : Bytes) (st : State z emit cancelled)
      → IsWithin st
      → Keeps st (decode_rounds z emit cancelled n bytes st).1
  unfolding decode_rounds decode_round
  decode_rounds-Keeps zero bytes st v = record { limit = refl; total = v; caller = refl }
  decode_rounds-Keeps (suc n) bytes st v =
      let st' = (decode_step z emit cancelled bytes st).1 in
      let first = decode_step-Keeps bytes st v in
      elim (Result-cases (decode_step z emit cancelled bytes st).0) [
        | inr (e, q) ↦ ground (arith, first)
        | inl (status, q) ↦
            let rest = drop status.bytes_read bytes in
            let more =
              after_round-Keeps (decode_rounds z emit cancelled n) rest status st' first.total
                (decode_rounds-Keeps n rest st' first.total) in
            ground (arith, Keeps-trans st st' _ first more)
      ]

  decode-Keeps :
      (bytes : Bytes) (st : State z emit cancelled)
      → IsWithin st
      → Keeps st (decode z emit cancelled bytes st).1
  unfolding decode
  decode-Keeps bytes st v =
      ground (arith, decode_rounds-Keeps (suc (length bytes + st.inner.limit)) bytes st v)

  push_header-Keeps :
      (bytes : Bytes) (st : State z emit cancelled)
      → IsWithin st
      → Keeps st (push_header z emit cancelled bytes st).1
  unfolding push_header
  push_header-Keeps [] st v = record { limit = refl; total = v; caller = refl }
  push_header-Keeps (b ∷ bs) st v =
      let header = st.inner.header ++ (b ∷ []) in
      let st₁ : State z emit cancelled = record st {
        inner = record st.inner { header = header };
      } in
      let st₂ : State z emit cancelled = record st {
        inner = record st.inner { header = []; header_checked = true };
      } in
      let st₃ = (decode z emit cancelled header st₂).1 in
      let kept = decode-Keeps header st₂ v in
      let decoded : Keeps st st₃ = record {
        limit = kept.limit;
        total = kept.total;
        caller = kept.caller;
      } in
      elim (Bool-cases st.inner.header_checked) [
        | inl checked ↦ ground arith
        | inr unchecked ↦ elim (Result-cases (check_header header)) [
          | inr (e, q) ↦ ground arith
          | inl (true, q) ↦ elim (Result-cases (decode z emit cancelled header st₂).0) [
            | inr (e, r) ↦ ground (arith, decoded)
            | inl (u, r) ↦
                ground
                  (arith, Keeps-trans st st₃ _ decoded (push_header-Keeps bs st₃ decoded.total))
          ]
          | inl (false, q) ↦ ground (arith, push_header-Keeps bs st₁ v)
        ]
      ]

  -- Whatever the decoder does, and whether a push succeeds or fails, the plaintext that was
  -- counted stays within its limit, the limit stays, and so does every part of the caller's state
  -- that the callbacks leave alone.
  pub push-Keeps :
      (bytes : Bytes) (st : State z emit cancelled)
      → st.inner.total ≤ st.inner.limit
      → Keeps st (push z emit cancelled bytes st).1
  unfolding push
  push-Keeps bytes st v =
      let first = push_header-Keeps bytes st v in
      let st' = (push_header z emit cancelled bytes st).1 in
      elim (Result-cases (push_header z emit cancelled bytes st).0) [
        | inr (e, q) ↦ ground (arith, first)
        | inl (rest, q) ↦ elim (Bool-cases st'.inner.header_checked) [
          | inr unchecked ↦ ground (arith, first)
          | inl checked ↦
              ground (arith, Keeps-trans st st' _ first (decode-Keeps rest st' first.total))
        ]
      ]
