-- ===== src/Backup/Object/Reader/Total.antt =====
-- Opening ends within its fuel.
use kchat_rust_sdk.Base.{
  ℕ, zero, suc, ◌+◌, ◌-◌, ◌≡◌, ◌≤◌, ◌<◌, refl, none, some, inl, inr, Bytes, arith, Result-cases,
  Option-cases,
}
use kchat_rust_sdk.Backup.Exec.{Exec}
use kchat_rust_sdk.Backup.Limits.{max_ciphertext_object_bytes}
use kchat_rust_sdk.Backup.Object.Io.{ByteSource, ByteSink}
use kchat_rust_sdk.Backup.Object.Stream.{StreamCipher, RawDecoder}
use kchat_rust_sdk.Backup.Object.Compression.Limits.{push-Keeps}
use kchat_rust_sdk.Backup.Object.Reader.{CheckedSource, check_cancelled, read_exact, next_length}
use kchat_rust_sdk.Backup.Object.Reader.Reads.{
  check_cancelled-ok, read_exact-Took, next_length-Took,
}
use kchat_rust_sdk.Backup.Object.Reader.Open.{
  Ends, Opening, emit, poll, push_plain, open_frame, open_frames, frame_fuel,
}

module _ {S T : Type 0} (c : StreamCipher) (z : RawDecoder) (source : ByteSource S)
    (out : ByteSink T) where
  abbrev view : Ends S T → ℕ
  view e = e.input.bytes

  view-emit : (x : Bytes) (e : Ends S T) → view (emit c z source out x e).1 ≡ view e
  view-emit x e = refl

  view-poll : (e : Ends S T) → view (poll c z source out e).1 ≡ view e
  view-poll e = (check_cancelled-ok source e.input).0

  -- The decoder is within its limit, and so is the input.
  pub record IsBelow (st : Opening c z source out) : Type 0 where
    pub total : st.inner.total ≤ st.inner.limit
    pub bytes : st.caller.input.bytes ≤ max_ciphertext_object_bytes

  push_plain-IsBelow :
      (plain : Bytes) (st : Opening c z source out)
      → IsBelow st
      → IsBelow (push_plain c z source out plain st).1
        × ((push_plain c z source out plain st).1.caller.input.bytes ≡ st.caller.input.bytes)
  unfolding push_plain
  push_plain-IsBelow plain st v =
      let same = (check_cancelled-ok source st.caller.input).0 in
      let st' : Opening c z source out = record st {
        caller = record st.caller { input = (check_cancelled source st.caller.input).1 };
      } in
      let kept =
        push-Keeps z (emit c z source out) (poll c z source out) view view-emit view-poll plain st'
          v.total in
      elim (Result-cases (check_cancelled source st.caller.input).0) [
        | inr (e, q) ↦ ground (arith, same)
        | inl (u, q) ↦ ground (arith, same, kept)
      ]

  open_frame-agree :
      (again more : ℕ → c.Decryptor → Exec (Opening c z source out) (Unit {0})) (aad : Bytes)
      (len : ℕ) (d : c.Decryptor) (frame : Bytes) (next : ℕ) (st : Opening c z source out)
      → IsBelow st
      → ((d' : c.Decryptor) (st' : Opening c z source out)
          → IsBelow st'
          → st'.caller.input.bytes ≡ st.caller.input.bytes
          → again next d' st' ≡ more next d' st')
      → open_frame c z source out again aad len d frame (some next) st
        ≡ open_frame c z source out more aad len d frame (some next) st
  unfolding open_frame
  open_frame-agree again more aad len d frame next st v h =
      elim (Option-cases (c.decrypt_next d aad frame)) [
        | inl q ↦ ground arith
        | inr ((plain, d'), q) ↦
            let (below, bytes) = push_plain-IsBelow plain st v in
            let same = h d' (push_plain c z source out plain st).1 below bytes in
            ground (arith, same)
      ]

  abbrev set_input : CheckedSource S → Opening c z source out → Opening c z source out
  set_input i st = record st { caller = record st.caller { input = i } }

  open_frames-agree :
      (n m : ℕ) (aad : Bytes) (len : ℕ) (d : c.Decryptor) (st : Opening c z source out)
      → IsBelow st
      → max_ciphertext_object_bytes - st.caller.input.bytes < n
      → max_ciphertext_object_bytes - st.caller.input.bytes < m
      → open_frames c z source out n aad len d st ≡ open_frames c z source out m aad len d st
  unfolding open_frames
  open_frames-agree zero m aad len d st v h k = absurd (omega arith)
  open_frames-agree (suc n) zero aad len d st v h k = absurd (omega arith)
  open_frames-agree (suc n) (suc m) aad len d st v h k =
      let i = (read_exact source len st.caller.input).1 in
      let i' = (next_length source i).1 in
      elim (Result-cases (read_exact source len st.caller.input).0) [
        | inr (e, q) ↦ ground arith
        | inl (frame, q) ↦ elim (Result-cases (next_length source i).0) [
          | inr (e, q') ↦ ground arith
          | inl (none, q') ↦ unfold open_frame in ground arith
          | inl (some next, q') ↦
              let (len_eq, took) = read_exact-Took source len st.caller.input frame q in
              let (low, high, (x, four, value, took')) = next_length-Took source i next q' in
              let below : IsBelow (set_input i' st) = record {
                total = v.total;
                bytes = took'.within (took.within v.bytes);
              } in
              let same =
                open_frame-agree (open_frames c z source out n aad)
                  (open_frames c z source out m aad) aad len d frame next (set_input i' st) below
                  (λ d' st' below' bytes.
                    open_frames-agree n m aad next d' st' below'
                      (omega (arith, bytes, took.counted, took'.counted, four, below.bytes))
                      (omega (arith, bytes, took.counted, took'.counted, four, below.bytes))) in
              ground (arith, same)
        ]
      ]

  -- From a decoder and an input within their limits, the fuel of the loop over the frames is
  -- enough: with any more it does the same, whatever the source, the sink, the cipher and the
  -- decoder do.
  pub open_frames_enough_fuel :
      (extra : ℕ) (aad : Bytes) (len : ℕ) (d : c.Decryptor) (st : Opening c z source out)
      → st.inner.total ≤ st.inner.limit
      → st.caller.input.bytes ≤ max_ciphertext_object_bytes
      → open_frames c z source out (frame_fuel c z source out + extra) aad len d st
        ≡ open_frames c z source out (frame_fuel c z source out) aad len d st
  open_frames_enough_fuel extra aad len d st v w =
      open_frames-agree _ _ aad len d st (record { total = v; bytes = w }) (omega arith)
        (omega arith)
