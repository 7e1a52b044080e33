-- ===== src/Backup/Object/Reader/Frames.antt =====
-- What the frames of an envelope that opens were.
use kchat_rust_sdk.Base.{
  ℕ, zero, suc, ◌≡◌, ◌≤◌, refl, sym, ap, ◌∙◌, Bool, none, some, ◌++◌, inl, inr, Bytes, length,
  arith, ok, from_be, Result-cases, Option-cases, append-nil, subst,
}
use kchat_rust_sdk.Backup.Exec.{Exec}
use kchat_rust_sdk.Backup.Object.Io.{ByteSource, ByteSink}
use kchat_rust_sdk.Backup.Object.Stream.{StreamCipher, RawDecoder}
use kchat_rust_sdk.Backup.Object.Compression.{push}
use kchat_rust_sdk.Backup.Object.Compression.Limits.{push-Keeps}
use kchat_rust_sdk.Backup.Object.Reader.{CheckedSource, check_cancelled, read_exact, next_length}
use kchat_rust_sdk.Backup.Object.Reader.Reads.{read_exact-Took}
use kchat_rust_sdk.Backup.Object.Reader.Feed.{
  IsFeed, IsAtEnd, check_cancelled-Pulls, read_exact-Pulls, next_length-Pulls, next_length_end,
}
use kchat_rust_sdk.Backup.Object.Reader.Open.{
  Ends, Opening, emit, poll, push_plain, open_frame, open_frames,
}

-- Frames behind a length that was read: `len`, then its frame and what follows. A frame that is not the
-- last is a whole block. The frames open, in order, from the decryptor's state.
pub data Authentic (c : StreamCipher) (aad : Bytes) : c.Decryptor → ℕ → Bytes → Type 0 where
  last :
      {d : c.Decryptor} (frame plain : Bytes)
      → c.decrypt_last d aad frame ≡ some plain
      → Authentic c aad d (length frame) frame
  more :
      {d d' : c.Decryptor} {wire : Bytes} (frame plain prefix : Bytes)
      → length frame ≡ 65552
      → c.decrypt_next d aad frame ≡ some (plain, d')
      → Authentic c aad d' (from_be 0 prefix) wire
      → Authentic c aad d (length frame) (frame ++ (prefix ++ wire))

module _ {S T : Type 0} (c : StreamCipher) (z : RawDecoder) (source : ByteSource S)
    (out : ByteSink T) (rest : S → Bytes) (law : IsFeed source rest) where
  abbrev pub left : Opening c z source out → Bytes
  left st = rest st.caller.input.source

  -- The input's part that decoding does not change.
  abbrev view : Ends S T → Bytes × Bool
  view e = (rest e.input.source, e.input.eof)

  view-emit : (x : Bytes) (e : Ends S T) → view (emit c z source out x e).1 ≡ view e
  view-emit x e = refl

  view-poll : (e : Ends S T) → view (poll c z source out e).1 ≡ view e
  unfolding check_cancelled
  view-poll e = ground (arith, law.polls e.input.source)

  -- The decoder is within its limit, and the end of file was no lie.
  pub record IsReady (st : Opening c z source out) : Type 0 where
    pub total : st.inner.total ≤ st.inner.limit
    pub at_end : IsAtEnd source rest law st.caller.input

  push_plain-ok :
      (plain : Bytes) (st : Opening c z source out)
      → (push_plain c z source out plain st).0 ≡ ok tt
      → (push_plain c z source out plain st).1
        ≡ (push z (emit c z source out) (poll c z source out) plain (record st {
          caller = record st.caller { input = (check_cancelled source st.caller.input).1 };
        })).1
  unfolding push_plain
  push_plain-ok plain st h = ground arith

  push_plain-IsReady :
      (plain : Bytes) (st : Opening c z source out)
      → IsReady st
      → (push_plain c z source out plain st).0 ≡ ok tt
      → IsReady (push_plain c z source out plain st).1
        × (left (push_plain c z source out plain st).1 ≡ left st)
  push_plain-IsReady plain st v h =
      let polled = check_cancelled-Pulls source rest law st.caller.input v.at_end in
      let st' : Opening c z source out = record st {
        caller = record st.caller { input = (check_cancelled source st.caller.input).1 };
      } in
      let kept =
        push-Keeps z (emit c z source out) (poll c z source out) view view-emit view-poll plain st'
          v.total in
      let same_left = ap (λ (p : Bytes × Bool). p.0) kept.caller in
      let same_eof = ap (λ (p : Bytes × Bool). p.1) kept.caller in
      rw (push_plain-ok plain st h) (
        record { total = kept.total; at_end = λ t. same_left ∙ polled.at_end (sym same_eof ∙ t) },
        same_left ∙ sym polled.taken,
      )

  abbrev pub set_input : CheckedSource S → Opening c z source out → Opening c z source out
  set_input i st = record st { caller = record st.caller { input = i } }

  frame_last-ok :
      (again : ℕ → c.Decryptor → Exec (Opening c z source out) (Unit {0})) (aad : Bytes) (len : ℕ)
      (d : c.Decryptor) (frame : Bytes) (st : Opening c z source out)
      → (open_frame c z source out again aad len d frame none st).0 ≡ ok tt
      → (plain : Bytes) × (c.decrypt_last d aad frame ≡ some plain)
  unfolding open_frame
  frame_last-ok again aad len d frame st h = elim (Option-cases (c.decrypt_last d aad frame)) [
    | inl n ↦ absurd (ground arith)
    | inr found ↦ found
  ]

  frame_next-ok :
      (again : ℕ → c.Decryptor → Exec (Opening c z source out) (Unit {0})) (aad : Bytes) (len : ℕ)
      (d : c.Decryptor) (frame : Bytes) (next : ℕ) (st : Opening c z source out)
      → (open_frame c z source out again aad len d frame (some next) st).0 ≡ ok tt
      → (plain : Bytes) × (d' : c.Decryptor) × (len ≡ 65552)
        × (c.decrypt_next d aad frame ≡ some (plain, d'))
        × ((push_plain c z source out plain st).0 ≡ ok tt)
        × ((again next d' (push_plain c z source out plain st).1).0 ≡ ok tt)
  unfolding open_frame
  frame_next-ok again aad len d frame next st h = elim (Option-cases (c.decrypt_next d aad frame)) [
    | inl n ↦ absurd (ground arith)
    | inr ((plain, d'), q) ↦ elim (Result-cases (push_plain c z source out plain st).0) [
      | inl (u, p) ↦ (plain, d', ground arith, q, ground arith, ground arith)
      | inr (e, p) ↦ absurd (ground arith)
    ]
  ]

  pub open_frames-Authentic :
      (fuel : ℕ) (aad : Bytes) (len : ℕ) (d : c.Decryptor) (st : Opening c z source out)
      → IsReady st
      → (open_frames c z source out fuel aad len d st).0 ≡ ok tt
      → Authentic c aad d len (left st)
  unfolding open_frames
  open_frames-Authentic zero aad len d st v h = absurd (ground arith)
  open_frames-Authentic (suc fuel) aad len d st v h =
      let again = open_frames c z source out fuel aad in
      let i = (read_exact source len st.caller.input).1 in
      let i' = (next_length source i).1 in
      elim (Result-cases (read_exact source len st.caller.input).0) [
        | inr (e, q) ↦ absurd (ground arith)
        | inl (frame, q) ↦
            let (len_eq, took) = read_exact-Took source len st.caller.input frame q in
            let pulled = read_exact-Pulls source rest law len st.caller.input frame v.at_end q in
            elim (Result-cases (next_length source i).0) [
              | inr (e, q') ↦ absurd (ground arith)
              | inl (none, q') ↦
                  let nothing = next_length_end source rest law i pulled.at_end q' in
                  let (plain, opened) =
                    frame_last-ok again aad len d frame (set_input i' st) (ground arith) in
                  let wire : left st ≡ frame =
                    pulled.taken ∙ ap (frame ++◌) nothing ∙ append-nil frame in
                  subst (λ n. Authentic c aad d n (left st)) len_eq
                    (subst (Authentic c aad d (length frame)) (sym wire) (last frame plain opened))
              | inl (some next, q') ↦
                  let (x, value, pulled') =
                    next_length-Pulls source rest law i next pulled.at_end q' in
                  let st' = set_input i' st in
                  let (plain, d', whole, opened, pushed, onward) =
                    frame_next-ok again aad len d frame next st' (ground arith) in
                  let ready : IsReady st' = record { total = v.total; at_end = pulled'.at_end } in
                  let (ready', same) = push_plain-IsReady plain st' ready pushed in
                  let further =
                    open_frames-Authentic fuel aad next d' (push_plain c z source out plain st').1
                      ready' onward in
                  let tail : Authentic c aad d' (from_be 0 x) (left st') =
                    subst (λ n. Authentic c aad d' n (left st')) value
                      (subst (Authentic c aad d' next) same further) in
                  let wire : left st ≡ frame ++ (x ++ left st') =
                    pulled.taken ∙ ap (frame ++◌) pulled'.taken in
                  subst (λ n. Authentic c aad d n (left st)) len_eq
                    (subst (Authentic c aad d (length frame)) (sym wire)
                      (more frame plain x (len_eq ∙ whole) opened tail))
            ]
      ]
