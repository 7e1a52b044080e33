-- ===== src/Backup/Object/Frames/Layout.antt =====
-- What the envelope writer puts out when it succeeds: the specification, and that it is met.
use kchat_rust_sdk.Base.{
  ℕ, zero, suc, ◌≤◌, ◌≡◌, refl, sym, ap, ◌∙◌, some, List, [], ◌∷◌, ◌++◌, inl, inr, arith, Bytes,
  length, length-drop, take-append-drop, Option-cases, ok, take, drop, u32_be, append_assoc,
  append-nil, flat,
}
use kchat_rust_sdk.Backup.Object.Io.{ByteSink}
use kchat_rust_sdk.Backup.Object.Stream.{StreamCipher}
use kchat_rust_sdk.Backup.Object.Frames.{
  EnvelopeWriter, chunks, write_chunks, write_envelope_bytes, write_encrypted_block, seal_block,
}

-- A sink whose state shows the bytes that it has accepted.
pub record IsRecorder {T : Type 0} (out : ByteSink T) (seen : T → Bytes) : Type 0 where
  pub records :
      (x : Bytes) (t : T)
      → (out.write_chunk x t).0 ≡ ok tt
      → seen (out.write_chunk x t).1 ≡ seen t ++ x

-- One block on the wire: its length as a big-endian u32, and its ciphertext.
unfoldable pub frame : Bytes → Bytes
frame x = u32_be (length x) ++ x

chunks_whole : (fuel n : ℕ) (xs : Bytes) → length xs ≤ fuel → flat (chunks fuel (suc n) xs) ≡ xs
unfolding chunks
chunks_whole zero n [] h = refl
chunks_whole zero n (x ∷ xs) h = absurd (omega arith)
chunks_whole (suc fuel) n [] h = refl
chunks_whole (suc fuel) n (x ∷ xs) h =
    ap (λ r. x ∷ (take n xs ++ r))
      (chunks_whole fuel n (drop n xs) (omega (arith, length-drop n xs)))
    ∙ ap (◌∷◌ x) (take-append-drop n xs)

-- What an operation did to the fields, given the bytes that it put out.
pub record PutsOut {T E : Type 0} (seen : T → Bytes) (bytes : Bytes) (w w' : EnvelopeWriter T E)
    : Type 0 where
  pub hashed : w'.hashed ≡ w.hashed ++ bytes
  pub sink : seen w'.sink ≡ seen w.sink ++ bytes
  pub context : w'.canonical_context ≡ w.canonical_context

pub record Same {T E : Type 0} (w w' : EnvelopeWriter T E) : Type 0 where
  pub pending : w'.pending ≡ w.pending
  pub encryptor : w'.encryptor ≡ w.encryptor

module _ {T : Type 0} (c : StreamCipher) (out : ByteSink T) (seen : T → Bytes)
    (law : IsRecorder out seen) where
  write_chunks-sink :
      (l : List Bytes) (w : EnvelopeWriter T c.Encryptor)
      → (write_chunks c out l w).0 ≡ ok tt
      → (write_chunks c out l w).1 ≡ record w { sink = (write_chunks c out l w).1.sink }
  unfolding write_chunks
  write_chunks-sink [] w h = refl
  write_chunks-sink (x ∷ l) w h =
      ground (arith, write_chunks-sink l (record w { sink = (out.write_chunk x w.sink).1 }))

  write_chunks-seen :
      (l : List Bytes) (w : EnvelopeWriter T c.Encryptor)
      → (write_chunks c out l w).0 ≡ ok tt
      → seen (write_chunks c out l w).1.sink ≡ seen w.sink ++ flat l
  unfolding write_chunks
  write_chunks-seen [] w h = sym (append-nil (seen w.sink))
  write_chunks-seen (x ∷ l) w h = ground (
    arith,
    write_chunks-seen l (record w { sink = (out.write_chunk x w.sink).1 }),
    law.records x w.sink,
    append_assoc (seen w.sink) x (flat l),
  )

  pub write_envelope_bytes-PutsOut :
      (bytes : Bytes) (w : EnvelopeWriter T c.Encryptor)
      → (write_envelope_bytes c out bytes w).0 ≡ ok tt
      → PutsOut seen bytes w (write_envelope_bytes c out bytes w).1
        × Same w (write_envelope_bytes c out bytes w).1
  unfolding write_envelope_bytes
  write_envelope_bytes-PutsOut bytes w h =
      grind (arith, write_chunks-sink, write_chunks-seen, chunks_whole)

  pub write_encrypted_block-PutsOut :
      (x : Bytes) (w : EnvelopeWriter T c.Encryptor)
      → (write_encrypted_block c out x w).0 ≡ ok tt
      → PutsOut seen (frame x) w (write_encrypted_block c out x w).1
        × Same w (write_encrypted_block c out x w).1
  unfolding write_encrypted_block frame
  write_encrypted_block-PutsOut x w h = grind (arith, write_envelope_bytes-PutsOut, append_assoc)

  -- The effect of sealing one block.
  pub record SealsBlock (e : c.Encryptor) (w w' : EnvelopeWriter T c.Encryptor) : Type 0 where
    pub ciphertext : Bytes
    pub next : c.Encryptor
    pub sealed :
        c.encrypt_next e w.canonical_context (take 65536 w.pending) ≡ some (ciphertext, next)
    pub puts : PutsOut seen (frame ciphertext) w w'
    pub pending : w'.pending ≡ drop 65536 w.pending
    pub encryptor : w'.encryptor ≡ some next

  pub seal_block-SealsBlock :
      (e : c.Encryptor) (w : EnvelopeWriter T c.Encryptor)
      → w.encryptor ≡ some e
      → (seal_block c out w).0 ≡ ok tt
      → SealsBlock e w (seal_block c out w).1
  unfolding seal_block
  seal_block-SealsBlock e w he h =
      elim (Option-cases (c.encrypt_next e w.canonical_context (take 65536 w.pending))) [
        | inl n ↦ absurd (ground arith)
        | inr ((x, e'), s) ↦ record {
          ciphertext = x;
          next = e';
          sealed = s;
          puts = grind (arith, write_encrypted_block-PutsOut);
          pending = grind (arith, write_encrypted_block-PutsOut);
          encryptor = grind (arith, write_encrypted_block-PutsOut);
        }
      ]
