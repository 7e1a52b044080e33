-- ===== src/Backup/Object/Frames/Refinement.antt =====
-- The bytes of a finished object depend on the compressed bytes alone, not on how the compressor cut
-- them into pieces: `Sealed` is the specification, with no buffer and no counters.
use kchat_rust_sdk.Base.{
  ℕ, zero, suc, ◌+◌, ◌≤◌, ◌<◌, ◌≡◌, ◌≢◌, refl, sym, ap, subst, ◌∙◌, some, none, List, [], ◌∷◌, ◌++◌,
  inl, inr, arith, Bytes, length, length-append, length-drop, leb, Bool-cases, Option-cases, ok,
  take, drop, append_assoc, append-nil, flat, true, false, leb→le,
}
use kchat_rust_sdk.Backup.Object.Io.{ByteSink, checked_add_limited}
use kchat_rust_sdk.Backup.Object.Stream.{StreamCipher}
use kchat_rust_sdk.Backup.Object.Frames.Layout.{
  IsRecorder, PutsOut, SealsBlock, frame, seal_block-SealsBlock, write_encrypted_block-PutsOut,
}
use kchat_rust_sdk.Backup.Object.Frames.{
  EnvelopeWriter, BackupObjectDescriptor, seal_block, seal_blocks, write_encrypted_block,
  write_compressed, write, write_pieces, finish_envelope,
}

take_of_append : (n : ℕ) (xs ys : Bytes) → n ≤ length xs → take n (xs ++ ys) ≡ take n xs
take_of_append zero xs ys h = refl
take_of_append (suc n) [] ys h = absurd (omega arith)
take_of_append (suc n) (x ∷ xs) ys h = ap (◌∷◌ x) (take_of_append n xs ys (omega arith))

drop_of_append : (n : ℕ) (xs ys : Bytes) → n ≤ length xs → drop n (xs ++ ys) ≡ drop n xs ++ ys
drop_of_append zero xs ys h = refl
drop_of_append (suc n) [] ys h = absurd (omega arith)
drop_of_append (suc n) (x ∷ xs) ys h = drop_of_append n xs ys (omega arith)

-- Compressed bytes `b`, sealed from cipher state `e`: whole blocks of 64 KiB are framed into the
-- output, the rest is below a block.
pub data Sealed (c : StreamCipher) (aad : Bytes)
    : c.Encryptor → Bytes → Bytes → c.Encryptor → Bytes → Type 0 where
  short : {e : c.Encryptor} {b : Bytes} → length b < 65536 → Sealed c aad e b [] e b
  block :
      {e e' e'' : c.Encryptor} {b o rest : Bytes} (x : Bytes)
      → 65536 ≤ length b
      → c.encrypt_next e aad (take 65536 b) ≡ some (x, e')
      → Sealed c aad e' (drop 65536 b) o e'' rest
      → Sealed c aad e b (frame x ++ o) e'' rest

pub Sealed-rest :
    (c : StreamCipher) (aad : Bytes) {e e' : c.Encryptor} {b o rest : Bytes}
    → Sealed c aad e b o e' rest
    → length rest < 65536
Sealed-rest c aad (short h) = h
Sealed-rest c aad (block x h s r) = Sealed-rest c aad r

-- Sealing in two goes is sealing at once.
pub Sealed-append :
    (c : StreamCipher) (aad more : Bytes) {e e' e'' : c.Encryptor} {b o rest o' rest' : Bytes}
    → Sealed c aad e b o e' rest
    → Sealed c aad e' (rest ++ more) o' e'' rest'
    → Sealed c aad e (b ++ more) (o ++ o') e'' rest'
Sealed-append c aad more (short h) s = s
Sealed-append c aad more {e = e} {e'' = z} {b = b} {o' = o'} {rest' = rest'}
      (block {e' = y} {o = o} x h s r) t =
    subst (λ u. Sealed c aad e (b ++ more) u z rest') (sym (append_assoc (frame x) o o'))
      (block {e' = y} x (omega (arith, length-append b more))
        (ap (c.encrypt_next e aad) (take_of_append 65536 b more h) ∙ s)
        (subst (λ u. Sealed c aad y u (o ++ o') z rest') (sym (drop_of_append 65536 b more h))
          (Sealed-append c aad more r t)))

module _ {T : Type 0} (c : StreamCipher) (out : ByteSink T) (seen : T → Bytes)
    (law : IsRecorder out seen) where
  -- From `w` to `w'` the bytes `b` were sealed, and the output went to the sink and the hash.
  pub record Advances (b : Bytes) (e : c.Encryptor) (w w' : EnvelopeWriter T c.Encryptor)
      : Type 0 where
    pub bytes : Bytes
    pub next : c.Encryptor
    pub sealed : Sealed c w.canonical_context e b bytes next w'.pending
    pub puts : PutsOut seen bytes w w'
    pub encryptor : w'.encryptor ≡ some next

  PutsOut-refl : (w : EnvelopeWriter T c.Encryptor) → PutsOut seen [] w w
  PutsOut-refl w = record { hashed = sym (append-nil _); sink = sym (append-nil _); context = refl }

  PutsOut-trans :
      {x y : Bytes} {u v w : EnvelopeWriter T c.Encryptor}
      → PutsOut seen x u v
      → PutsOut seen y v w
      → PutsOut seen (x ++ y) u w
  PutsOut-trans {x} {y} {u} p q = record {
    hashed = q.hashed ∙ ap (λ b. b ++ y) p.hashed ∙ append_assoc u.hashed x y;
    sink = q.sink ∙ ap (λ b. b ++ y) p.sink ∙ append_assoc (seen u.sink) x y;
    context = q.context ∙ p.context;
  }

  pub Advances-short :
      (e : c.Encryptor) (w : EnvelopeWriter T c.Encryptor)
      → length w.pending < 65536
      → w.encryptor ≡ some e
      → Advances w.pending e w w
  Advances-short e w h he = record {
    bytes = [];
    next = e;
    sealed = short h;
    puts = PutsOut-refl w;
    encryptor = he;
  }

  Advances-block :
      (e : c.Encryptor) (u v w : EnvelopeWriter T c.Encryptor)
      → 65536 ≤ length u.pending
      → (s : SealsBlock c out seen law e u v) → Advances v.pending s.next v w
      → Advances u.pending e u w
  Advances-block e u v w h s a = record {
    bytes = frame s.ciphertext ++ a.bytes;
    next = a.next;
    sealed = block s.ciphertext h s.sealed (
        subst (λ p. Sealed c u.canonical_context s.next p a.bytes a.next w.pending) s.pending
          (subst (λ x. Sealed c x s.next v.pending a.bytes a.next w.pending) s.puts.context
            a.sealed));
    puts = PutsOut-trans s.puts a.puts;
    encryptor = a.encryptor;
  }

  seal_blocks-more :
      (fuel : ℕ) (w : EnvelopeWriter T c.Encryptor)
      → leb 65536 (length w.pending) ≡ true
      → (seal_blocks c out (suc fuel) w).0 ≡ ok tt
      → ((seal_block c out w).0 ≡ ok tt)
        × (seal_blocks c out (suc fuel) w ≡ seal_blocks c out fuel (seal_block c out w).1)
  unfolding seal_blocks
  seal_blocks-more fuel w full h = ground arith

  seal_blocks-less :
      (fuel : ℕ) (w : EnvelopeWriter T c.Encryptor)
      → leb 65536 (length w.pending) ≡ false
      → seal_blocks c out (suc fuel) w ≡ (ok tt, w)
  unfolding seal_blocks
  seal_blocks-less fuel w less = ground arith

  seal_blocks-Advances :
      (fuel : ℕ) (e : c.Encryptor) (w : EnvelopeWriter T c.Encryptor)
      → length w.pending ≤ fuel
      → w.encryptor ≡ some e
      → (seal_blocks c out fuel w).0 ≡ ok tt
      → Advances w.pending e w (seal_blocks c out fuel w).1
  seal_blocks-Advances zero e w f he h = unfold seal_blocks in Advances-short e w (omega arith) he
  seal_blocks-Advances (suc fuel) e w f he h = elim (Bool-cases (leb 65536 (length w.pending))) [
    | inl full ↦
        let (first, same) = seal_blocks-more fuel w full h in
        let s = seal_block-SealsBlock c out seen law e w he first in
        let v = (seal_block c out w).1 in
        let shorter : length v.pending ≤ fuel =
          omega (arith, ap length s.pending, length-drop 65536 w.pending, leb→le 65536 _ full) in
        rw same (
          Advances-block e w v _ (leb→le 65536 _ full) s
            (seal_blocks-Advances fuel s.next v shorter s.encryptor (rw same at h)))
    | inr less ↦ rw (seal_blocks-less fuel w less) (Advances-short e w (ground arith) he)
  ]

  -- A write that succeeds buffers the bytes, and seals what is full.
  write-ok :
      (bytes : Bytes) (w w₁ : EnvelopeWriter T c.Encryptor)
      → w₁ ≡ record w {
        compressed_bytes = w.compressed_bytes + length bytes;
        pending = w.pending ++ bytes;
      }
      → (write c out bytes w).0 ≡ ok tt
      → ((seal_blocks c out (length w₁.pending) w₁).0 ≡ ok tt)
        × ((write c out bytes w).1 ≡ (seal_blocks c out (length w₁.pending) w₁).1)
  unfolding write write_compressed checked_add_limited
  write-ok bytes w w₁ e h = ground arith

  write-Advances :
      (bytes : Bytes) (e : c.Encryptor) (w : EnvelopeWriter T c.Encryptor)
      → w.encryptor ≡ some e
      → (write c out bytes w).0 ≡ ok tt
      → Advances (w.pending ++ bytes) e w (write c out bytes w).1
  write-Advances bytes e w he h =
      let w₁ : EnvelopeWriter T c.Encryptor = record w {
        compressed_bytes = w.compressed_bytes + length bytes;
        pending = w.pending ++ bytes;
      } in
      let (sealed, same) = write-ok bytes w w₁ refl h in
      let a = seal_blocks-Advances (length w₁.pending) e w₁ (omega arith) he sealed in
      rw same (record {
        bytes = a.bytes;
        next = a.next;
        sealed = a.sealed;
        puts = record { hashed = a.puts.hashed; sink = a.puts.sink; context = a.puts.context };
        encryptor = a.encryptor;
      })

  -- One advance after another, the second over what the first left pending and more.
  pub Advances-trans :
      (b more : Bytes) (e : c.Encryptor) (u v w : EnvelopeWriter T c.Encryptor)
      → (a : Advances b e u v) → Advances (v.pending ++ more) a.next v w
      → Advances (b ++ more) e u w
  Advances-trans b more e u v w a z = record {
    bytes = a.bytes ++ z.bytes;
    next = z.next;
    sealed = Sealed-append c u.canonical_context more a.sealed (
        subst (λ x. Sealed c x a.next (v.pending ++ more) z.bytes z.next w.pending) a.puts.context
          z.sealed);
    puts = PutsOut-trans a.puts z.puts;
    encryptor = z.encryptor;
  }

  write_pieces-ok :
      (piece : Bytes) (rest : List Bytes) (w : EnvelopeWriter T c.Encryptor)
      → (write_pieces c out (piece ∷ rest) w).0 ≡ ok tt
      → ((write c out piece w).0 ≡ ok tt)
        × (write_pieces c out (piece ∷ rest) w ≡ write_pieces c out rest (write c out piece w).1)
  unfolding write_pieces
  write_pieces-ok piece rest w h = ground arith

  -- Given a sink whose state shows what it has accepted, and a writer that holds a cipher and
  -- less than a block of pending bytes: if all pieces are written, then, however the compressor
  -- cuts its output into pieces, the bytes put out, to the sink and to the hash, are the framed
  -- whole blocks of what was pending and of their concatenation, and the rest is pending.
  pub write_pieces-Advances :
      (pieces : List Bytes) (e : c.Encryptor) (w : EnvelopeWriter T c.Encryptor)
      → length w.pending < 65536
      → w.encryptor ≡ some e
      → (write_pieces c out pieces w).0 ≡ ok tt
      → Advances (w.pending ++ flat pieces) e w (write_pieces c out pieces w).1
  write_pieces-Advances [] e w l he h =
      rw append-nil (unfold write_pieces in Advances-short e w l he)
  write_pieces-Advances (piece ∷ rest) e w l he h =
      let (first, same) = write_pieces-ok piece rest w h in
      let v = (write c out piece w).1 in
      let a = write-Advances piece e w he first in
      let z =
        write_pieces-Advances rest a.next v (Sealed-rest c _ a.sealed) a.encryptor (rw same at h) in
      subst (λ b. Advances b e w (write_pieces c out (piece ∷ rest) w).1)
        (append_assoc w.pending piece (flat rest))
        (rw same (Advances-trans (w.pending ++ piece) (flat rest) e w v _ a z))

  -- The last block: what is pending, sealed as the last, and the descriptor of the whole.
  pub record IsFinished (e : c.Encryptor) (w w' : EnvelopeWriter T c.Encryptor)
      (d : BackupObjectDescriptor) : Type 0 where
    pub ciphertext : Bytes
    pub sealed : c.encrypt_last e w.canonical_context w.pending ≡ some ciphertext
    pub puts : PutsOut seen (frame ciphertext) w w'
    pub size : d.ciphertext_size ≡ w'.ciphertext_bytes
    pub digest : d.ciphertext_sha256 ≡ c.sha256 w'.hashed
    pub version : d.format_version ≡ 1

  finish_envelope-ok :
      (e : c.Encryptor) (x : Bytes) (w w₁ : EnvelopeWriter T c.Encryptor)
      (d : BackupObjectDescriptor)
      → w₁ ≡ record w { encryptor = none; pending = [] }
      → w.encryptor ≡ some e
      → c.encrypt_last e w.canonical_context w.pending ≡ some x
      → (finish_envelope c out w).0 ≡ ok d
      → ((write_encrypted_block c out x w₁).0 ≡ ok tt)
        × ((finish_envelope c out w).1 ≡ (write_encrypted_block c out x w₁).1)
        × (d.ciphertext_size ≡ (finish_envelope c out w).1.ciphertext_bytes)
        × (d.ciphertext_sha256 ≡ c.sha256 (finish_envelope c out w).1.hashed)
        × (d.format_version ≡ 1)
  unfolding finish_envelope
  finish_envelope-ok e x w w₁ d q he s h = ground arith

  finish_envelope-sealed :
      (e : c.Encryptor) (w : EnvelopeWriter T c.Encryptor) (d : BackupObjectDescriptor)
      → w.encryptor ≡ some e
      → (finish_envelope c out w).0 ≡ ok d
      → c.encrypt_last e w.canonical_context w.pending ≢ none
  unfolding finish_envelope
  finish_envelope-sealed e w d he h n = ground arith

  pub finish_envelope-IsFinished :
      (e : c.Encryptor) (w : EnvelopeWriter T c.Encryptor) (d : BackupObjectDescriptor)
      → w.encryptor ≡ some e
      → (finish_envelope c out w).0 ≡ ok d
      → IsFinished e w (finish_envelope c out w).1 d
  finish_envelope-IsFinished e w d he h =
      elim (Option-cases (c.encrypt_last e w.canonical_context w.pending)) [
        | inl n ↦ absurd (finish_envelope-sealed e w d he h n)
        | inr (x, s) ↦
            let w₁ : EnvelopeWriter T c.Encryptor = record w { encryptor = none; pending = [] } in
            let (written, same, size, digest, version) =
              finish_envelope-ok e x w w₁ d refl he s h in
            let (p, q) = write_encrypted_block-PutsOut c out seen law x w₁ written in
            record {
              ciphertext = x;
              sealed = s;
              puts = rw same (record { hashed = p.hashed; sink = p.sink; context = p.context });
              size = size;
              digest = digest;
              version = version;
            }
      ]
