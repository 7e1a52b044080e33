-- ===== src/Backup/Object/Writer/Terminal.antt =====
-- The states of the object writer.
use kchat_rust_sdk.Base.{
  ◌≡◌, ◌⊎◌, ap, refl, Bool, true, false, Option, none, some, List, [], ◌∷◌, inl, inr, arith, Bytes,
  ok, err,
}
use kchat_rust_sdk.Backup.Error.{Fallible}
use kchat_rust_sdk.Backup.Object.Io.{ByteSink}
use kchat_rust_sdk.Backup.Object.Stream.{StreamCipher, Compressor}
use kchat_rust_sdk.Backup.Object.Writer.{
  WriterTerminal, active, finished, aborted, failed, is_active, Writer, encode, write_active,
  write_plaintext, finish_active, finish, abort,
}

-- The state that a call leaves, by its result.
abbrev pub after {ℓ} : {A : Type ℓ} → WriterTerminal → Fallible A → WriterTerminal
after t (ok _) = t
after t (err _) = failed

abbrev pub is_some {ℓ} : {A : Type ℓ} → Option A → Bool
is_some none = false
is_some (some _) = true

module _ {T : Type 0} (c : StreamCipher) (z : Compressor) (out : ByteSink T) where
  -- The writer holds an envelope exactly while it is active.
  abbrev pub IsConsistent : Writer c z out → Type 0
  IsConsistent w = is_some w.current ≡ is_active w.terminal

  pub write_active-terminal :
      (bytes : Bytes) (w : Writer c z out)
      → IsConsistent w
      → is_active w.terminal ≡ true
      → ((write_plaintext c z out bytes w).1.terminal
          ≡ after active (write_plaintext c z out bytes w).0)
        × IsConsistent (write_plaintext c z out bytes w).1
  unfolding write_plaintext write_active encode
  write_active-terminal bytes w v a = ground arith

  pub finish_active-terminal :
      (w : Writer c z out)
      → IsConsistent w
      → is_active w.terminal ≡ true
      → ((finish c z out w).1.terminal ≡ after finished (finish c z out w).0)
        × IsConsistent (finish c z out w).1
  unfolding finish finish_active
  finish_active-terminal w v a = ground arith

  pub abort_active-terminal :
      (w : Writer c z out)
      → is_active w.terminal ≡ true
      → ((abort c z out w).0 ≡ ok tt)
        × ((abort c z out w).1.terminal ≡ aborted)
        × IsConsistent (abort c z out w).1
  unfolding abort
  abort_active-terminal w a = ground arith

  -- The calls that a client can make, and whether each one succeeds.
  pub data Call : Type 0 where
    writes : Bytes → Call
    finishes aborts : Call

  abbrev pub succeeds {ℓ} : {A : Type ℓ} → Fallible A → Bool
  succeeds (ok _) = true
  succeeds (err _) = false

  unfoldable pub call : Call → Writer c z out → Bool × Writer c z out
  call (writes bytes) w = let (r, w') = write_plaintext c z out bytes w in (succeeds r, w')
  call finishes w = let (r, w') = finish c z out w in (succeeds r, w')
  call aborts w = let (r, w') = abort c z out w in (succeeds r, w')

  unfoldable pub run : List Call → Writer c z out → Writer c z out
  run [] w = w
  run (x ∷ xs) w = run xs (call x w).1

  terminal_cases : (t : WriterTerminal) → (t ≡ active) ⊎ (is_active t ≡ false)
  terminal_cases t = ground arith

  -- The state machine: the state after a call, by the state before it and by its success.
  abbrev pub next : Call → WriterTerminal → Bool → WriterTerminal
  next (writes _) active true = active
  next (writes _) active false = failed
  next finishes active true = finished
  next finishes active false = failed
  next aborts active _ = aborted
  next _ t _ = t

  next_closed : (x : Call) (t : WriterTerminal) → is_active t ≡ false → t ≡ next x t false
  next_closed x t h = ground arith

  call_closed :
      (x : Call) (w : Writer c z out) → is_active w.terminal ≡ false → call x w ≡ (false, w)
  unfolding call write_plaintext finish abort
  call_closed (writes bytes) w h = ground arith
  call_closed finishes w h = ground arith
  call_closed aborts w h = ground arith

  call_active :
      (x : Call) (w : Writer c z out)
      → IsConsistent w
      → w.terminal ≡ active
      → ((call x w).1.terminal ≡ next x w.terminal (call x w).0) × IsConsistent (call x w).1
  unfolding call
  call_active (writes bytes) w v a =
      ground (arith, write_active-terminal bytes w v (ap is_active a))
  call_active finishes w v a = ground (arith, finish_active-terminal w v (ap is_active a))
  call_active aborts w v a = ground (arith, abort_active-terminal w (ap is_active a))

  -- Every call to a consistent writer, whatever the sink, the cipher and the compressor do,
  -- follows the state machine, and the writer holds an envelope after it exactly if it is active.
  pub call-next :
      (x : Call) (w : Writer c z out)
      → IsConsistent w
      → ((call x w).1.terminal ≡ next x w.terminal (call x w).0) × IsConsistent (call x w).1
  call-next x w v = elim (terminal_cases w.terminal) [
    | inl a ↦ call_active x w v a
    | inr closed ↦ rw (call_closed x w closed) (next_closed x w.terminal closed, v)
  ]

  -- After a writer has finished, failed or aborted, every call of any sequence is refused, and the
  -- writer and its sink stay as they were.
  pub run_closed :
      (xs : List Call) (x : Call) (w : Writer c z out)
      → is_active w.terminal ≡ false
      → (run xs w ≡ w) × (call x (run xs w) ≡ (false, w))
  unfolding run
  run_closed [] x w h = (refl, call_closed x w h)
  run_closed (y ∷ xs) x w h = rw (call_closed y w h) (run_closed xs x w h)
