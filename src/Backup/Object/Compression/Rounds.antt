-- ===== src/Backup/Object/Compression/Rounds.antt =====
-- The decoding loop ends within its fuel and keeps its limit.
use kchat_rust_sdk.Base.{
  ℕ, zero, suc, ◌+◌, ◌-◌, ◌≡◌, ◌≤◌, ◌<◌, inl, inr, Bytes, length, length-drop, drop, arith, ok,
  Result-cases,
}
use kchat_rust_sdk.Backup.Exec.{Exec}
use kchat_rust_sdk.Backup.Object.Io.{checked_add_limited}
use kchat_rust_sdk.Backup.Object.Stream.{RawDecoder, Status, IsBounded}
use kchat_rust_sdk.Backup.Object.Compression.{
  State, run_decoder, add_total, decode_step, after_round, decode_round, decode_rounds,
}

module _ (z : RawDecoder) (law : IsBounded z) {X : Type 0} (emit : Bytes → Exec X (Unit {0}))
    (cancelled : Exec X (Unit {0})) where
  abbrev IsWithin : State z emit cancelled → Type 0
  IsWithin st = st.inner.total ≤ st.inner.limit

  -- What the rounds still have to read and may still write.
  abbrev measure : Bytes → State z emit cancelled → ℕ
  measure bytes st = length bytes + (st.inner.limit - st.inner.total)

  decode_step-ok :
      (bytes : Bytes) (st : State z emit cancelled) (status : Status)
      → IsWithin st
      → (decode_step z emit cancelled bytes st).0 ≡ ok status
      → (status.bytes_read ≤ length bytes)
        × ((decode_step z emit cancelled bytes st).1.inner.limit ≡ st.inner.limit)
        × ((decode_step z emit cancelled bytes st).1.inner.total
            ≡ st.inner.total + length status.output)
        × IsWithin (decode_step z emit cancelled bytes st).1
  unfolding decode_step run_decoder add_total checked_add_limited
  decode_step-ok bytes st status v h = grind (arith, law.reads)

  after_round-agree :
      (again more : Bytes → Exec (State z emit cancelled) (Unit {0})) (rest : Bytes)
      (status : Status) (st : State z emit cancelled)
      → (1 ≤ status.bytes_read + length status.output → again rest st ≡ more rest st)
      → after_round z emit cancelled again rest status st
        ≡ after_round z emit cancelled more rest status st
  unfolding after_round
  after_round-agree again more rest status st h = ground arith

  decode_round-agree :
      (again more : Bytes → Exec (State z emit cancelled) (Unit {0})) (bytes : Bytes)
      (st : State z emit cancelled)
      → IsWithin st
      → ((rest : Bytes) (st' : State z emit cancelled)
          → IsWithin st'
          → measure rest st' < measure bytes st
          → again rest st' ≡ more rest st')
      → decode_round z emit cancelled again bytes st ≡ decode_round z emit cancelled more bytes st
  unfolding decode_round
  decode_round-agree again more bytes st v h =
      elim (Result-cases (decode_step z emit cancelled bytes st).0) [
        | inr (e, q) ↦ ground arith
        | inl (status, q) ↦
            let st' = (decode_step z emit cancelled bytes st).1 in
            let (reads, limit, total, v') = decode_step-ok bytes st status v q in
            let rest = drop status.bytes_read bytes in
            let same = after_round-agree again more rest status st' (λ progress.
              h rest st' v'
                (omega (arith, limit, total, reads, v, v', length-drop status.bytes_read bytes))) in
            ground (arith, same)
      ]

  decode_rounds-agree :
      (n m : ℕ) (bytes : Bytes) (st : State z emit cancelled)
      → IsWithin st
      → measure bytes st < n
      → measure bytes st < m
      → decode_rounds z emit cancelled n bytes st ≡ decode_rounds z emit cancelled m bytes st
  unfolding decode_rounds
  decode_rounds-agree zero m bytes st v h k = absurd (omega arith)
  decode_rounds-agree (suc n) zero bytes st v h k = absurd (omega arith)
  decode_rounds-agree (suc n) (suc m) bytes st v h k =
      decode_round-agree (decode_rounds z emit cancelled n) (decode_rounds z emit cancelled m) bytes
        st v (λ rest st' v' less. decode_rounds-agree n m rest st' v' (omega arith) (omega arith))

  -- From a total within its limit, the fuel of the decoding loop is enough: with any more it does
  -- the same, whatever the decoder and the callbacks do, if a decoder call reads no more than it
  -- is given.
  pub decode_enough_fuel :
      (extra : ℕ) (bytes : Bytes) (st : State z emit cancelled)
      → st.inner.total ≤ st.inner.limit
      → decode_rounds z emit cancelled (suc (length bytes + st.inner.limit) + extra) bytes st
        ≡ decode_rounds z emit cancelled (suc (length bytes + st.inner.limit)) bytes st
  decode_enough_fuel extra bytes st v =
      decode_rounds-agree _ _ bytes st v (omega arith) (omega arith)
