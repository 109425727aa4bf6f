-- ===== src/Handler/Reading.antt =====
-- What the read loop of go/internal/pionserver/handler.go forwards.
use flutter_pion_bridge.Prelude.{
  ℕ, zero, suc, ℤ, ◌+◌, ◌*◌, ◌≤◌, ◌<◌, ◌≡◌, refl, min, some, List, [], ◌∷◌, leb, length, All, arith,
  Bool-cases, inl, inr, subst,
}
use flutter_pion_bridge.Handler.Detached.{
  Outcome, short_buffer, failed_read, message, Received, limit_of, first_size, read_loop,
  read_detached,
}

-- `k` doublings.
unfoldable pub doubled : ℕ → ℕ → ℕ
doubled zero len = len
doubled (suc k) len = doubled k (2 * len)

le-doubled : (k n : ℕ) → n ≤ doubled k n
unfolding doubled
le-doubled zero n = omega arith
le-doubled (suc k) n = omega (arith, le-doubled k (2 * n))

doubled-min : (k n a : ℕ) → n ≤ doubled k a → n ≤ doubled k (min n a)
doubled-min k n a h = elim (Bool-cases (leb a n)) [
  | inl e ↦ subst (λ x. n ≤ doubled k x) (ground arith) h
  | inr e ↦ subst (λ x. n ≤ doubled k x) (ground arith) (le-doubled k n)
]

module _ {S : Type 0} (read : ℕ → S → Outcome × S) where
  -- What pion documents of the call: `queue` has the messages that have arrived; a message that fits is taken
  -- and one that does not stays, with a short buffer; when none is left the stream has ended.
  pub record IsStream (queue : S → List Received) : Type 0 where
    pub fits :
        (len : ℕ) (s : S) (m : Received) (ms : List Received)
        → queue s ≡ m ∷ ms
        → length m.0 ≤ len
        → ((read len s).0 ≡ message m.0 m.1) × (queue (read len s).1 ≡ ms)
    pub stays :
        (len : ℕ) (s : S) (m : Received) (ms : List Received)
        → queue s ≡ m ∷ ms
        → len < length m.0
        → ((read len s).0 ≡ short_buffer) × (queue (read len s).1 ≡ m ∷ ms)
    pub ends : (len : ℕ) (s : S) → queue s ≡ [] → (read len s).0 ≡ failed_read

  -- Each round takes a message or doubles the buffer.
  loop_reads :
      (queue : S → List Received) (limit len k : ℕ) (ms : List Received) (f : ℕ) (s : S)
      → IsStream queue
      → queue s ≡ ms
      → All (λ m. length m.0 ≤ limit) ms
      → limit ≤ doubled k len
      → length ms + k < f
      → read_loop read f limit len s ≡ some ms
  unfolding read_loop doubled
  loop_reads queue limit len k ms zero s v q a d e = absurd (omega arith)
  loop_reads queue limit len k [] (suc f) s v q a d e = ground (arith, v.ends len s q)
  loop_reads queue limit len zero (m ∷ ms) (suc f) s v q a d e =
      let step = v.fits len s m ms q (ground (arith, a.0)) in
      ground (
        arith,
        step.0,
        loop_reads queue limit len zero ms f (read len s).1 v step.1 a.1 d (omega arith),
      )
  loop_reads queue limit len (suc j) (m ∷ ms) (suc f) s v q a d e =
      elim (Bool-cases (leb (length m.0) len)) [
        | inl fit ↦
            let step = v.fits len s m ms q (ground arith) in
            ground (
              arith,
              step.0,
              loop_reads queue limit len (suc j) ms f (read len s).1 v step.1 a.1 d (omega arith),
            )
        | inr big ↦
            let step = v.stays len s m ms q (ground arith) in
            ground (
              arith,
              step.0,
              a.0,
              loop_reads queue limit (min limit (2 * len)) j (m ∷ ms) f (read len s).1 v step.1 a
                  (doubled-min j limit (2 * len) d) (omega arith),
            )
      ]

  -- A stream that behaves as pion documents, whose messages are within the limit: the loop forwards every
  -- message, in order, and returns, after at most k + 1 rounds beside those that take a message, where
  -- k doublings of 65536 reach the limit (14 for 2 ^ 30).
  pub read_detached_forwards :
      (queue : S → List Received) (max_message_size : ℤ) (k : ℕ) (s : S)
      → IsStream queue
      → limit_of max_message_size ≤ doubled k 65536
      → All (λ m. length m.0 ≤ limit_of max_message_size) (queue s)
      → read_detached read (length (queue s) + (k + 1)) max_message_size s ≡ some (queue s)
  unfolding read_detached first_size
  read_detached_forwards queue max_message_size k s v enough a =
      loop_reads queue (limit_of max_message_size) (min (limit_of max_message_size) 65536) k
        (queue s) (length (queue s) + (k + 1)) s v refl a
        (doubled-min k (limit_of max_message_size) 65536 enough) (omega arith)
