-- ===== src/Keepalive/Answers.antt =====
-- What one `Read` of the keepalive body returns.
use paracetamol.Base.{
  ℕ, zero, take, suc, ◌==◌, ◌≤◌, true, not, none, some, List, [], ◌∷◌, ◌≡◌, refl, arith, length,
}
use paracetamol.Text.{Text, is_empty}
use paracetamol.Keepalive.Read.{
  StreamKeepaliveBody, Wake, upstream_result, tick, closed_first, closed_second, Outcome, delivered,
  failed, waiting, closed_pipe, upstream_failed, ask, receive_read, receive_tick, deliver,
  read_loop, read,
}
use paracetamol.Keepalive.Frames.{chosen, chosen_if, empty_pending}

take_bounded : (n : ℕ) (s : Text) → length (take n s) ≤ n
take_bounded zero s = omega arith
take_bounded (suc n) [] = omega arith
take_bounded (suc n) (c ∷ s) = omega (arith, take_bounded n s)

take_some : (n : ℕ) (s : Text) → 1 ≤ n → not (is_empty s) ≡ true → 1 ≤ length (take n s)
take_some zero s h e = absurd (omega arith)
take_some (suc n) [] h e = absurd (ground (arith, e))
take_some (suc n) (c ∷ s) h e = omega arith

module _ {E : Type 0} where
  -- Bytes are between 1 and `n`; an error comes when nothing is pending, and it stays; `Read` waits
  -- for a read of the upstream that it has asked for.
  unfoldable pub IsAnswer : ℕ → Outcome E × StreamKeepaliveBody E × List (Wake E) → Type 0
  IsAnswer n (delivered value, body, wakes) = (1 ≤ length value) × (length value ≤ n)
  IsAnswer n (failed closed_pipe, body, wakes) = (body.pending ≡ []) × (body.err ≡ none)
  IsAnswer n (failed (upstream_failed e), body, wakes) = (body.pending ≡ []) × (body.err ≡ some e)
  IsAnswer n (waiting, body, wakes) =
      (wakes ≡ []) × (body.reading ≡ true) × (body.pending ≡ []) × (body.err ≡ none)

  taken-IsAnswer :
      (n : ℕ) (body : StreamKeepaliveBody E) (wakes : List (Wake E))
      → ((body' : StreamKeepaliveBody E) → IsAnswer n (read_loop n body' wakes))
      → body.pending ≡ []
      → body.err ≡ none
      → (wake : Wake E)
      → IsAnswer n (elim wake [
        | upstream_result value err ↦ read_loop n (receive_read body value err) wakes
        | tick ↦ read_loop n (receive_tick (ask body)) wakes
        | closed_first ↦ (failed closed_pipe, body, wakes)
        | closed_second ↦ (failed closed_pipe, ask body, wakes)
      ])
  unfolding IsAnswer
  taken-IsAnswer n body wakes next p e (upstream_result value err) =
      next (receive_read body value err)
  taken-IsAnswer n body wakes next p e tick = next (receive_tick (ask body))
  taken-IsAnswer n body wakes next p e closed_first = (p, e)
  taken-IsAnswer n body wakes next p e closed_second = (p, e)

  read_loop-IsAnswer :
      (n : ℕ) (body : StreamKeepaliveBody E) (wakes : List (Wake E))
      → 1 ≤ n
      → IsAnswer n (read_loop n body wakes)
  unfolding read_loop deliver IsAnswer
  read_loop-IsAnswer n body [] h =
      chosen (IsAnswer n) (not (is_empty body.pending)) body.err _ _ _
        (λ p. (take_some n body.pending h p, take_bounded n body.pending))
        (λ p e. (refl, refl, empty_pending body.pending p, e))
        (λ e p f. (empty_pending body.pending p, f))
  read_loop-IsAnswer n body (wake ∷ wakes) h =
      chosen (IsAnswer n) (not (is_empty body.pending)) body.err _ _ _
        (λ p. (take_some n body.pending h p, take_bounded n body.pending))
        (λ p e.
          taken-IsAnswer n body wakes (λ b. read_loop-IsAnswer n b wakes h)
            (empty_pending body.pending p) e wake)
        (λ e p f. (empty_pending body.pending p, f))

  -- Into a buffer that is not empty, `Read` hands over at least one byte and no more than fit; or it
  -- fails, with the error of the upstream or as closed, once nothing is pending; or it has taken
  -- every wake and waits for the read of the upstream that it asked for.
  read-IsAnswer :
      (n : ℕ) (body : StreamKeepaliveBody E) (wakes : List (Wake E))
      → 1 ≤ n
      → IsAnswer n (read n body wakes)
  unfolding read IsAnswer
  read-IsAnswer n body wakes h =
      chosen_if (IsAnswer n) (n == 0) _ _ (λ none_wanted. absurd (ground (arith, none_wanted, h)))
        (λ wanted. read_loop-IsAnswer n body wakes h)
