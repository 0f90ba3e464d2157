-- ===== src/Keepalive/Frames.antt =====
-- What `Read` hands over, against the bytes of the upstream and the comments.
use paracetamol.Base.{
  ℕ, zero, take, suc, ◌==◌, Bool, true, false, not, ◌&&◌, Option, none, some, List, [], ◌∷◌, ◌++◌,
  ◌≡◌, refl, if◌then◌else◌, arith, ap, sym, subst, ◌∙◌,
}
use paracetamol.Text.{Text, drop, is_empty}
use paracetamol.Keepalive.Framing.{
  observe_framing, at_start, at_boundary, ends_frame, ends_return, boundary-ends_frame,
  after_cr-ends_return, observe_framing-append, clean,
}
use paracetamol.Keepalive.Read.{
  StreamKeepaliveBody, Wake, upstream_result, tick, closed_first, closed_second, Outcome, failed,
  closed_pipe, stream_keepalive_comment, new_stream_keepalive_body, ask, receive_read, receive_tick,
  deliver, read_loop, read, read_all, bytes_of, upstream_bytes,
}
use mathlib.Core.List.{append-nil, append_assoc}

-- The upstream bytes `up`, and what is handed over of them with comments in it. Before a comment
-- stands the end of a frame, which no newline can still belong to.
pub data Interleaves : Text → Text → Type 0 where
  nothing_sent : Interleaves [] []
  sends_bytes :
      {up out : Text} (value : Text) → Interleaves up out → Interleaves (up ++ value) (out ++ value)
  sends_comment :
      {up out : Text}
      → ends_frame up ≡ true
      → ends_return false up ≡ false
      → Interleaves up out
      → Interleaves up (out ++ stream_keepalive_comment)

pub chosen {ℓ κ} :
    {A : Type ℓ} (Q : A → Type κ) {E : Type 0} (b : Bool) (o : Option E) (x y : A) (z : E → A)
    → (b ≡ true → Q x)
    → (b ≡ false → o ≡ none → Q y)
    → ((e : E) → b ≡ false → o ≡ some e → Q (z e))
    → Q (if b then x else elim o [ none ↦ y | some e ↦ z e ])
chosen Q true o x y z f g h = f refl
chosen Q false none x y z f g h = g refl refl
chosen Q false (some e) x y z f g h = h e refl refl

pub chosen_if {ℓ κ} :
    {A : Type ℓ} (Q : A → Type κ) (b : Bool) (x y : A)
    → (b ≡ true → Q x)
    → (b ≡ false → Q y)
    → Q (if b then x else y)
chosen_if Q true x y f g = f refl
chosen_if Q false x y f g = g refl

pub empty_pending : (s : Text) → not (is_empty s) ≡ false → s ≡ []
empty_pending [] e = refl
empty_pending (c ∷ s) e = absurd (ground (arith, e))

take-drop : (n : ℕ) (s : Text) → take n s ++ drop n s ≡ s
take-drop zero s = refl
take-drop (suc n) [] = refl
take-drop (suc n) (c ∷ s) = ap (λ t. c ∷ t) (take-drop n s)

from_start :
    (b l a : Bool)
    → (b && not a) ≡ true
    → (b && l) ≡ false
    → record { boundary = b; line_data = l; after_cr = a } ≡ at_start
from_start true false false h k = refl
from_start true true a h k = absurd (ground (arith, k))
from_start true l true h k = absurd (ground (arith, h))
from_start false l a h k = absurd (ground (arith, h))

comment_seen : observe_framing at_start stream_keepalive_comment ≡ at_start
unfolding observe_framing
comment_seen = refl

module _ {E : Type 0} where
  pub record Follows (body : StreamKeepaliveBody E) (up out : Text) : Type 0 where
    pub sent : Interleaves up (out ++ body.pending)
    pub seen : observe_framing body.framing body.pending ≡ observe_framing at_start up

  -- `read_loop` returns after `out` was handed over, of the upstream bytes `whole` in all
  pub Done : Text → Text → Outcome E × StreamKeepaliveBody E × List (Wake E) → Type 0
  Done whole out (outcome, body, wakes) =
      (up : Text) × (up ++ upstream_bytes wakes ≡ whole) × Follows body up (out ++ bytes_of outcome)

  deliver-Follows :
      (n : ℕ) (body : StreamKeepaliveBody E) (up out : Text)
      → Follows body up out
      → Follows (deliver n body).1 up (out ++ take n body.pending)
  unfolding deliver
  deliver-Follows n body up out h =
      let whole = take-drop n body.pending in
      record {
        sent =
            subst (Interleaves up)
              (sym (
                append_assoc out (take n body.pending) (drop n body.pending)
                ∙ ap (λ s. out ++ s) whole))
              h.sent;
        seen =
            sym (observe_framing-append body.framing (take n body.pending) (drop n body.pending))
            ∙ ap (observe_framing body.framing) whole
            ∙ h.seen;
      }

  -- nothing more is handed over
  same-Follows :
      (body : StreamKeepaliveBody E) (up out : Text)
      → Follows body up out
      → Follows body up (out ++ [])
  same-Follows body up out h = subst (Follows body up) (sym (append-nil out)) h

  nothing_pending :
      (body : StreamKeepaliveBody E) (up out : Text)
      → body.pending ≡ []
      → Follows body up out
      → Interleaves up out × (body.framing ≡ observe_framing at_start up)
  unfolding observe_framing
  nothing_pending body up out empty h = (
    subst (Interleaves up) (ap (λ s. out ++ s) empty ∙ append-nil out) h.sent,
    sym (ap (observe_framing body.framing) empty) ∙ h.seen,
  )

  receive-Follows :
      (body : StreamKeepaliveBody E) (value : Text) (err : Option E) (up out : Text)
      → body.pending ≡ []
      → Follows body up out
      → Follows (receive_read body value err) (up ++ value) out
  receive-Follows body value err up out empty h =
      let (whole, framing) = nothing_pending body up out empty h in
      record {
        sent = sends_bytes value whole;
        seen =
            ap (λ f. observe_framing f value) framing
            ∙ sym (observe_framing-append at_start up value);
      }

  ask-Follows :
      (body : StreamKeepaliveBody E) (up out : Text)
      → Follows body up out
      → Follows (ask body) up out
  ask-Follows body up out h = record { sent = h.sent; seen = h.seen }

  comment-Follows :
      (body : StreamKeepaliveBody E) (up out : Text)
      → body.pending ≡ []
      → at_boundary body.framing ≡ true
      → Follows body up out
      → Follows (record body { pending = stream_keepalive_comment; reading = true }) up out
  comment-Follows body up out empty ready h =
      let (whole, framing) = nothing_pending body up out empty h in
      let seen_ready : at_boundary (observe_framing at_start up) ≡ true =
        sym (ap at_boundary framing) ∙ ready in
      let start =
        from_start (observe_framing at_start up).boundary (observe_framing at_start up).line_data
          (observe_framing at_start up).after_cr seen_ready (clean at_start up refl) in
      record {
        sent =
            sends_comment (sym (boundary-ends_frame up) ∙ ap (λ f. f.boundary) start)
              (sym (after_cr-ends_return at_start up) ∙ ap (λ f. f.after_cr) start) whole;
        seen =
            ap (λ f. observe_framing f stream_keepalive_comment) (framing ∙ start)
            ∙ comment_seen
            ∙ sym start;
      }

  tick-Follows :
      (body : StreamKeepaliveBody E) (up out : Text)
      → body.pending ≡ []
      → Follows body up out
      → Follows (receive_tick (ask body)) up out
  unfolding receive_tick
  tick-Follows body up out empty h =
      chosen_if (λ b. Follows b up out) (at_boundary body.framing) _ _
        (λ ready. comment-Follows body up out empty ready h) (λ busy. ask-Follows body up out h)

  -- one round of the loop that takes a wake
  taken-Done :
      (n : ℕ) (body : StreamKeepaliveBody E) (up out : Text) (wakes : List (Wake E))
      → ((body' : StreamKeepaliveBody E) (up' : Text)
          → Follows body' up' out
          → Done (up' ++ upstream_bytes wakes) out (read_loop n body' wakes))
      → body.pending ≡ []
      → Follows body up out
      → (wake : Wake E)
      → Done (up ++ upstream_bytes (wake ∷ wakes)) out (elim wake [
        | upstream_result value err ↦ read_loop n (receive_read body value err) wakes
        | tick ↦ read_loop n (receive_tick (ask body)) wakes
        | closed_first ↦ (failed closed_pipe, body, wakes)
        | closed_second ↦ (failed closed_pipe, ask body, wakes)
      ])
  unfolding upstream_bytes Done
  taken-Done n body up out wakes next empty h (upstream_result value err) =
      subst (λ whole. Done whole out (read_loop n (receive_read body value err) wakes))
        (append_assoc up value (upstream_bytes wakes))
        (next (receive_read body value err) (up ++ value)
          (receive-Follows body value err up out empty h))
  taken-Done n body up out wakes next empty h tick =
      next (receive_tick (ask body)) up (tick-Follows body up out empty h)
  taken-Done n body up out wakes next empty h closed_first = (up, refl, same-Follows body up out h)
  taken-Done n body up out wakes next empty h closed_second =
      (up, refl, same-Follows (ask body) up out (ask-Follows body up out h))

  read_loop-Done :
      (n : ℕ) (body : StreamKeepaliveBody E) (up out : Text) (wakes : List (Wake E))
      → Follows body up out
      → Done (up ++ upstream_bytes wakes) out (read_loop n body wakes)
  unfolding read_loop Done deliver
  read_loop-Done n body up out [] h =
      chosen (Done (up ++ upstream_bytes []) out) (not (is_empty body.pending)) body.err _ _ _
        (λ p. (up, refl, deliver-Follows n body up out h))
        (λ p e. (up, refl, same-Follows (ask body) up out (ask-Follows body up out h)))
        (λ e p f. (up, refl, same-Follows body up out h))
  read_loop-Done n body up out (wake ∷ wakes) h =
      chosen (Done (up ++ upstream_bytes (wake ∷ wakes)) out) (not (is_empty body.pending)) body.err
        _ _ _ (λ p. (up, refl, deliver-Follows n body up out h))
        (λ p e.
          taken-Done n body up out wakes (λ b u f. read_loop-Done n b u out wakes f)
            (empty_pending body.pending p) h wake)
        (λ e p f. (up, refl, same-Follows body up out h))

  read-Done :
      (n : ℕ) (body : StreamKeepaliveBody E) (up out : Text) (wakes : List (Wake E))
      → Follows body up out
      → Done (up ++ upstream_bytes wakes) out (read n body wakes)
  unfolding read Done
  read-Done n body up out wakes h =
      chosen_if (Done (up ++ upstream_bytes wakes) out) (n == 0) _ _
        (λ none_wanted. (up, refl, same-Follows body up out h))
        (λ wanted. read_loop-Done n body up out wakes h)

  read_all-Follows :
      (sizes : List ℕ) (body : StreamKeepaliveBody E) (up out : Text) (wakes : List (Wake E))
      → Follows body up out
      → let (value, body', wakes') = read_all sizes body wakes in
        (up' : Text) × (up' ++ upstream_bytes wakes' ≡ up ++ upstream_bytes wakes)
        × Follows body' up' (out ++ value)
  unfolding read_all Done
  read_all-Follows [] body up out wakes h = (up, refl, same-Follows body up out h)
  read_all-Follows (n ∷ sizes) body up out wakes h =
      let (outcome, body', wakes') = read n body wakes in
      let (up', kept, h') = read-Done n body up out wakes h in
      let (last, kept', follows) =
        read_all-Follows sizes body' up' (out ++ bytes_of outcome) wakes' h' in
      (
        last,
        kept' ∙ kept,
        subst (Follows (read_all sizes body' wakes').1 last)
            (append_assoc out (bytes_of outcome) (read_all sizes body' wakes').0) follows,
      )

  -- In whatever order the reads of the upstream and the ticks arrive, what `Read` hands over and
  -- holds back is the upstream bytes received, in their order, with whole comments between, each of
  -- them behind a whole frame.
  pub read_all-Interleaves :
      (sizes : List ℕ) (wakes : List (Wake E))
      → let (value, body, rest) = read_all sizes new_stream_keepalive_body wakes in
        (up : Text) × (up ++ upstream_bytes rest ≡ upstream_bytes wakes)
        × Interleaves up (value ++ body.pending)
  unfolding observe_framing
  read_all-Interleaves sizes wakes =
      let (up, kept, follows) =
        read_all-Follows sizes new_stream_keepalive_body [] [] wakes
          (record { sent = nothing_sent; seen = refl }) in
      (up, kept, follows.sent)
