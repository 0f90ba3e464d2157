-- ===== src/Keepalive/Read.antt =====
-- `streamKeepaliveBody` and its `Read`. What the goroutine of `readUpstream`, the ticker and `Close`
-- send is a list of wakes, in the order in which `Read` receives them.
use paracetamol.Base.{
  ℕ, take, ◌==◌, Bool, true, false, not, Option, none, some, List, [], ◌∷◌, ◌++◌, if◌then◌else◌,
}
use paracetamol.Text.{Text, codes, drop, is_empty}
use paracetamol.Keepalive.Framing.{StreamBoundary, observe_framing, at_start, at_boundary}

abbrev pub stream_keepalive_comment : Text
stream_keepalive_comment = codes ": paracetamol gateway keepalive\n\n"

-- `io.ErrClosedPipe`, or the error of the upstream body, of type `E`
pub data ReadError (E : Type 0) : Type 0 where
  closed_pipe : ReadError E
  upstream_failed : E → ReadError E

-- What a `select` of `Read` takes: the result of one read of the upstream, a tick, or the closed
-- channel, by the first `select`, before it asks the goroutine to read, or by the second one.
pub data Wake (E : Type 0) : Type 0 where
  upstream_result : Text → Option E → Wake E
  tick closed_first closed_second : Wake E

-- `pending` and `err` hold what is still to be handed over. The buffer is not kept: `pending` is the
-- part of it that counts, and the goroutine is asked to read only when nothing is pending of it.
pub record StreamKeepaliveBody (E : Type 0) : Type 0 where
  pub pending : Text
  pub err : Option E
  pub reading : Bool
  pub framing : StreamBoundary

-- A `Read` returns, or it waits with no wake left.
pub data Outcome (E : Type 0) : Type 0 where
  delivered : Text → Outcome E
  failed : ReadError E → Outcome E
  waiting : Outcome E

abbrev pub new_stream_keepalive_body : {E : Type 0} → StreamKeepaliveBody E
new_stream_keepalive_body = record { pending = []; err = none; reading = false; framing = at_start }

-- the first `select`
abbrev pub ask : {E : Type 0} → StreamKeepaliveBody E → StreamKeepaliveBody E
ask body = record body { reading = true }

-- the case of a result in the second `select`
abbrev pub receive_read :
    {E : Type 0} → StreamKeepaliveBody E → Text → Option E → StreamKeepaliveBody E
receive_read body value err = record body { pending = value; err = err; reading = false }

-- the case of a tick
unfoldable pub receive_tick : {E : Type 0} → StreamKeepaliveBody E → StreamKeepaliveBody E
receive_tick body =
    if at_boundary body.framing then record body { pending = stream_keepalive_comment } else body

-- the part of the loop for bytes that are pending, into a buffer of `n` bytes
unfoldable pub deliver :
    {E : Type 0} → ℕ → StreamKeepaliveBody E → Outcome E × StreamKeepaliveBody E
unfolding observe_framing
deliver n body = (
  delivered (take n body.pending),
  record body {
    framing = observe_framing body.framing (take n body.pending);
    pending = drop n body.pending;
  },
)

-- the loop of `Read`, with the wakes that are left behind it
unfoldable pub read_loop :
    {E : Type 0}
    → ℕ
    → StreamKeepaliveBody E
    → List (Wake E)
    → Outcome E × StreamKeepaliveBody E × List (Wake E)
unfolding deliver receive_tick
read_loop n body [] =
    let (bytes, after) = deliver n body in
    if not (is_empty body.pending) then (bytes, after, []) else elim body.err [
      | none ↦ (waiting, ask body, [])
      | some e ↦ (failed (upstream_failed e), body, [])
    ]
read_loop n body (wake ∷ wakes) =
    let (bytes, after) = deliver n body in
    if not (is_empty body.pending) then (bytes, after, wake ∷ wakes) else elim body.err [
      | none ↦ elim wake [
        | upstream_result value err ↦ read_loop n (receive_read body value err) wakes
        | tick ↦ read_loop n (receive_tick (ask body)) wakes
        | closed_first ↦ (failed closed_pipe, body, wakes)
        | closed_second ↦ (failed closed_pipe, ask body, wakes)
      ]
      | some e ↦ (failed (upstream_failed e), body, wake ∷ wakes)
    ]

-- `Read` into a buffer of `n` bytes
unfoldable pub read :
    {E : Type 0}
    → ℕ
    → StreamKeepaliveBody E
    → List (Wake E)
    → Outcome E × StreamKeepaliveBody E × List (Wake E)
unfolding read_loop
read n body wakes = if n == 0 then (delivered [], body, wakes) else read_loop n body wakes

-- the bytes that a `Read` hands over
abbrev pub bytes_of : {E : Type 0} → Outcome E → Text
bytes_of (delivered value) = value
bytes_of (failed e) = []
bytes_of waiting = []

-- `Read` once for each of the sizes: what is handed over, and the body and the wakes behind it
unfoldable pub read_all :
    {E : Type 0}
    → List ℕ
    → StreamKeepaliveBody E
    → List (Wake E)
    → Text × StreamKeepaliveBody E × List (Wake E)
unfolding read
read_all [] body wakes = ([], body, wakes)
read_all (n ∷ sizes) body wakes =
    let (outcome, body', wakes') = read n body wakes in
    let (value, last, rest) = read_all sizes body' wakes' in (bytes_of outcome ++ value, last, rest)

-- the bytes of the results among the wakes
unfoldable pub upstream_bytes : {E : Type 0} → List (Wake E) → Text
upstream_bytes [] = []
upstream_bytes (upstream_result value err ∷ wakes) = value ++ upstream_bytes wakes
upstream_bytes (tick ∷ wakes) = upstream_bytes wakes
upstream_bytes (closed_first ∷ wakes) = upstream_bytes wakes
upstream_bytes (closed_second ∷ wakes) = upstream_bytes wakes
