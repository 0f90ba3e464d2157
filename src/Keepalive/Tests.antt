-- ===== src/Keepalive/Tests.antt =====
-- A stream of two events with a tick between them, and the theorems of the keepalive applied to it.
use paracetamol.Base.{ℕ, none, some, List, [], ◌∷◌, ◌++◌, ◌≡◌, refl}
use paracetamol.Text.{Text, codes}
use paracetamol.Keepalive.Read.{
  Wake, upstream_result, tick, new_stream_keepalive_body, read_all, upstream_bytes,
  stream_keepalive_comment,
}
use paracetamol.Keepalive.Frames.{Interleaves, read_all-Interleaves}

abbrev wakes : List (Wake ℕ)
wakes =
    upstream_result (codes "data: a\n") none
    ∷ tick
    ∷ upstream_result (codes "\n") none
    ∷ tick
    ∷ upstream_result (codes "data: b\n\n") (some 7)
    ∷ tick
    ∷ []

abbrev sizes : List ℕ
sizes = 100 ∷ 5 ∷ 100 ∷ 100 ∷ 100 ∷ 100 ∷ []

commented :
    (read_all sizes new_stream_keepalive_body wakes).0
    ≡ codes "data: a\n\n" ++ stream_keepalive_comment ++ codes "data: b\n\n"
unfolding read_all
commented = refl

read_all-Interleaves_example :
    let (value, body, rest) = read_all sizes new_stream_keepalive_body wakes in
    (up : Text) × (up ++ upstream_bytes rest ≡ upstream_bytes wakes)
    × Interleaves up (value ++ body.pending)
read_all-Interleaves_example = read_all-Interleaves sizes wakes
