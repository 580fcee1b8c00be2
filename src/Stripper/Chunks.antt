-- ===== src/Stripper/Chunks.antt =====
-- The stripper over a stream cut into chunks.
use hootty.Base.{ℕ, [], ◌∷◌, ◌++◌, ◌≡◌, refl, ◌∙◌, arith, Bytes, append_assoc, append-nil}
use hootty.Stripper.Query.{esc}
use hootty.Stripper.{
  VtQueryStripper, StripState, normal, in_esc, in_csi, in_osc, osc_esc_seen, feed_in, feed,
  filter_onto, filter,
}

-- What `feed` adds to an output does not depend on it.
pub feed_in-append :
    (st : StripState) (pending : Bytes) (b : ℕ) (pre out : Bytes)
    → feed_in st pending b (pre ++ out)
      ≡ ((feed_in st pending b out).0, pre ++ (feed_in st pending b out).1)
unfolding feed_in
feed_in-append normal pending b pre out = ground (arith, append_assoc pre out (b ∷ []))
feed_in-append in_esc pending b pre out =
    ground (arith, append_assoc pre out (esc ∷ []), append_assoc pre out (pending ++ b ∷ []))
feed_in-append in_csi pending b pre out = ground (arith, append_assoc pre out (pending ++ b ∷ []))
feed_in-append in_osc pending b pre out = ground (arith, append_assoc pre out (pending ++ b ∷ []))
feed_in-append osc_esc_seen pending b pre out = ground (
  arith,
  append_assoc pre out pending,
  append_assoc pre out (pending ++ esc ∷ b'\\' ∷ []),
  append_assoc pre (out ++ pending) (esc ∷ []),
  append_assoc pre (out ++ pending) (esc ∷ b ∷ []),
)

filter_onto-append :
    (bs : Bytes) (s : VtQueryStripper) (pre out : Bytes)
    → filter_onto s bs (pre ++ out) ≡ ((filter_onto s bs out).0, pre ++ (filter_onto s bs out).1)
unfolding filter_onto
filter_onto-append [] s pre out = refl
filter_onto-append (b ∷ bs) s pre out =
    rw (feed_in-append s.state s.pending b pre out)
      (filter_onto-append bs (feed s b out).0 pre (feed s b out).1)

-- The loop behind an output already made is `filter` with that output in front.
pub filter_onto-filter :
    (s : VtQueryStripper) (bs out : Bytes)
    → filter_onto s bs out ≡ ((filter s bs).0, out ++ (filter s bs).1)
unfolding filter
filter_onto-filter s bs out = rw append-nil at (filter_onto-append bs s out [])

-- One byte, then the rest.
pub filter-cons :
    (s : VtQueryStripper) (b : ℕ) (bs : Bytes)
    → filter s (b ∷ bs)
      ≡ ((filter (feed s b []).0 bs).0, (feed s b []).1 ++ (filter (feed s b []).0 bs).1)
unfolding filter filter_onto
filter-cons s b bs = filter_onto-filter (feed s b []).0 bs (feed s b []).1

filter_onto-concat :
    (xs ys : Bytes) (s : VtQueryStripper) (out : Bytes)
    → filter_onto s (xs ++ ys) out
      ≡ filter_onto (filter_onto s xs out).0 ys (filter_onto s xs out).1
unfolding filter_onto
filter_onto-concat [] ys s out = refl
filter_onto-concat (x ∷ xs) ys s out = filter_onto-concat xs ys (feed s x out).0 (feed s x out).1

-- Filtering a stream in one call, or cut anywhere into two calls, leaves the same state and the
-- same bytes.
pub filter-append :
    (s : VtQueryStripper) (xs ys : Bytes)
    → filter s (xs ++ ys)
      ≡ ((filter (filter s xs).0 ys).0, (filter s xs).1 ++ (filter (filter s xs).0 ys).1)
unfolding filter
filter-append s xs ys =
    filter_onto-concat xs ys s [] ∙ filter_onto-filter (filter s xs).0 ys (filter s xs).1
