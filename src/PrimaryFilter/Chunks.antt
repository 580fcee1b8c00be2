-- ===== src/PrimaryFilter/Chunks.antt =====
-- The primary-screen filter over a stream cut into chunks.
use hootty.Base.{ℕ, Bool, [], ◌∷◌, ◌++◌, ◌≡◌, refl, ◌∙◌, arith, Bytes, append_assoc, append-nil}
use hootty.PrimaryFilter.{
  VtPrimaryScreenFilter, PrimaryFilterState, normal, in_esc, in_csi, feed_in, feed, filter_onto,
  filter,
}

-- What `feed` adds to an output does not depend on it.
pub feed_in-append :
    (alt : Bool) (st : PrimaryFilterState) (pending : Bytes) (b : ℕ) (pre out : Bytes)
    → feed_in alt st pending b (pre ++ out)
      ≡ ((feed_in alt st pending b out).0, pre ++ (feed_in alt st pending b out).1)
unfolding feed_in
feed_in-append alt normal pending b pre out = ground (arith, append_assoc pre out (b ∷ []))
feed_in-append alt in_esc pending b pre out =
    ground (arith, append_assoc pre out (pending ++ b ∷ []))
feed_in-append alt in_csi pending b pre out =
    ground (arith, append_assoc pre out (pending ++ b ∷ []))

filter_onto-append :
    (bs : Bytes) (f : VtPrimaryScreenFilter) (pre out : Bytes)
    → filter_onto f bs (pre ++ out) ≡ ((filter_onto f bs out).0, pre ++ (filter_onto f bs out).1)
unfolding filter_onto
filter_onto-append [] f pre out = refl
filter_onto-append (b ∷ bs) f pre out =
    rw (feed_in-append f.in_alt f.state f.pending b pre out)
      (filter_onto-append bs (feed f b out).0 pre (feed f b out).1)

-- The loop behind an output already made is `filter` with that output in front.
pub filter_onto-filter :
    (f : VtPrimaryScreenFilter) (bs out : Bytes)
    → filter_onto f bs out ≡ ((filter f bs).0, out ++ (filter f bs).1)
unfolding filter
filter_onto-filter f bs out = rw append-nil at (filter_onto-append bs f out [])

filter_onto-concat :
    (xs ys : Bytes) (f : VtPrimaryScreenFilter) (out : Bytes)
    → filter_onto f (xs ++ ys) out
      ≡ filter_onto (filter_onto f xs out).0 ys (filter_onto f xs out).1
unfolding filter_onto
filter_onto-concat [] ys f out = refl
filter_onto-concat (x ∷ xs) ys f out = filter_onto-concat xs ys (feed f x out).0 (feed f x out).1

-- A PTY stream filtered in one call, or cut anywhere into two calls, leaves the same state and the
-- same bytes for the mirror.
pub primary_filter-append :
    (f : VtPrimaryScreenFilter) (xs ys : Bytes)
    → filter f (xs ++ ys)
      ≡ ((filter (filter f xs).0 ys).0, (filter f xs).1 ++ (filter (filter f xs).0 ys).1)
unfolding filter
primary_filter-append f xs ys =
    filter_onto-concat xs ys f [] ∙ filter_onto-filter (filter f xs).0 ys (filter f xs).1
