-- ===== src/Delegate/Stream/Marks.antt =====
-- The calls of the stream delegate, byte by byte.
use dep_srpc.Base.{ℕ, ◌≡◌, refl, ap, sym}
use dep_srpc.Base.{List, [], ◌∷◌, ◌++◌, length, append_assoc}
use dep_srpc.Delegate.Stream.{Event, stream_begin, stream_update, stream_end, need_read, error}

-- What the calls say, byte by byte, so that the cut into updates does not show.
pub data Mark : Type 0 where
  begins : ℕ → Mark
  byte : ℕ → Mark
  ends fails : Mark

unfoldable pub bytes_of : List ℕ → List Mark
bytes_of [] = []
bytes_of (b ∷ bs) = byte b ∷ bytes_of bs

unfoldable pub marks : List Event → List Mark
marks [] = []
marks (stream_begin n ∷ es) = begins n ∷ marks es
marks (stream_update bs ∷ es) = bytes_of bs ++ marks es
marks (stream_end ∷ es) = ends ∷ marks es
marks (need_read ∷ es) = marks es
marks (error ∷ es) = fails ∷ marks es

-- The calls for some messages: one that is empty begins and does not end.
unfoldable pub expected : List (List ℕ) → List Mark
expected [] = []
expected ([] ∷ ms) = begins 0 ∷ expected ms
expected ((b ∷ bs) ∷ ms) = begins (length (b ∷ bs)) ∷ (bytes_of (b ∷ bs) ++ ends ∷ expected ms)

pub bytes_of-append : (xs ys : List ℕ) → bytes_of (xs ++ ys) ≡ bytes_of xs ++ bytes_of ys
unfolding bytes_of
bytes_of-append [] ys = refl
bytes_of-append (x ∷ xs) ys = ap (λ t. byte x ∷ t) (bytes_of-append xs ys)

pub marks-append : (es fs : List Event) → marks (es ++ fs) ≡ marks es ++ marks fs
unfolding marks
marks-append [] fs = refl
marks-append (stream_begin n ∷ es) fs = ap (λ t. begins n ∷ t) (marks-append es fs)
marks-append (stream_update bs ∷ es) fs =
    rw (marks-append es fs) (sym (append_assoc (bytes_of bs) (marks es) (marks fs)))
marks-append (stream_end ∷ es) fs = ap (λ t. ends ∷ t) (marks-append es fs)
marks-append (need_read ∷ es) fs = marks-append es fs
marks-append (error ∷ es) fs = ap (λ t. fails ∷ t) (marks-append es fs)
