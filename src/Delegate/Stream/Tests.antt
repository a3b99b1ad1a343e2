-- ===== src/Delegate/Stream/Tests.antt =====
-- The stream delegate over the four-byte prefix: concrete runs.
use dep_srpc.Base.{ℕ, ◌≡◌, refl, arith, List, [], ◌∷◌, flatten, leb, Bool, some}
use dep_srpc.SizePack.Fixint.{fixint}
use dep_srpc.SizePack.Fixint
use dep_srpc.SizePack.Fixint.Laws.{fixint-IsPrefix, fixint-IsCodec}
use dep_srpc.Delegate.Message.Frames.{frames}
use dep_srpc.Delegate.Stream.{
  Event, stream_begin, stream_update, stream_end, need_read, update_cursor, max_len, minimum,
  begin_stream, start_new_stream, start_if_left, round, loop, on_data, on_data_all,
}
use dep_srpc.Delegate.Stream.Marks.{marks, expected}
use dep_srpc.Delegate.Stream.Frames.{on_data_all-expected}

abbrev at_most_100 : ℕ → Bool
at_most_100 len = leb len 100

-- The frames of the message 1, 2 and of an empty one, in three pieces.
abbrev pieces : List (List ℕ)
pieces = (0 ∷ 0 ∷ 0 ∷ []) ∷ (2 ∷ 1 ∷ []) ∷ (2 ∷ 0 ∷ 0 ∷ 0 ∷ 0 ∷ []) ∷ []

-- The empty message begins and does not end.
pieces_ran :
    on_data_all (fixint 4) at_most_100 [] 0 pieces
    ≡ some (
      [],
      0,
      need_read
          ∷ stream_begin 2
          ∷ stream_update (1 ∷ [])
          ∷ need_read
          ∷ stream_update (2 ∷ [])
          ∷ stream_end
          ∷ stream_begin 0
          ∷ need_read
          ∷ [],
    )
unfolding on_data_all on_data loop round start_if_left start_new_stream begin_stream minimum max_len
    update_cursor Fixint.size_length Fixint.unpack Fixint.unpack_loop
pieces_ran = refl

pieces_whole : flatten pieces ≡ frames (fixint 4) ((1 ∷ 2 ∷ []) ∷ [] ∷ [])
unfolding frames Fixint.pack Fixint.pack_loop
pieces_whole = refl

on_data_all-expected_example :
    (es : List Event) × (on_data_all (fixint 4) at_most_100 [] 0 pieces ≡ some ([], 0, es))
    × (marks es ≡ expected ((1 ∷ 2 ∷ []) ∷ [] ∷ []))
on_data_all-expected_example =
    on_data_all-expected (fixint 4) at_most_100 (fixint-IsPrefix 4 (omega arith)) (fixint-IsCodec 4)
      ((1 ∷ 2 ∷ []) ∷ [] ∷ []) pieces (((omega arith), refl), (((omega arith), refl), tt))
      pieces_whole
