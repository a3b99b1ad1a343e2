-- ===== src/Delegate/Message/Tests.antt =====
-- The message delegate over the four-byte prefix: concrete runs, and its theorems at concrete data.
use dep_srpc.Base.{ℕ, ◌≡◌, refl, arith, List, [], ◌∷◌, ◌++◌, flatten, leb, Bool, some}
use dep_srpc.SizePack.Fixint.{fixint}
use dep_srpc.SizePack.Fixint
use dep_srpc.SizePack.Fixint.Laws.{fixint-IsPrefix, fixint-IsCodec}
use dep_srpc.Delegate.Message.{
  Event, message, need_read, messages, round, drain, on_data, on_data_all,
}
use dep_srpc.Delegate.Message.Chunks.{on_data_all-flatten}
use dep_srpc.Delegate.Message.Frames.{frames}
use dep_srpc.Delegate.Message.Clean.{as_messages}
use dep_srpc.Delegate.Message.Stalls.{only_reads, on_data_all-only_reads}

-- An owner that takes messages of at most 100 bytes.
abbrev at_most_100 : ℕ → Bool
at_most_100 len = leb len 100

-- The frame of the message 1, 2 and the first half of the next one's prefix, in two pieces.
abbrev pieces : List (List ℕ)
pieces = (0 ∷ 0 ∷ 0 ∷ []) ∷ (2 ∷ 1 ∷ 2 ∷ 0 ∷ 0 ∷ []) ∷ []

pieces_run :
    on_data_all (fixint 4) at_most_100 [] pieces
    ≡ some (0 ∷ 0 ∷ [], need_read ∷ message (1 ∷ 2 ∷ []) ∷ need_read ∷ [])
unfolding on_data_all on_data drain round Fixint.size_length Fixint.unpack Fixint.unpack_loop
pieces_run = refl

on_data_all-flatten_example :
    (left : List ℕ) × (es fs : List Event) × (on_data_all (fixint 4) at_most_100 [] pieces
      ≡ some (left, es))
    × (on_data (fixint 4) at_most_100 [] (flatten pieces) ≡ some (left, fs))
    × (messages es ≡ messages fs)
on_data_all-flatten_example =
    on_data_all-flatten (fixint 4) at_most_100 (fixint-IsPrefix 4 (omega arith))
      (λ bs valid. ground (arith, valid)) pieces (omega arith)

frame_whole :
    flatten ((0 ∷ 0 ∷ []) ∷ (0 ∷ 2 ∷ 1 ∷ 2 ∷ []) ∷ []) ≡ frames (fixint 4) ((1 ∷ 2 ∷ []) ∷ [])
unfolding frames Fixint.pack Fixint.pack_loop
frame_whole = refl

-- A message, and then a length of 256 with five bytes behind it in other calls.
on_data_all-only_reads_example :
    on_data_all (fixint 4) at_most_100 [] (
      (frames (fixint 4) ((1 ∷ 2 ∷ []) ∷ []) ++ 0 ∷ 0 ∷ 1 ∷ 0 ∷ [])
      ∷ (5 ∷ [])
      ∷ (0 ∷ 0 ∷ 0 ∷ 0 ∷ [])
      ∷ [])
    ≡ some (
      (0 ∷ 0 ∷ 1 ∷ 0 ∷ []) ++ flatten ((5 ∷ []) ∷ (0 ∷ 0 ∷ 0 ∷ 0 ∷ []) ∷ []),
      as_messages ((1 ∷ 2 ∷ []) ∷ [])
          ++ need_read ∷ only_reads ((5 ∷ []) ∷ (0 ∷ 0 ∷ 0 ∷ 0 ∷ []) ∷ []),
    )
unfolding Fixint.size_length Fixint.unpack Fixint.unpack_loop Fixint.pack Fixint.pack_loop
on_data_all-only_reads_example =
    on_data_all-only_reads (fixint 4) at_most_100 (fixint-IsPrefix 4 (omega arith))
      (fixint-IsCodec 4) ((1 ∷ 2 ∷ []) ∷ []) (0 ∷ 0 ∷ 1 ∷ 0 ∷ [])
      ((5 ∷ []) ∷ (0 ∷ 0 ∷ 0 ∷ 0 ∷ []) ∷ []) ((omega arith, refl, omega arith), tt)
      (omega arith, refl)
