-- ===== src/Delegate/Stream.antt =====
-- include/srpc/common/transport/delegates/stream.h. A buffer is the list of its bytes that are
-- left, so that moving the pointer is `drop`; the virtual functions are events, and
-- `validate_length` is an argument. The loop of `on_data` is a do-while.
pub mod Marks
pub mod Split
pub mod Frames
pub mod Tests
use mathlib.Core.Option
use dep_srpc.Base.{
  ℕ, zero, suc, ◌+◌, ◌-◌, Bool, true, false, not, Option, none, some, ltb, leb, ◌==◌, if◌then◌else◌,
}
use dep_srpc.Base.{List, [], ◌∷◌, ◌++◌, length, take, drop}
use dep_srpc.SizePack.Policy.{Policy}

pub data Event : Type 0 where
  stream_begin : ℕ → Event
  stream_update : List ℕ → Event
  stream_end need_read error : Event

-- The members `tmp_` and `cursor_`, and the buffer of the loop.
pub record State : Type 0 where
  pub tmp : List ℕ
  pub cursor : ℕ
  pub buff : List ℕ

unfoldable pub update_cursor : State → State × List Event
update_cursor s =
    if leb s.cursor (length s.buff)
    then (
      record s { cursor = 0; buff = drop s.cursor s.buff },
      stream_update (take s.cursor s.buff) ∷ stream_end ∷ [],
    )
    else (record s { cursor = s.cursor - length s.buff; buff = [] }, stream_update s.buff ∷ [])

module _ (p : Policy) (validate_length : ℕ → Bool) where
  unfoldable pub max_len : ℕ
  max_len = p.max_length + 1

  -- `minimum`, the bytes that go into `tmp_`.
  unfoldable pub minimum : List ℕ → ℕ
  minimum buff = if ltb (length buff) max_len then length buff else max_len

  -- The branches behind `tmp_.insert`, with the grown `tmp` and `packed` of it.
  unfoldable pub begin_stream : State → List ℕ → ℕ → State × List Event
  begin_stream s tmp packed =
      let used = minimum s.buff - (length tmp - packed) in
      if leb p.min_length packed
      then if not (validate_length (p.unpack tmp)) then (record s { buff = [] }, []) else (
        record { tmp = []; cursor = p.unpack tmp; buff = drop used s.buff },
        stream_begin (p.unpack tmp) ∷ [],
      )
      else if leb max_len (length tmp)
      then (record s { buff = [] }, error ∷ [])
      else (record s { tmp = tmp; buff = drop (minimum s.buff) s.buff }, [])

  unfoldable pub start_new_stream : State → State × List Event
  start_new_stream s =
      let tmp = s.tmp ++ take (minimum s.buff) s.buff in begin_stream s tmp (p.size_length tmp)

  -- The loop's body: an update inside a message, and a new stream where a byte is left.
  unfoldable pub start_if_left : State → State × List Event
  start_if_left s = if length s.buff == 0 then (s, []) else start_new_stream s

  unfoldable pub round : State → State × List Event
  round s =
      let (s1, es) = if s.cursor == 0 then (s, []) else update_cursor s in
      let (s2, more) = start_if_left s1 in (s2, es ++ more)

  -- The loop on fuel; `none` means that the fuel ran out.
  unfoldable pub loop : ℕ → State → Option (State × List Event)
  loop zero s = none
  loop (suc fuel) s =
      let rest = Option.map (λ (s2, more). (s2, (round s).1 ++ more)) (loop fuel (round s).0) in
      if length (round s).0.buff == 0 then some (round s) else rest

  -- From `tmp_` and `cursor_` to these and the calls made. Each round takes a byte at least where
  -- one is left, so one round more than there are bytes is enough.
  unfoldable pub on_data : List ℕ → ℕ → List ℕ → Option (List ℕ × ℕ × List Event)
  on_data tmp cursor bytes =
      Option.map (λ (s, es). (s.tmp, s.cursor, es ++ need_read ∷ []))
        (loop (length bytes + 1) (record { tmp = tmp; cursor = cursor; buff = bytes }))

  unfoldable pub on_data_all : List ℕ → ℕ → List (List ℕ) → Option (List ℕ × ℕ × List Event)
  on_data_all tmp cursor [] = some (tmp, cursor, [])
  on_data_all tmp cursor (bytes ∷ chunks) = elim (on_data tmp cursor bytes) [
    | none ↦ none
    | some (tmp1, cursor1, es) ↦
        Option.map (λ (tmp2, cursor2, more). (tmp2, cursor2, es ++ more))
          (on_data_all tmp1 cursor1 chunks)
  ]
