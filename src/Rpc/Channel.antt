-- ===== src/Rpc/Channel.antt =====
-- include/srpc/common/protobuf/channel.h: the options and the timeout of a channel, `uint32_t` and
-- `uint64_t`. What it inherits of protobuf, and `alive`, have no code here.
pub mod Flags
pub mod Tests
use dep_srpc.Base.{ℕ, ◌*◌, Bool, ◌==◌, bit_and, bit_or, List, [], ◌∷◌}
use dep_srpc.Base.Masks.{complement}

pub record Channel : Type 0 where
  pub options : ℕ
  pub timeout_ : ℕ

-- `enum flags`.
abbrev pub default_flag : ℕ
default_flag = 0

abbrev pub disable_wait : ℕ
disable_wait = 1

abbrev pub use_context_call : ℕ
use_context_call = 1 * 2

unfoldable pub new_channel : Channel
new_channel = record { options = 0; timeout_ = 0 }

unfoldable pub set_flags : ℕ → Channel → Channel
set_flags flags c = record c { options = flags }

unfoldable pub check : ℕ → Channel → Bool
check flag c = bit_and c.options flag == flag

unfoldable pub get_flags : Channel → ℕ
get_flags c = c.options

unfoldable pub set_flag : ℕ → Channel → Channel
set_flag flag c = record c { options = bit_or c.options flag }

unfoldable pub reset_flag : ℕ → Channel → Channel
reset_flag flag c = record c { options = bit_and c.options (complement 32 flag) }

unfoldable pub timeout : Channel → ℕ
timeout c = c.timeout_

unfoldable pub set_timeout : ℕ → Channel → Channel
set_timeout new_value c = record c { timeout_ = new_value }

pub data Op : Type 0 where
  sets_flags sets_flag resets_flag sets_timeout : ℕ → Op

unfoldable pub step : Op → Channel → Channel
step (sets_flags flags) c = set_flags flags c
step (sets_flag flag) c = set_flag flag c
step (resets_flag flag) c = reset_flag flag c
step (sets_timeout new_value) c = set_timeout new_value c

unfoldable pub run : List Op → Channel → Channel
run [] c = c
run (op ∷ ops) c = run ops (step op c)
