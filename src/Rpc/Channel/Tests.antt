-- ===== src/Rpc/Channel/Tests.antt =====
-- The flags of a channel in a short history.
use dep_srpc.Base.{◌≡◌, refl, arith, inl, inr, List, [], ◌∷◌}
use dep_srpc.Rpc.Channel.{
  disable_wait, use_context_call, new_channel, check, Op, sets_flag, resets_flag, sets_timeout, run,
}
use dep_srpc.Rpc.Channel.Flags.{assigned, run-check}

abbrev flags_history : List Op
flags_history =
    sets_flag disable_wait
    ∷ sets_flag use_context_call
    ∷ resets_flag disable_wait
    ∷ sets_timeout 5
    ∷ []

run-check_example :
    check use_context_call (run flags_history new_channel)
    ≡ assigned use_context_call flags_history (check use_context_call new_channel)
run-check_example =
    run-check use_context_call (omega arith) (omega arith) flags_history new_channel
      ((omega arith, inr refl), ((omega arith, inl refl), ((omega arith, inr refl), tt)))
