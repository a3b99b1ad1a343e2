-- ===== src/Tunnel/Packets/Tests.antt =====
-- Two packets that go over the tunnel in two pieces, and the message that stops it.
use dep_srpc.Base.{
  true, take, drop, ◌++◌, ap, append-nil, take-append-drop, ◌∙◌, ℕ, ◌≡◌, refl, arith, some, List,
  [], ◌∷◌,
}
use dep_srpc.Delegate.Message
use dep_srpc.Delegate.Message.{messages, on_data_all}
use dep_srpc.Tunnel.Packets.{
  on_message, outside, validate_length, on_messages, sent_by, written_for, my_size_policy,
  on_data_all-sent_by,
}

empty_message : on_message [] ≡ outside
unfolding on_message
empty_message = refl

abbrev two_packets : List (List ℕ)
two_packets = (5 ∷ 6 ∷ []) ∷ (7 ∷ []) ∷ []

abbrev packets : List ℕ
packets = sent_by my_size_policy true two_packets

on_data_all-sent_by_example :
    (es : List Message.Event) × (on_data_all my_size_policy validate_length []
        (take 3 packets ∷ drop 3 packets ∷ [])
      ≡ some ([], es))
    × (on_messages (messages es) ≡ written_for true two_packets)
on_data_all-sent_by_example =
    on_data_all-sent_by true two_packets (take 3 packets ∷ drop 3 packets ∷ [])
      (omega arith, (omega arith, tt))
      (ap (λ t. take 3 packets ++ t) (append-nil (drop 3 packets)) ∙ take-append-drop 3 packets)
