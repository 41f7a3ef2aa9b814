-- ===== src/Tests/Nat.antt =====
-- The theorems on authenticated datagrams at concrete inputs.
use cypher.Prelude.{
  ◌↔◌, ◌≡◌, refl, true, false, none, some, List, [], ◌∷◌, ◌++◌, replicate, arith, ok,
}
use cypher.Prelude.Bytes.{Bytes, from_le}
use cypher.Nat.Dtls.{
  DtlsSession, verify_and_strip, constant_time_eq, differences, Event, datagram, elapsed, recv,
}
use cypher.Nat.Dtls.Replay.{
  IsAccepted, verify_and_strip_iff, verify_all, advanced, verify_and_strip_replayed,
}
use cypher.Nat.Dtls.Channel.{transmit, transmit-arriving, Took, recv-IsAccepted}
use cypher.Tests.Toy.{toy, toy-IsHmac}

abbrev session : DtlsSession
session = record { remote = 1; send_seq = 1; recv_seq = 0; hmac_key = 5 ∷ [] }

abbrev sealed : Bytes
sealed = 1 ∷ (replicate 7 0 ++ (5 ∷ 1 ∷ (replicate 7 0 ++ (9 ∷ (replicate 22 0 ++ (9 ∷ []))))))

sealed_taken : (verify_and_strip toy session sealed).0 ≡ some (9 ∷ [])
unfolding verify_and_strip constant_time_eq differences from_le
sealed_taken = refl

verify_and_strip_replayed_example :
    verify_and_strip toy (verify_all toy (verify_and_strip toy session sealed).1 ([] ∷ [])) sealed
    ≡ (none, verify_all toy (verify_and_strip toy session sealed).1 ([] ∷ []))
verify_and_strip_replayed_example =
    verify_and_strip_replayed toy session sealed sealed (9 ∷ []) ([] ∷ []) sealed_taken
      (omega arith)

transmit-arriving_example :
    transmit toy session session ((true, 7 ∷ []) ∷ (false, 8 ∷ []) ∷ (true, 9 ∷ []) ∷ [])
    ≡ some (7 ∷ []) ∷ some (9 ∷ []) ∷ []
transmit-arriving_example =
    transmit-arriving toy toy-IsHmac ((true, 7 ∷ []) ∷ (false, 8 ∷ []) ∷ (true, 9 ∷ []) ∷ [])
      session session refl (omega arith) (omega arith)

-- A datagram from elsewhere, then one from the peer.
abbrev events : List Event
events = datagram 2 sealed ∷ datagram 1 sealed ∷ elapsed ∷ []

events_taken :
    recv toy session events ≡ (ok (some (9 ∷ [])), advanced toy session sealed, elapsed ∷ [])
unfolding recv verify_and_strip constant_time_eq differences from_le
events_taken = refl

recv-IsAccepted_example :
    Took toy session events (9 ∷ []) (advanced toy session sealed) (elapsed ∷ [])
recv-IsAccepted_example =
    recv-IsAccepted toy session events (9 ∷ []) (advanced toy session sealed) (elapsed ∷ [])
      events_taken

verify_and_strip_iff_example :
    ((verify_and_strip toy session sealed).0 ≡ some (9 ∷ []))
    ↔ IsAccepted toy session sealed (9 ∷ [])
verify_and_strip_iff_example = verify_and_strip_iff toy session sealed (9 ∷ [])
